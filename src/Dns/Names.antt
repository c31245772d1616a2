-- ===== src/Dns/Names.antt =====
-- The walks over an encoded name: what they read, and where they leave their arrays.
use native.Mathlib.Decide.{dec_lt}
use idf_custom_arduino.Base.{
  ℕ, zero, suc, ◌+◌, ◌≤◌, ◌<◌, ◌≡◌, ◌⊎◌, inl, inr, refl, sym, ap, ap₂, ◌∙◌, List, [], ◌∷◌, ◌++◌,
  arith, ◌%◌, ◌^◌, append_assoc, length, length-append, get_or, take, slice, take-append_length,
  drop-append_length,
}
use idf_custom_arduino.Dns.Message.{
  done, fault, copy_labels, read_qname, join_labels, parsed_domain_name,
}
use idf_custom_arduino.Dns.Rounds.{copy_labels_low, copy_labels_high}

-- A domain name as its labels, and how a query holds it.
abbrev pub encode : List (List ℕ) → List ℕ
encode [] = 0 ∷ []
encode (l ∷ ls) = length l ∷ (l ++ encode ls)

-- The labels with dots between them.
abbrev pub joined : List (List ℕ) → List ℕ
joined [] = []
joined (l ∷ []) = l
joined (l ∷ m ∷ ls) = l ++ 0x2e ∷ joined (m ∷ ls)

abbrev pub IsName : List (List ℕ) → Type 0
IsName [] = Unit
IsName (l ∷ ls) = (0 < length l) × IsName ls

get_or-behind : (pre xs : List ℕ) (i : ℕ) → get_or (pre ++ xs) (length pre + i) 0 ≡ get_or xs i 0
get_or-behind [] xs i = ap (λ k. get_or xs k 0) (omega arith)
get_or-behind (p ∷ pre) xs i =
    ap (λ k. get_or (p ∷ pre ++ xs) k 0) {y = suc (length pre + i)} (omega arith)
    ∙ get_or-behind pre xs i

pub slice-behind : (pre xs ys : List ℕ) → slice (length pre) (length xs) (pre ++ (xs ++ ys)) ≡ xs
slice-behind pre xs ys =
    ap (take (length xs)) (drop-append_length pre (xs ++ ys)) ∙ take-append_length xs ys

-- A label of the name, as it stands in the packet.
abbrev entry : List ℕ → List ℕ
entry l = length l ∷ l

module _ (buf rest : List ℕ) where
  -- `pre` is what stands before the labels `ls` of the name.
  abbrev Splits : List ℕ → List (List ℕ) → Type 0
  Splits pre ls = buf ≡ pre ++ (encode ls ++ rest)

  next_split :
      (pre l : List ℕ) (ls : List (List ℕ)) → Splits pre (l ∷ ls) → Splits (pre ++ entry l) ls
  next_split pre l ls e =
      e
      ∙ ap (λ t. pre ++ length l ∷ t) (append_assoc l (encode ls) rest)
      ∙ sym (append_assoc pre (entry l) (encode ls ++ rest))

  size_read :
      (pre l : List ℕ) (ls : List (List ℕ)) (at : ℕ)
      → Splits pre (l ∷ ls)
      → at ≡ length pre
      → get_or buf at 0 ≡ length l
  size_read pre l ls at e q =
      ap₂ (λ b k. get_or b k 0) e (omega arith) ∙ get_or-behind pre (encode (l ∷ ls) ++ rest) 0

  end_read : (pre : List ℕ) (at : ℕ) → Splits pre [] → at ≡ length pre → get_or buf at 0 ≡ 0
  end_read pre at e q = ap₂ (λ b k. get_or b k 0) e (omega arith) ∙ get_or-behind pre (0 ∷ rest) 0

  entry_read :
      (pre l : List ℕ) (ls : List (List ℕ)) (at : ℕ)
      → Splits pre (l ∷ ls)
      → at ≡ length pre
      → slice at (length l + 1) buf ≡ entry l
  entry_read pre l ls at e q =
      rw (next_split pre l ls e ∙ append_assoc pre (entry l) _, q)
        (ap (λ k. slice (length pre) k (pre ++ (entry l ++ (encode ls ++ rest))))
            {y = suc (length l)} (omega arith)
          ∙ slice-behind pre (entry l) (encode ls ++ rest))

  length_buf :
      (pre : List ℕ) (ls : List (List ℕ))
      → Splits pre ls
      → length buf ≡ length pre + length (encode ls) + length rest
  length_buf pre ls e =
      omega
        (arith, ap length e, length-append pre (encode ls ++ rest), length-append (encode ls) rest)

  copy_labels-encode :
      (fuel n : ℕ) (pre name : List ℕ) (ls : List (List ℕ))
      → Splits pre ls
      → IsName ls
      → length pre ≡ 12 + n
      → n + length (encode ls) ≤ 128
      → length (encode ls) < fuel
      → copy_labels fuel buf n name ≡ done (name ++ encode ls)
  copy_labels-encode zero n pre name ls e i p small enough = absurd (omega arith)
  copy_labels-encode (suc fuel) n pre name [] e i p small enough =
      rw (copy_labels_low fuel buf n name 0 (omega arith) (end_read pre (12 + n) e (omega arith)))
        (ground (arith, length_buf pre [] e))
  copy_labels-encode (suc fuel) n pre name (l ∷ ls) e i p small enough =
      let next : (n + (length l + 1)) % 2 ^ 8 ≡ n + length l + 1 =
        omega (arith, length-append l (encode ls)) in
      rw
        (
          copy_labels_low fuel buf n name (length l) (omega (arith, length-append l (encode ls)))
              (size_read pre l ls (12 + n) e (omega arith)),
          entry_read pre l ls (12 + n) e (omega arith),
          next,
        )
        (ground (
          arith,
          length_buf pre (l ∷ ls) e,
          length-append l (encode ls),
          append_assoc name (entry l) (encode ls),
          copy_labels-encode fuel (n + length l + 1) (pre ++ entry l) (name ++ entry l) ls
              (next_split pre l ls e) i.1 (omega (arith, length-append pre (entry l)))
              (omega (arith, length-append l (encode ls)))
              (omega (arith, length-append l (encode ls))),
        ))

  -- A name that is too long for `QNameLength` is not copied.
  copy_labels_overflow :
      (fuel n : ℕ) (pre name : List ℕ) (ls : List (List ℕ))
      → Splits pre ls
      → IsName ls
      → length pre ≡ 12 + n
      → 128 < n + length (encode ls)
      → n ≤ 127
      → 128 < fuel + n
      → copy_labels fuel buf n name ≡ fault
  copy_labels_overflow zero n pre name ls e i p big low enough = absurd (omega arith)
  copy_labels_overflow (suc zero) n pre name ls e i p big low enough = absurd (omega arith)
  copy_labels_overflow (suc (suc fuel)) n pre name [] e i p big low enough = absurd (omega arith)
  copy_labels_overflow (suc (suc fuel)) n pre name (l ∷ ls) e i p big low enough =
      let next = (n + (length l + 1)) % 2 ^ 8 in
      let copied = name ++ slice (12 + n) (length l + 1) buf in
      let more =
        copy_labels_overflow (suc fuel) next (pre ++ entry l) copied ls (next_split pre l ls e)
          i.1 in
      let size = length-append pre (entry l) in
      let encoded = length-append l (encode ls) in
      rw
        (copy_labels_low (suc fuel) buf n name (length l) (omega arith)
          (size_read pre l ls (12 + n) e (omega arith)))
        (ground (arith, more, size, encoded, i.0, copy_labels_high fuel buf next copied))

  label_read :
      (pre l : List ℕ) (ls : List (List ℕ)) (at : ℕ)
      → Splits pre (l ∷ ls)
      → at ≡ suc (length pre)
      → slice at (length l) buf ≡ l
  label_read pre l ls at e q = rw (q) (
      ap (slice (suc (length pre)) (length l)) whole
      ∙ ap (λ k. slice k (length l) ((pre ++ length l ∷ []) ++ (l ++ (encode ls ++ rest))))
          {x = suc (length pre)} {y = length (pre ++ length l ∷ [])}
          (omega (arith, length-append pre (length l ∷ [])))
      ∙ slice-behind (pre ++ length l ∷ []) l (encode ls ++ rest))
    where
      whole : buf ≡ (pre ++ length l ∷ []) ++ (l ++ (encode ls ++ rest))
      whole =
          e
          ∙ ap (λ t. pre ++ length l ∷ t) (append_assoc l (encode ls) rest)
          ∙ sym (append_assoc pre (length l ∷ []) (l ++ (encode ls ++ rest)))

  join_labels-encode :
      (fuel pos : ℕ) (pre name : List ℕ) (l : List ℕ) (ls : List (List ℕ))
      → Splits pre (l ∷ ls)
      → IsName (l ∷ ls)
      → length pre ≡ 12 + pos
      → length (encode ls) ≤ fuel
      → join_labels fuel buf pos name ≡ done (name ++ joined (l ∷ ls))
  unfolding join_labels
  join_labels-encode zero pos pre name l [] e i p enough = absurd (omega arith)
  join_labels-encode zero pos pre name l (m ∷ ls) e i p enough = absurd (omega arith)
  join_labels-encode (suc fuel) pos pre name l [] e i p enough =
      rw
        (
          size_read pre l [] (12 + pos) e (omega arith),
          label_read pre l [] (12 + pos + 1) e (omega arith),
          end_read (pre ++ entry l) (12 + pos + length l + 1) (next_split pre l [] e)
              (omega (arith, length-append pre (entry l))),
        )
        (ground (arith, length_buf pre (l ∷ []) e, length-append l (0 ∷ [])))
  join_labels-encode (suc fuel) pos pre name l (m ∷ ls) e i p enough =
      rw
        (
          size_read pre l (m ∷ ls) (12 + pos) e (omega arith),
          label_read pre l (m ∷ ls) (12 + pos + 1) e (omega arith),
          size_read (pre ++ entry l) m ls (12 + pos + length l + 1) (next_split pre l (m ∷ ls) e)
              (omega (arith, length-append pre (entry l))),
        )
        (ground (
          arith,
          i.1.0,
          length_buf pre (l ∷ m ∷ ls) e,
          length-append l (encode (m ∷ ls)),
          join_labels-encode fuel (pos + length l + 1) (pre ++ entry l) ((name ++ l) ++ 0x2e ∷ []) m
              ls (next_split pre l (m ∷ ls) e) i.1 (omega (arith, length-append pre (entry l)))
              (omega (arith, length-append m (encode ls))),
          append_assoc (name ++ l) (0x2e ∷ []) (joined (m ∷ ls)),
          append_assoc name l (0x2e ∷ joined (m ∷ ls)),
        ))

abbrev pub query : List ℕ → List (List ℕ) → List ℕ → List ℕ
query header ls rest = header ++ (encode ls ++ rest)

-- From a query whose encoded name has at most 127 bytes, the server copies exactly the encoded
-- name.
pub read_qname-encode :
    (header : List ℕ) (ls : List (List ℕ)) (rest : List ℕ)
    → length header ≡ 12
    → IsName ls
    → length (encode ls) ≤ 127
    → read_qname (query header ls rest) ≡ done (encode ls)
unfolding read_qname
read_qname-encode header ls rest h i small =
    copy_labels-encode (query header ls rest) rest 129 0 header [] ls refl i (omega arith)
      (omega arith) (omega arith)

-- The encoding of a longer name is not copied whole.
pub read_qname_long :
    (header : List ℕ) (ls : List (List ℕ)) (rest : List ℕ)
    → length header ≡ 12
    → IsName ls
    → 127 < length (encode ls)
    → (read_qname (query header ls rest) ≡ fault)
      ⊎ ((read_qname (query header ls rest) ≡ done (encode ls)) × (length (encode ls) ≡ 128))
unfolding read_qname
read_qname_long header ls rest h i big = elim (dec_lt 128 (length (encode ls))) [
  | yes more ↦ inl (
      copy_labels_overflow (query header ls rest) rest 129 0 header [] ls refl i (omega arith)
        (omega (arith, more)) (omega arith) (omega arith))
  | no less ↦ inr (
    copy_labels-encode (query header ls rest) rest 129 0 header [] ls refl i (omega arith)
        (omega arith) (omega arith),
    omega arith,
  )
]

pub parsed_domain_name-encode :
    (header : List ℕ) (ls : List (List ℕ)) (rest : List ℕ)
    → length header ≡ 12
    → IsName ls
    → parsed_domain_name (query header ls rest) ≡ done (joined ls)
unfolding parsed_domain_name
parsed_domain_name-encode header [] rest h i = ground (
  arith,
  end_read (query header [] rest) rest header 12 refl (omega arith),
  length_buf (query header [] rest) rest header [] refl,
)
parsed_domain_name-encode header (l ∷ ls) rest h i = ground (
  arith,
  i.0,
  size_read (query header (l ∷ ls) rest) rest header l ls 12 refl (omega arith),
  length_buf (query header (l ∷ ls) rest) rest header (l ∷ ls) refl,
  length-append l (encode ls),
  join_labels-encode (query header (l ∷ ls) rest) rest (length (query header (l ∷ ls) rest)) 0
      header [] l ls refl i (omega arith)
      (omega (
        arith,
        length_buf (query header (l ∷ ls) rest) rest header (l ∷ ls) refl,
        length-append l (encode ls),
      )),
)

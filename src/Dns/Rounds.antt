-- ===== src/Dns/Rounds.antt =====
-- The walks over the name of a query, one round at a time, and their fuel.
use idf_custom_arduino.Base.{
  ℕ, zero, suc, ◌+◌, ◌%◌, ◌^◌, ◌≤◌, ◌<◌, ◌≡◌, ◌≢◌, refl, none, some, List, [], ◌∷◌, ◌++◌, arith,
  ◌||◌, ◌==◌, ltb, if◌then◌else◌, length, get_or, slice,
}
use idf_custom_arduino.Dns.Message.{
  done, fault, no_fuel, place, copy_labels, read_qname, join_labels, parsed_domain_name,
}

-- A round of the copy while `QNameLength` is not negative.
pub copy_labels_low :
    (fuel : ℕ) (buf : List ℕ) (n : ℕ) (name : List ℕ) (size : ℕ)
    → n < 128
    → get_or buf (12 + n) 0 ≡ size
    → copy_labels (suc fuel) buf n name ≡ (
        if ltb (12 + n) (length buf)
        then (if size == 0
            then done (name ++ 0 ∷ [])
            else if ltb (length buf) (12 + n + size + 1) || ltb 255 (n + size + 1)
            then fault
            else copy_labels fuel buf
                ((n + (size + 1)) % 2 ^ 8)
                (name ++ slice (12 + n) (size + 1) buf))
        else fault)
unfolding copy_labels
copy_labels_low fuel buf n name size low read =
    let a : place 12 n ≡ some (12 + n) = ground arith in
    let b : place 0 n ≡ some n = ground arith in rw (a, copy_labels) (rw (b, read) (ground arith))

-- A negative `QNameLength` is no index of `QName`.
pub copy_labels_high :
    (fuel : ℕ) (buf : List ℕ) (n : ℕ) (name : List ℕ)
    → 128 ≤ n
    → n ≤ 255
    → copy_labels (suc fuel) buf n name ≡ fault
unfolding copy_labels
copy_labels_high fuel buf n name low high =
    let b : place 0 n ≡ none = ground arith in ground (arith, b)

copy_labels-ne_no_fuel :
    (fuel : ℕ) (buf : List ℕ) (n : ℕ) (name : List ℕ)
    → n ≤ 127
    → 128 < fuel + n
    → copy_labels fuel buf n name ≢ no_fuel
copy_labels-ne_no_fuel zero buf n name low h = absurd (omega arith)
copy_labels-ne_no_fuel (suc zero) buf n name low h = absurd (omega arith)
copy_labels-ne_no_fuel (suc (suc fuel)) buf n name low h =
    let size = get_or buf (12 + n) 0 in
    let next = (n + (size + 1)) % 2 ^ 8 in
    let copied = name ++ slice (12 + n) (size + 1) buf in
    let more = copy_labels-ne_no_fuel (suc fuel) buf next copied in
    rw (copy_labels_low (suc fuel) buf n name size (omega arith) refl)
      (ground (arith, more, copy_labels_high fuel buf next copied))

join_labels-ne_no_fuel :
    (fuel : ℕ) (buf : List ℕ) (pos : ℕ) (name : List ℕ)
    → length buf ≤ fuel + pos
    → 0 < fuel
    → join_labels fuel buf pos name ≢ no_fuel
unfolding join_labels
join_labels-ne_no_fuel zero buf pos name h k = absurd (omega arith)
join_labels-ne_no_fuel (suc fuel) buf pos name h k = ground (
  arith,
  join_labels-ne_no_fuel fuel buf (pos + get_or buf (12 + pos) 0 + 1)
      ((name ++ slice (12 + pos + 1) (get_or buf (12 + pos) 0) buf) ++ 0x2e ∷ []),
)

-- Each walk has the fuel to come to its end or to an access outside the arrays.
walks_end : (buf : List ℕ) → (read_qname buf ≢ no_fuel) × (parsed_domain_name buf ≢ no_fuel)
unfolding read_qname parsed_domain_name
walks_end buf = (
  copy_labels-ne_no_fuel 129 buf 0 [] (omega arith) (omega arith),
  ground (arith, join_labels-ne_no_fuel (length buf) buf 0 []),
)

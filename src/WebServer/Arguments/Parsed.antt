-- ===== src/WebServer/Arguments/Parsed.antt =====
-- `_parseArguments` ends, and finds the arguments that the text has.
use idf_custom_arduino.Base.{
  ℕ, zero, suc, ◌+◌, ◌-◌, ◌≤◌, ◌<◌, ◌≡◌, ◌≢◌, refl, sym, ap, ap₂, ◌∙◌, arith, Bool, true, false,
  Option, none, some, List, [], ◌∷◌, ◌++◌, append-nil, append_assoc, ltb, ◌==◌, length,
  length-append, length-drop, take, drop, take-take_le, get_or, if◌then◌else◌, Bool-cases,
  Option-cases, inl, inr,
}
use idf_custom_arduino.WebServer.Url.{url_decode}
use idf_custom_arduino.WebServer.Arguments.{
  RequestArgument, Strings, count_args, argument, add_argument, store_args, parse_arguments,
}
use idf_custom_arduino.WebServer.Arguments.Fields.{
  plus, find, IsStrings, fields, parsed_field, parsed_fields, fields_last, fields_first, find_at,
  find-take,
}

drop_nil : (n : ℕ) → drop {A = ℕ} n [] ≡ []
drop_nil zero = refl
drop_nil (suc n) = refl

pub drop-drop : (a i : ℕ) (s : List ℕ) → drop a (drop i s) ≡ drop (i + a) s
drop-drop a zero s = let e : a ≡ 0 + a = omega arith in ap (λ n. drop n s) e
drop-drop a (suc i) [] = drop_nil a ∙ sym (drop_nil (suc i + a))
drop-drop a (suc i) (x ∷ xs) =
    let e : suc (i + a) ≡ suc i + a = omega arith in drop-drop a i xs ∙ ap (λ n. drop n (x ∷ xs)) e

drop-take : (a n : ℕ) (s : List ℕ) → drop a (take n s) ≡ take (n - a) (drop a s)
drop-take zero n s = let e : n ≡ n - 0 = omega arith in ap (λ m. take m s) e
drop-take (suc a) zero s =
    let e : 0 ≡ 0 - suc a = omega arith in ap (λ m. take m (drop (suc a) s)) e
drop-take (suc a) (suc n) [] = nothing (suc n - suc a)
  where
    nothing : (m : ℕ) → [] ≡ take {A = ℕ} m []
    nothing zero = refl
    nothing (suc m) = refl
drop-take (suc a) (suc n) (x ∷ xs) =
    let e : n - a ≡ suc n - suc a = omega arith in drop-take a n xs ∙ ap (λ m. take m (drop a xs)) e

found_char : (c : ℕ) (s : List ℕ) (i : ℕ) → find c s ≡ some i → get_or s i 0 ≡ c
found_char c [] i h = absurd (ground arith)
found_char c (x ∷ xs) i h = elim (Option-cases (find c xs)) [
  | inl e ↦ ground (arith, h, e)
  | inr (j, e) ↦ ground (arith, h, e, found_char c xs j e)
]

fields_some : (s : List ℕ) → 0 < length (fields s)
fields_some s = elim (Option-cases (find 38 s)) [
  | inl e ↦ omega (arith, ap length (fields_last s e))
  | inr (j, e) ↦ omega (arith, ap length (fields_first s j e))
]

field_length : (f : List ℕ) → length (parsed_field f) ≤ 1
field_length f = elim (Option-cases (find 61 f)) [
  | inl e ↦ ground (arith, e)
  | inr (j, e) ↦ ground (arith, e)
]

-- The part before the next ampersand.
abbrev front : Option ℕ → List ℕ → List ℕ
front none r = r
front (some j) r = take j r

less : (a b : ℕ) → a + b - a ≡ b
less a b = omega arith

gap : (a i j : ℕ) → i < j → a + j - (a + i + 1) ≡ j - (i + 1)
gap a i j h = omega arith

differs : (r : List ℕ) (i j : ℕ) → find 61 r ≡ some i → find 38 r ≡ some j → i ≢ j
differs r i j e h q =
    absurd (omega (arith, found_char 61 r i e, found_char 38 r j h, ap (λ n. get_or r n 0) q))

reorder : (a b : ℕ) → a + (b + 1) ≡ a + b + 1
reorder a b = omega arith

field_without : (f : List ℕ) → find 61 f ≡ none → parsed_field f ≡ []
field_without f h = ground (arith, h)

field_with :
    (f : List ℕ) (i : ℕ)
    → find 61 f ≡ some i
    → parsed_field f
      ≡ record { key = url_decode (take i f); value = url_decode (drop (i + 1) f) } ∷ []
field_with f i h =
    ap
      (λ (o : Option ℕ). elim o [
        | none ↦ []
        | some n ↦ record { key = url_decode (take n f); value = url_decode (drop (n + 1) f) } ∷ []
      ])
      h

module _ (str : Strings) (law : IsStrings str) where
  index_at :
      (s : List ℕ) (c i : ℕ) (o : Option ℕ) → find c (drop i s) ≡ o → str.index_of s c i ≡ plus i o
  index_at s c i o e = law.index_of_lem s c i ∙ ap (plus i) e

  counted :
      (k : ℕ) (s : List ℕ) (i n : ℕ)
      → i ≤ length s
      → length s < k + i
      → (m : ℕ) × (count_args str k s i n ≡ some m) × (m + 1 ≡ n + length (fields (drop i s)))
  unfolding count_args
  counted zero s i n h l = absurd (omega arith)
  counted (suc k) s i n h l = elim (Option-cases (find 38 (drop i s))) [
    | inl e ↦ (
      n,
      ground (arith, index_at s 38 i none e),
      omega (arith, ap length (fields_last (drop i s) e)),
    )
    | inr (j, e) ↦
        let b = find_at 38 (drop i s) j e in
        let r = counted k s (i + j + 1) (n + 1) (omega (arith, b, length-drop i s)) (omega arith) in
        let d : drop (j + 1) (drop i s) ≡ drop (i + j + 1) s =
          drop-drop (j + 1) i s ∙ ap (λ m. drop m s) (reorder i j) in
        (
          r.0,
          ground (arith, index_at s 38 i (some j) e, b, length-drop i s, r.1),
          omega
              (arith, r.2, ap (λ x. length (fields x)) d, ap length (fields_first (drop i s) j e)),
        )
  ]

  last_argument :
      (s : List ℕ) (at : ℕ) (args : List RequestArgument)
      → add_argument str s at (plus at (find 61 (drop at s))) none args
        ≡ args ++ parsed_field (drop at s)
  last_argument s at args = elim (Option-cases (find 61 (drop at s))) [
    | inl e ↦
        ap (λ o. add_argument str s at (plus at o) none args) e
        ∙ sym (append-nil args)
        ∙ ap (λ x. args ++ x) (sym (field_without (drop at s) e))
    | inr (i, e) ↦
        ap (λ o. add_argument str s at (plus at o) none args) e
        ∙ ap₂ (λ k v. args ++ record { key = url_decode k; value = url_decode v } ∷ [])
            (law.substring_lem s at (at + i) (omega arith)
              ∙ ap (λ n. take n (drop at s)) (less at i))
            (law.substring_rest s (at + i + 1)
              ∙ ap (λ n. drop n s) (sym (reorder at i))
              ∙ sym (drop-drop (i + 1) at s))
        ∙ ap (λ x. args ++ x) (sym (field_with (drop at s) i e))
  ]

  next_argument :
      (s : List ℕ) (at j : ℕ) (args : List RequestArgument)
      → find 38 (drop at s) ≡ some j
      → add_argument str s at (plus at (find 61 (drop at s))) (some (at + j)) args
        ≡ args ++ parsed_field (take j (drop at s))
  next_argument s at j args h = elim (Option-cases (find 61 (drop at s))) [
    | inl e ↦
        let n : find 61 (take j (drop at s)) ≡ none = find-take 61 (drop at s) j ∙ cut e in
        ap (λ o. add_argument str s at (plus at o) (some (at + j)) args) e
        ∙ sym (append-nil args)
        ∙ ap (λ x. args ++ x) (sym (field_without (take j (drop at s)) n))
    | inr (i, e) ↦ elim (Bool-cases (ltb i j)) [
      | inr q ↦
          let n : find 61 (take j (drop at s)) ≡ none =
            find-take 61 (drop at s) j ∙ cut e ∙ ap (λ (b : Bool). if b then some i else none) q in
          let apart : i ≢ j = differs (drop at s) i j e h in
          let lt : ltb (at + j) (at + i) ≡ true = ground (arith, q, apart) in
          ap (λ o. add_argument str s at (plus at o) (some (at + j)) args) e
          ∙ ap
              (λ (b : Bool).
                if b then args else args ++ argument str s at (at + i) (some (at + j)) ∷ [])
              lt
          ∙ sym (append-nil args)
          ∙ ap (λ x. args ++ x) (sym (field_without (take j (drop at s)) n))
      | inl q ↦
          let n : find 61 (take j (drop at s)) ≡ some i =
            find-take 61 (drop at s) j ∙ cut e ∙ ap (λ (b : Bool). if b then some i else none) q in
          let lt : ltb (at + j) (at + i) ≡ false = ground (arith, q) in
          let le : i < j = ground (arith, q) in
          let value : str.substring s (at + i + 1) (some (at + j))
              ≡ drop (i + 1) (take j (drop at s)) =
            law.substring_lem s (at + i + 1) (at + j) (omega arith)
            ∙ ap₂ (λ n xs. take n xs) (gap at i j le)
                (ap (λ n. drop n s) (sym (reorder at i)) ∙ sym (drop-drop (i + 1) at s))
            ∙ sym (drop-take (i + 1) j (drop at s)) in
          let key : str.substring s at (some (at + i)) ≡ take i (take j (drop at s)) =
            law.substring_lem s at (at + i) (omega arith)
            ∙ ap (λ n. take n (drop at s)) (less at i)
            ∙ sym (take-take_le i j (drop at s) (omega arith)) in
          ap (λ o. add_argument str s at (plus at o) (some (at + j)) args) e
          ∙ ap
              (λ (b : Bool).
                if b then args else args ++ argument str s at (at + i) (some (at + j)) ∷ [])
              lt
          ∙ ap₂ (λ k v. args ++ record { key = url_decode k; value = url_decode v } ∷ []) key value
          ∙ ap (λ x. args ++ x) (sym (field_with (take j (drop at s)) i n))
    ]
  ]
    where
      cut :
          {o : Option ℕ}
          → find 61 (drop at s) ≡ o
          → elim (find 61 (drop at s)) [ none ↦ none | some i ↦ if ltb i j then some i else none ]
            ≡ elim o [ none ↦ none | some i ↦ if ltb i j then some i else none ]
      cut e =
          ap (λ (o : Option ℕ). elim o [ none ↦ none | some i ↦ if ltb i j then some i else none ])
            e

  stored :
      (k : ℕ) (s : List ℕ) (count at : ℕ) (args : List RequestArgument)
      → at ≤ length s
      → length s < k + at
      → length args + length (fields (drop at s)) ≤ count
      → store_args str k s count at args ≡ some (args ++ parsed_fields (fields (drop at s)))
  unfolding store_args
  stored zero s count at args h l c = absurd (omega arith)
  stored (suc k) s count at args h l c = elim (Option-cases (find 38 (drop at s))) [
    | inl e ↦
        let a = index_at s 38 at none e in
        let m =
          ap₂ (λ x y. add_argument str s at x y args) (law.index_of_lem s 61 at) a
          ∙ last_argument s at args in
        let fin : args ++ parsed_field (drop at s) ≡ args ++ parsed_fields (fields (drop at s)) =
          ap (λ x. args ++ x)
            (sym (append-nil (parsed_field (drop at s)))
              ∙ ap parsed_fields (sym (fields_last (drop at s) e))) in
        ground (arith, enough, a, m, fin)
    | inr (j, e) ↦
        let r = drop at s in
        let a = index_at s 38 at (some j) e in
        let more = add_argument str s at (str.index_of s 61 at) (str.index_of s 38 at) args in
        let m : more ≡ args ++ parsed_field (take j r) =
          ap₂ (λ x y. add_argument str s at x y args) (law.index_of_lem s 61 at) a
          ∙ next_argument s at j args e in
        let b = find_at 38 r j e in
        let d : drop (j + 1) r ≡ drop (at + j + 1) s =
          drop-drop (j + 1) at s ∙ ap (λ n. drop n s) (reorder at j) in
        let f : fields r ≡ take j r ∷ fields (drop (at + j + 1) s) =
          fields_first r j e ∙ ap (λ x. take j r ∷ fields x) d in
        let size : length more ≤ length args + 1 = omega (
          arith,
          ap length m,
          length-append args (parsed_field (take j r)),
          field_length (take j r),
        ) in
        let ih =
          stored k s count (at + j + 1) more (omega (arith, b, length-drop at s)) (omega arith)
            (omega (arith, size, c, ap length f)) in
        let fin : more ++ parsed_fields (fields (drop (at + j + 1) s))
            ≡ args ++ parsed_fields (fields r) =
          ap (λ x. x ++ parsed_fields (fields (drop (at + j + 1) s))) m
          ∙ append_assoc args (parsed_field (take j r))
              (parsed_fields (fields (drop (at + j + 1) s)))
          ∙ ap (λ x. args ++ parsed_fields x) (sym f) in
        ground (arith, enough, a, ih, fin)
  ]
    where
      enough : ltb (length args) count ≡ true
      enough = ground (arith, c, fields_some (drop at s))

  -- On functions of String that behave as documented, _parseArguments ends and stores, in order,
  -- the decoded name and value of just those fields between ampersands that have an equals sign.
  pub parse_arguments-fields :
      (s : List ℕ) → parse_arguments str s ≡ some (parsed_fields (fields s))
  unfolding parse_arguments
  parse_arguments-fields [] = refl
  parse_arguments-fields (x ∷ xs) =
      let s = x ∷ xs in
      let n = counted (length s + 1) s 0 1 (omega arith) (omega arith) in
      let z : (length s == 0) ≡ false = ground arith in
      let st = stored (length s + 1) s n.0 0 [] (omega arith) (omega arith) (omega (arith, n.2)) in
      ground (arith, z, n.1, st)

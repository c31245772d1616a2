-- ===== src/WebServer/Arguments/Fields.antt =====
-- The arguments of a text are its fields between ampersands that have an equals sign.
use idf_custom_arduino.Base.{
  ℕ, zero, suc, ◌+◌, ◌-◌, ◌≤◌, ◌<◌, ◌≡◌, refl, arith, Option, none, some, List, [], ◌∷◌, ◌++◌, ltb,
  ◌==◌, length, take, drop, if◌then◌else◌, Option-cases, inl, inr,
}
use idf_custom_arduino.WebServer.Url.{url_decode}
use idf_custom_arduino.WebServer.Arguments.{RequestArgument, Strings}

-- Where a character stands first.
abbrev pub plus : ℕ → Option ℕ → Option ℕ
plus n none = none
plus n (some i) = some (n + i)

abbrev pub find : ℕ → List ℕ → Option ℕ
find c [] = none
find c (x ∷ xs) = if x == c then some 0 else plus 1 (find c xs)

-- What the functions of String do, within the string.
pub record IsStrings (str : Strings) : Type 0 where
  pub index_of_lem : (s : List ℕ) (c i : ℕ) → str.index_of s c i ≡ plus i (find c (drop i s))
  pub substring_lem :
      (s : List ℕ) (i j : ℕ) → i ≤ j → str.substring s i (some j) ≡ take (j - i) (drop i s)
  pub substring_rest : (s : List ℕ) (i : ℕ) → str.substring s i none ≡ drop i s

abbrev pub cons_head : ℕ → List (List ℕ) → List (List ℕ)
cons_head x [] = (x ∷ []) ∷ []
cons_head x (f ∷ fs) = (x ∷ f) ∷ fs

-- The fields between the ampersands.
abbrev pub fields : List ℕ → List (List ℕ)
fields [] = [] ∷ []
fields (x ∷ xs) = if x == 38 then [] ∷ fields xs else cons_head x (fields xs)

-- A field with an equals sign is a name and a value.
abbrev pub parsed_field : List ℕ → List RequestArgument
parsed_field f = elim (find 61 f) [
  | none ↦ []
  | some i ↦ record { key = url_decode (take i f); value = url_decode (drop (i + 1) f) } ∷ []
]

abbrev pub parsed_fields : List (List ℕ) → List RequestArgument
parsed_fields [] = []
parsed_fields (f ∷ fs) = parsed_field f ++ parsed_fields fs

pub fields_last : (s : List ℕ) → find 38 s ≡ none → fields s ≡ s ∷ []
fields_last [] h = refl
fields_last (x ∷ xs) h = elim (Option-cases (find 38 xs)) [
  | inl e ↦ ground (arith, h, e, fields_last xs e)
  | inr (j, e) ↦ absurd (ground (arith, h, e))
]

pub fields_first :
    (s : List ℕ) (i : ℕ) → find 38 s ≡ some i → fields s ≡ take i s ∷ fields (drop (i + 1) s)
fields_first [] i h = absurd (ground arith)
fields_first (x ∷ xs) i h = elim (Option-cases (find 38 xs)) [
  | inl e ↦ ground (arith, h, e)
  | inr (j, e) ↦ ground (arith, h, e, fields_first xs j e)
]

pub find_at : (c : ℕ) (s : List ℕ) (i : ℕ) → find c s ≡ some i → i < length s
find_at c [] i h = absurd (ground arith)
find_at c (x ∷ xs) i h = elim (Option-cases (find c xs)) [
  | inl e ↦ ground (arith, h, e)
  | inr (j, e) ↦ ground (arith, h, e, find_at c xs j e)
]

-- In the front part of a string.
pub find-take :
    (c : ℕ) (s : List ℕ) (n : ℕ)
    → find c (take n s)
      ≡ elim (find c s) [ none ↦ none | some i ↦ if ltb i n then some i else none ]
find-take c s zero = elim (Option-cases (find c s)) [
  | inl e ↦ ground (arith, e)
  | inr (j, e) ↦ ground (arith, e)
]
find-take c [] (suc n) = refl
find-take c (x ∷ xs) (suc n) = elim (Option-cases (find c xs)) [
  | inl e ↦ ground (arith, e, find-take c xs n)
  | inr (j, e) ↦ ground (arith, e, find-take c xs n)
]

-- ===== src/Base/Lists.antt =====
-- Lists measured and indexed by native numbers: the arrays and buffers of the program.
use Prim.Native.Nat.{ℕ, zero, suc, ◌+◌, ◌-◌, ◌≤◌, ◌<◌, min}
use mathlib.Core.Path.{◌≡◌, refl, ap, ◌∙◌}
use mathlib.Core.List.{List, [], ◌∷◌, ◌++◌}
use mathlib.Core.Option.{Option, none, some}
use native.Mathlib.Omega.{arith}

module _ {ℓ} {A : Type ℓ} where
  abbrev pub length : List A → ℕ
  length [] = 0
  length (x ∷ xs) = suc (length xs)

  abbrev pub get_elem? : List A → ℕ → Option A
  get_elem? [] i = none
  get_elem? (x ∷ xs) zero = some x
  get_elem? (x ∷ xs) (suc i) = get_elem? xs i

  abbrev pub get_or : List A → ℕ → A → A
  get_or [] i d = d
  get_or (x ∷ xs) zero d = x
  get_or (x ∷ xs) (suc i) d = get_or xs i d

  -- A write out of bounds changes nothing.
  abbrev pub set : List A → ℕ → A → List A
  set [] i v = []
  set (x ∷ xs) zero v = v ∷ xs
  set (x ∷ xs) (suc i) v = x ∷ set xs i v

  abbrev pub take : ℕ → List A → List A
  take zero xs = []
  take (suc n) [] = []
  take (suc n) (x ∷ xs) = x ∷ take n xs

  abbrev pub drop : ℕ → List A → List A
  drop zero xs = xs
  drop (suc n) [] = []
  drop (suc n) (x ∷ xs) = drop n xs

  abbrev pub replicate : ℕ → A → List A
  replicate zero a = []
  replicate (suc n) a = a ∷ replicate n a

  -- `memcpy(buf + off, src, length src)`; what would go past the end of `buf` is dropped.
  abbrev pub copy_into : List A → ℕ → List A → List A
  copy_into [] off src = []
  copy_into (x ∷ xs) (suc off) src = x ∷ copy_into xs off src
  copy_into (x ∷ xs) zero [] = x ∷ xs
  copy_into (x ∷ xs) zero (y ∷ ys) = y ∷ copy_into xs zero ys

  -- `len` entries from index `off` on.
  abbrev pub slice : ℕ → ℕ → List A → List A
  slice off len xs = take len (drop off xs)

  pub length-append : (xs ys : List A) → length (xs ++ ys) ≡ length xs + length ys
  length-append [] ys = omega arith
  length-append (x ∷ xs) ys = omega (arith, length-append xs ys)

  pub length-take : (n : ℕ) (xs : List A) → length (take n xs) ≡ min n (length xs)
  length-take zero xs = omega arith
  length-take (suc n) [] = omega arith
  length-take (suc n) (x ∷ xs) = omega (arith, length-take n xs)

  pub length-drop : (n : ℕ) (xs : List A) → length (drop n xs) ≡ length xs - n
  length-drop zero xs = omega arith
  length-drop (suc n) [] = omega arith
  length-drop (suc n) (x ∷ xs) = omega (arith, length-drop n xs)

  pub length-replicate : (n : ℕ) (a : A) → length (replicate n a) ≡ n
  length-replicate zero a = refl
  length-replicate (suc n) a = ap suc (length-replicate n a)

  pub length-set : (xs : List A) (i : ℕ) (v : A) → length (set xs i v) ≡ length xs
  length-set [] i v = refl
  length-set (x ∷ xs) zero v = refl
  length-set (x ∷ xs) (suc i) v = ap suc (length-set xs i v)

  pub length-copy_into :
      (xs : List A) (off : ℕ) (ys : List A) → length (copy_into xs off ys) ≡ length xs
  length-copy_into [] off ys = refl
  length-copy_into (x ∷ xs) (suc off) ys = ap suc (length-copy_into xs off ys)
  length-copy_into (x ∷ xs) zero [] = refl
  length-copy_into (x ∷ xs) zero (y ∷ ys) = ap suc (length-copy_into xs zero ys)

  pub take-append-drop : (n : ℕ) (xs : List A) → take n xs ++ drop n xs ≡ xs
  take-append-drop zero xs = refl
  take-append-drop (suc n) [] = refl
  take-append-drop (suc n) (x ∷ xs) = rw (take-append-drop n xs)

  pub take-append-slice :
      (n m k : ℕ) (xs : List A) → k ≡ n + m → take n xs ++ slice n m xs ≡ take k xs
  take-append-slice zero m k xs e = ap (λ j. take j xs) (omega arith)
  take-append-slice (suc n) m zero xs e = absurd (omega arith)
  take-append-slice (suc n) zero (suc k) [] e = refl
  take-append-slice (suc n) (suc m) (suc k) [] e = refl
  take-append-slice (suc n) m (suc k) (x ∷ xs) e =
      ap (◌∷◌ x) (take-append-slice n m k xs (omega arith))

  pub take_all : (n : ℕ) (xs : List A) → length xs ≤ n → take n xs ≡ xs
  take_all zero [] h = refl
  take_all zero (x ∷ xs) h = absurd (omega arith)
  take_all (suc n) [] h = refl
  take_all (suc n) (x ∷ xs) h = ap (◌∷◌ x) (take_all n xs (omega arith))

  pub drop_all : (n : ℕ) (xs : List A) → length xs ≤ n → drop n xs ≡ []
  drop_all zero [] h = refl
  drop_all zero (x ∷ xs) h = absurd (omega arith)
  drop_all (suc n) [] h = refl
  drop_all (suc n) (x ∷ xs) h = drop_all n xs (omega arith)

  pub take-take_le : (m n : ℕ) (xs : List A) → m ≤ n → take m (take n xs) ≡ take m xs
  take-take_le zero n xs h = refl
  take-take_le (suc m) zero xs h = absurd (omega arith)
  take-take_le (suc m) (suc n) [] h = refl
  take-take_le (suc m) (suc n) (x ∷ xs) h = ap (◌∷◌ x) (take-take_le m n xs (omega arith))

  pub take-append_length : (xs ys : List A) → take (length xs) (xs ++ ys) ≡ xs
  take-append_length [] ys = refl
  take-append_length (x ∷ xs) ys = ap (◌∷◌ x) (take-append_length xs ys)

  pub take-append_le : (n : ℕ) (xs ys : List A) → n ≤ length xs → take n (xs ++ ys) ≡ take n xs
  take-append_le zero xs ys h = refl
  take-append_le (suc n) [] ys h = absurd (omega arith)
  take-append_le (suc n) (x ∷ xs) ys h = ap (◌∷◌ x) (take-append_le n xs ys (omega arith))

  pub drop-append_le :
      (n : ℕ) (xs ys : List A) → n ≤ length xs → drop n (xs ++ ys) ≡ drop n xs ++ ys
  drop-append_le zero xs ys h = refl
  drop-append_le (suc n) [] ys h = absurd (omega arith)
  drop-append_le (suc n) (x ∷ xs) ys h = drop-append_le n xs ys (omega arith)

  pub drop-append_length : (xs ys : List A) → drop (length xs) (xs ++ ys) ≡ ys
  drop-append_length [] ys = refl
  drop-append_length (x ∷ xs) ys = drop-append_length xs ys

  pub get_or-append_lt :
      (xs ys : List A) (i : ℕ) (d : A) → i < length xs → get_or (xs ++ ys) i d ≡ get_or xs i d
  get_or-append_lt [] ys i d h = absurd (omega arith)
  get_or-append_lt (x ∷ xs) ys zero d h = refl
  get_or-append_lt (x ∷ xs) ys (suc i) d h = get_or-append_lt xs ys i d (omega arith)

  pub get_or-drop :
      (n : ℕ) (xs : List A) (i : ℕ) (d : A) → get_or (drop n xs) i d ≡ get_or xs (n + i) d
  get_or-drop zero xs i d = ap (λ k. get_or xs k d) (omega arith)
  get_or-drop (suc n) [] i d = refl
  get_or-drop (suc n) (x ∷ xs) i d =
      get_or-drop n xs i d ∙ ap (λ k. get_or (x ∷ xs) k d) {x = suc (n + i)} (omega arith)

  pub get_or-take :
      (n : ℕ) (xs : List A) (i : ℕ) (d : A) → i < n → get_or (take n xs) i d ≡ get_or xs i d
  get_or-take zero xs i d h = absurd (omega arith)
  get_or-take (suc n) [] i d h = refl
  get_or-take (suc n) (x ∷ xs) zero d h = refl
  get_or-take (suc n) (x ∷ xs) (suc i) d h = get_or-take n xs i d (omega arith)

  -- Filling a buffer behind what it already holds.
  pub take-copy_into :
      (n : ℕ) (buf : List A) (off : ℕ) (src : List A)
      → n ≡ off + length src
      → n ≤ length buf
      → take n (copy_into buf off src) ≡ take off buf ++ src
  take-copy_into zero buf zero [] e h = refl
  take-copy_into zero buf zero (y ∷ ys) e h = absurd (omega arith)
  take-copy_into zero buf (suc off) src e h = absurd (omega arith)
  take-copy_into (suc n) [] off src e h = absurd (omega arith)
  take-copy_into (suc n) (x ∷ xs) zero [] e h = absurd (omega arith)
  take-copy_into (suc n) (x ∷ xs) zero (y ∷ ys) e h =
      ap (◌∷◌ y) (take-copy_into n xs zero ys (omega arith) (omega arith))
  take-copy_into (suc n) (x ∷ xs) (suc off) src e h =
      ap (◌∷◌ x) (take-copy_into n xs off src (omega arith) (omega arith))

  -- A block that is overwritten from its start by as many entries as it has.
  pub copy_into_all : (buf src : List A) → length src ≡ length buf → copy_into buf 0 src ≡ src
  copy_into_all [] [] h = refl
  copy_into_all [] (y ∷ ys) h = absurd (omega arith)
  copy_into_all (x ∷ xs) [] h = absurd (omega arith)
  copy_into_all (x ∷ xs) (y ∷ ys) h = ap (◌∷◌ y) (copy_into_all xs ys (omega arith))

-- ===== src/Base/Blocks.antt =====
-- Reading back what `memcpy` has put into a block.
use Prim.Native.Nat.{ℕ, zero, suc, ◌+◌, ◌≤◌}
use mathlib.Core.Path.{◌≡◌, refl, sym, ap, ◌∙◌}
use mathlib.Core.Logic.{◌⊎◌, inl, inr}
use mathlib.Core.List.{List, [], ◌∷◌, ◌++◌}
use native.Mathlib.Omega.{arith}
use idf_custom_arduino.Base.Lists.{
  length, take, drop, slice, copy_into, take-copy_into, length-drop,
}

module _ {ℓ} {A : Type ℓ} where
  pub drop-copy_into :
      (buf : List A) (off : ℕ) (src : List A)
      → drop off (copy_into buf off src) ≡ copy_into (drop off buf) 0 src
  drop-copy_into buf zero src = refl
  drop-copy_into [] (suc off) src = refl
  drop-copy_into (x ∷ xs) (suc off) src = drop-copy_into xs off src

  -- What was copied is read back.
  pub slice-copy_into :
      (buf : List A) (off : ℕ) (src : List A)
      → off + length src ≤ length buf
      → slice off (length src) (copy_into buf off src) ≡ src
  slice-copy_into buf off src h =
      ap (take (length src)) (drop-copy_into buf off src)
      ∙ take-copy_into (length src) (drop off buf) 0 src (omega arith)
          (omega (arith, length-drop off buf))

  pub copy_into_start :
      (buf src : List A)
      → length src ≤ length buf
      → copy_into buf 0 src ≡ src ++ drop (length src) buf
  copy_into_start [] [] h = refl
  copy_into_start [] (y ∷ ys) h = absurd (omega arith)
  copy_into_start (x ∷ xs) [] h = refl
  copy_into_start (x ∷ xs) (y ∷ ys) h = ap (◌∷◌ y) (copy_into_start xs ys (omega arith))

  take-copy_into_before :
      (n : ℕ) (buf : List A) (off : ℕ) (src : List A)
      → n ≤ off
      → take n (copy_into buf off src) ≡ take n buf
  take-copy_into_before zero buf off src h = refl
  take-copy_into_before (suc n) [] off src h = refl
  take-copy_into_before (suc n) (x ∷ xs) zero src h = absurd (omega arith)
  take-copy_into_before (suc n) (x ∷ xs) (suc off) src h =
      ap (◌∷◌ x) (take-copy_into_before n xs off src (omega arith))

  drop-copy_into_after :
      (n : ℕ) (buf : List A) (off : ℕ) (src : List A)
      → off + length src ≤ n
      → drop n (copy_into buf off src) ≡ drop n buf
  drop-copy_into_after n [] off src h = refl
  drop-copy_into_after zero (x ∷ xs) zero [] h = refl
  drop-copy_into_after zero (x ∷ xs) zero (y ∷ ys) h = absurd (omega arith)
  drop-copy_into_after zero (x ∷ xs) (suc off) src h = absurd (omega arith)
  drop-copy_into_after (suc n) (x ∷ xs) zero [] h = refl
  drop-copy_into_after (suc n) (x ∷ xs) zero (y ∷ ys) h =
      drop-copy_into_after n xs zero ys (omega arith)
  drop-copy_into_after (suc n) (x ∷ xs) (suc off) src h =
      drop-copy_into_after n xs off src (omega arith)

  drop-take : (n m k : ℕ) (xs : List A) → k ≡ n + m → drop n (take k xs) ≡ take m (drop n xs)
  drop-take zero m k xs e = ap (λ j. take j xs) (omega arith)
  drop-take (suc n) m zero xs e = absurd (omega arith)
  drop-take (suc n) zero (suc k) [] e = refl
  drop-take (suc n) (suc m) (suc k) [] e = refl
  drop-take (suc n) m (suc k) (x ∷ xs) e = drop-take n m k xs (omega arith)

  -- A read that does not meet the copied bytes sees the old ones.
  pub slice-copy_into_apart :
      (buf : List A) (off : ℕ) (src : List A) (n m : ℕ)
      → (n + m ≤ off) ⊎ (off + length src ≤ n)
      → slice n m (copy_into buf off src) ≡ slice n m buf
  slice-copy_into_apart buf off src n m (inl h) =
      sym (drop-take n m (n + m) (copy_into buf off src) refl)
      ∙ ap (drop n) (take-copy_into_before (n + m) buf off src h)
      ∙ drop-take n m (n + m) buf refl
  slice-copy_into_apart buf off src n m (inr h) = ap (take m) (drop-copy_into_after n buf off src h)

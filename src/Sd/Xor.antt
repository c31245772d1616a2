-- ===== src/Sd/Xor.antt =====
-- The exclusive or of bytes: its lowest digit, its range, and the value that it has with itself.
use Prim.Native.Nat.{bit_xor, bit_xor-bitwise, differ, digits}
use idf_custom_arduino.Base.{ℕ, zero, suc, ◌*◌, ◌/◌, ◌%◌, ◌^◌, ◌≤◌, ◌<◌, ◌≡◌, refl, arith}

abbrev xor_digits : ℕ → ℕ → ℕ → ℕ
xor_digits n a b = digits (λ b. b) differ n a b

same_digits : (n m a b : ℕ) → a ≤ n → a ≤ m → xor_digits n a b ≡ xor_digits m a b
same_digits zero zero a b p q = refl
same_digits zero (suc m) zero b p q = refl
same_digits zero (suc m) (suc a) b p q = absurd (omega arith)
same_digits (suc n) zero zero b p q = refl
same_digits (suc n) zero (suc a) b p q = absurd (omega arith)
same_digits (suc n) (suc m) zero b p q = refl
same_digits (suc n) (suc m) (suc a) b p q =
    omega (arith, same_digits n m (suc a / 2) (b / 2) (omega arith) (omega arith))

pub zero-bit_xor : (b : ℕ) → bit_xor 0 b ≡ b
zero-bit_xor b = bit_xor-bitwise 0 b

differ_lt : (a b : ℕ) → a < 2 → b < 2 → differ a b < 2
differ_lt zero b p q = q
differ_lt (suc zero) zero p q = omega arith
differ_lt (suc zero) (suc b) p q = omega arith
differ_lt (suc (suc a)) b p q = absurd (omega arith)

xor_digits-lt : (n a b k : ℕ) → a ≤ n → a < 2 ^ k → b < 2 ^ k → xor_digits n a b < 2 ^ k
xor_digits-lt zero a b k h p q = q
xor_digits-lt (suc n) zero b k h p q = q
xor_digits-lt (suc n) (suc a) b zero h p q = absurd (omega arith)
xor_digits-lt (suc n) (suc a) b (suc k) h p q =
    let e : 2 ^ suc k ≡ 2 * 2 ^ k = omega arith in
    omega (
      arith,
      e,
      xor_digits-lt n (suc a / 2) (b / 2) k (omega arith) (omega (arith, e)) (omega (arith, e)),
      differ_lt (suc a % 2) (b % 2) (omega arith) (omega arith),
    )

pub bit_xor-lt : (k a b : ℕ) → a < 2 ^ k → b < 2 ^ k → bit_xor a b < 2 ^ k
bit_xor-lt k a b p q = omega (arith, bit_xor-bitwise a b, xor_digits-lt a a b k (omega arith) p q)

differ_self : (a : ℕ) → differ a a ≡ 0
differ_self zero = refl
differ_self (suc a) = differ_self a

xor_digits_self : (n a : ℕ) → a ≤ n → xor_digits n a a ≡ 0
xor_digits_self zero zero h = refl
xor_digits_self zero (suc a) h = absurd (omega arith)
xor_digits_self (suc n) zero h = refl
xor_digits_self (suc n) (suc a) h =
    omega (arith, xor_digits_self n (suc a / 2) (omega arith), differ_self (suc a % 2))

pub bit_xor_self : (a : ℕ) → bit_xor a a ≡ 0
bit_xor_self a = omega (arith, bit_xor-bitwise a a, xor_digits_self a a (omega arith))

differ-zero : (a : ℕ) → differ a 0 ≡ a
differ-zero zero = refl
differ-zero (suc a) = refl

xor_digits-zero : (n a : ℕ) → a ≤ n → xor_digits n a 0 ≡ a
xor_digits-zero zero zero h = refl
xor_digits-zero zero (suc a) h = absurd (omega arith)
xor_digits-zero (suc n) zero h = refl
xor_digits-zero (suc n) (suc a) h =
    omega (arith, xor_digits-zero n (suc a / 2) (omega arith), differ-zero (suc a % 2))

pub bit_xor-zero : (a : ℕ) → bit_xor a 0 ≡ a
bit_xor-zero a = omega (arith, bit_xor-bitwise a 0, xor_digits-zero a a (omega arith))

-- ===== src/Sd/Remainder.antt =====
-- What the checksums are: the remainder of a division of polynomials over two elements, bit by bit.
use Prim.Native.Nat.{bit_xor}
use idf_custom_arduino.Base.{
  ℕ, zero, suc, ◌+◌, ◌*◌, ◌/◌, ◌%◌, ◌≤◌, ◌<◌, ◌≡◌, refl, sym, ap, subst, ◌∙◌, arith, Bool, true,
  ◌&&◌, ◌==◌, leb, if◌then◌else◌, List, [], ◌∷◌, ◌++◌, get_or, length,
}
use idf_custom_arduino.Sd.Tables.{crc7_table, crc16_table}
use idf_custom_arduino.Sd.Crc.{crc7_step, crc7_from, crc7, crc16_step, crc16_from, crc16}
use idf_custom_arduino.Sd.Xor.{bit_xor-lt, bit_xor_self, bit_xor-zero}

-- One bit of the division by x⁷ + x³ + 1, 0x89, on a register of eight bits.
unfoldable pub divide_bit : ℕ → ℕ
divide_bit v = (if leb 128 v then bit_xor v 0x89 else v) * 2 % 256

unfoldable pub divide_bits : ℕ → ℕ → ℕ
unfolding divide_bit
divide_bits zero v = v
divide_bits (suc n) v = divide_bits n (divide_bit v)

-- A byte of a message: it goes into the register, and its eight bits are divided.
abbrev pub divide_byte : ℕ → ℕ → ℕ
divide_byte crc b = divide_bits 8 (bit_xor (crc * 2) b) / 2

abbrev pub remainder : ℕ → List ℕ → ℕ
remainder crc [] = crc
remainder crc (b ∷ bs) = remainder (divide_byte crc b) bs

abbrev pub AreBytes : List ℕ → Type 0
AreBytes [] = Unit
AreBytes (b ∷ bs) = (b < 256) × AreBytes bs

-- The entries of a table, from one with this number on, are the remainders of the bytes, of seven bits.
entries_hold : ℕ → List ℕ → Bool
entries_hold i [] = true
entries_hold i (e ∷ es) = (e == divide_bits 8 i / 2) && ((leb e 127) && entries_hold (i + 1) es)

entry_holds :
    (es : List ℕ) (i k : ℕ)
    → entries_hold i es ≡ true
    → k < length es
    → (get_or es k 0 ≡ divide_bits 8 (i + k) / 2) × (get_or es k 0 ≤ 127)
unfolding entries_hold
entry_holds [] i k h l = absurd (omega arith)
entry_holds (e ∷ es) i zero h l =
    let q : divide_bits 8 i / 2 ≡ divide_bits 8 (i + 0) / 2 =
      ap (λ n. divide_bits 8 n / 2) (plus_zero i) in
    let f : (e ≡ divide_bits 8 i / 2) × (e ≤ 127) = ground (arith, h) in (f.0 ∙ q, f.1)
  where
    plus_zero : (n : ℕ) → n ≡ n + 0
    plus_zero n = omega arith
entry_holds (e ∷ es) i (suc k) h l =
    let f : entries_hold (i + 1) es ≡ true = ground (arith, h) in
    let ih = entry_holds es (i + 1) k f (omega arith) in
    (ih.0 ∙ ap (λ n. divide_bits 8 n / 2) (moved i k), ih.1)
  where
    moved : (a b : ℕ) → a + 1 + b ≡ a + suc b
    moved a b = omega arith

table_holds : entries_hold 0 crc7_table ≡ true
unfolding entries_hold divide_bits crc7_table
table_holds = refl

table_size : length crc7_table ≡ 256
unfolding crc7_table
table_size = refl

table_entry :
    (x : ℕ)
    → x < 256
    → (get_or crc7_table x 0 ≡ divide_bits 8 x / 2) × (get_or crc7_table x 0 ≤ 127)
table_entry x h =
    let r = entry_holds crc7_table 0 x table_holds (subst (λ n. x < n) (sym table_size) h) in
    (r.0 ∙ ap (λ n. divide_bits 8 n / 2) (zero_plus x), r.1)
  where
    zero_plus : (n : ℕ) → 0 + n ≡ n
    zero_plus n = omega arith

step-divide_byte :
    (crc b : ℕ)
    → crc ≤ 127
    → b < 256
    → (crc7_step crc b ≡ divide_byte crc b) × (crc7_step crc b ≤ 127)
step-divide_byte crc b h k =
    table_entry (bit_xor (crc * 2) b) (bit_xor-lt 8 (crc * 2) b (omega arith) (omega arith))

crc7_from-remainder :
    (crc : ℕ) (bs : List ℕ) → crc ≤ 127 → AreBytes bs → crc7_from crc bs ≡ remainder crc bs
unfolding crc7_from
crc7_from-remainder crc [] h k = refl
crc7_from-remainder crc (b ∷ bs) h k =
    let s = step-divide_byte crc b h k.0 in
    crc7_from-remainder (crc7_step crc b) bs s.1 k.1 ∙ ap (λ c. remainder c bs) s.0

-- On every list of bytes, CRC7, which looks its steps up in a table, is the remainder of the
-- bitwise division of the message by the polynomial x^7 + x^3 + 1.
pub crc7-remainder : (bs : List ℕ) → AreBytes bs → crc7 bs ≡ remainder 0 bs
unfolding crc7
crc7-remainder bs h = crc7_from-remainder 0 bs (omega arith) h

crc16_from-append :
    (crc : ℕ) (xs ys : List ℕ) → crc16_from crc (xs ++ ys) ≡ crc16_from (crc16_from crc xs) ys
unfolding crc16_from
crc16_from-append crc [] ys = refl
crc16_from-append crc (x ∷ xs) ys = crc16_from-append (crc16_step crc x) xs ys

crc16_from-lt : (crc : ℕ) (bs : List ℕ) → crc < 65536 → crc16_from crc bs < 65536
unfolding crc16_from
crc16_from-lt crc [] h = h
crc16_from-lt crc (b ∷ bs) h = crc16_from-lt (crc16_step crc b) bs (omega arith)

-- The high byte of the checksum leaves the low one, moved up.
own_byte : (crc b : ℕ) → b ≡ crc / 256 → crc16_step crc b ≡ crc * 256 % 65536
unfolding crc16_table
own_byte crc b e =
    let z : bit_xor (crc / 256) b % 256 ≡ 0 =
      ap (λ c. bit_xor (crc / 256) c % 256) e ∙ ap (λ c. c % 256) (bit_xor_self (crc / 256)) in
    ap (λ i. bit_xor (crc * 256) (get_or crc16_table i 0) % 65536) z
    ∙ ap (λ c. c % 65536) (bit_xor-zero (crc * 256))

pub crc16_residue : (bs : List ℕ) → crc16 (bs ++ (crc16 bs / 256) ∷ (crc16 bs % 256) ∷ []) ≡ 0
unfolding crc16 crc16_from
crc16_residue bs =
    let c = crc16_from 0 bs in
    let l = crc16_from-lt 0 bs (omega arith) in
    crc16_from-append 0 bs ((c / 256) ∷ (c % 256) ∷ [])
    ∙ ap (λ d. crc16_step d (c % 256)) (own_byte c (c / 256) refl)
    ∙ own_byte (c * 256 % 65536) (c % 256) (omega arith)
    ∙ omega (arith, l)

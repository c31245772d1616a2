-- ===== src/WebServer/Decode.antt =====
-- Escaped text is decoded to what was escaped.
use idf_custom_arduino.Base.{
  ℕ, ◌+◌, ◌*◌, ◌/◌, ◌%◌, ◌<◌, ◌≡◌, ◌≢◌, refl, ap₂, ◌∙◌, Option, none, some, List, [], ◌∷◌, ltb,
  arith, if◌then◌else◌,
}
use idf_custom_arduino.WebServer.Url.{hex_digit, hex_byte, url_decode}

-- A byte written as a percent sign and two digits, and a text whose every byte is.
abbrev pub hex_char : ℕ → ℕ
hex_char x = if ltb x 10 then 48 + x else 55 + x

abbrev pub escape : List ℕ → List ℕ
escape [] = []
escape (c ∷ cs) = 0x25 ∷ hex_char (c / 16) ∷ hex_char (c % 16) ∷ escape cs

abbrev pub AreBytes : List ℕ → Type 0
AreBytes [] = Unit
AreBytes (c ∷ cs) = (c < 256) × AreBytes cs

hex_digit-hex_char : (x : ℕ) → x < 16 → hex_digit (hex_char x) ≡ some x
hex_digit-hex_char x h = ground arith

from_digits :
    (a b x y : ℕ) → hex_digit a ≡ some x → hex_digit b ≡ some y → hex_byte a b ≡ x * 16 + y
from_digits a b x y e f =
    ap₂
      (λ (u v : Option ℕ). elim u [ none ↦ 0 | some x ↦ elim v [ none ↦ x | some y ↦ x * 16 + y ] ])
      e f

hex_byte-hex_char : (c : ℕ) → c < 256 → hex_byte (hex_char (c / 16)) (hex_char (c % 16)) ≡ c
hex_byte-hex_char c h =
    from_digits (hex_char (c / 16)) (hex_char (c % 16)) (c / 16) (c % 16)
      (hex_digit-hex_char (c / 16) (omega arith)) (hex_digit-hex_char (c % 16) (omega arith))
    ∙ omega arith

-- A text of bytes that is escaped, each byte as a percent sign and two hexadecimal digits, is
-- decoded to itself.
pub url_decode-escape : (text : List ℕ) → AreBytes text → url_decode (escape text) ≡ text
unfolding url_decode
url_decode-escape [] b = refl
url_decode-escape (c ∷ cs) b = ap₂ ◌∷◌ (hex_byte-hex_char c b.0) (url_decode-escape cs b.1)

-- Neither a percent sign nor a plus sign.
abbrev pub IsPlain : List ℕ → Type 0
IsPlain [] = Unit
IsPlain (c ∷ cs) = (c ≢ 0x25) × (c ≢ 0x2b) × IsPlain cs

-- Text without escape sequences is left as it is.
pub url_decode_plain : (text : List ℕ) → IsPlain text → url_decode text ≡ text
unfolding url_decode
url_decode_plain [] p = refl
url_decode_plain (c ∷ []) p = ground (arith, p)
url_decode_plain (c ∷ a ∷ []) p = ground (arith, p)
url_decode_plain (c ∷ a ∷ b ∷ text) p =
    let rest = url_decode_plain (a ∷ b ∷ text) p.2 in ground (arith, p.0, p.1, rest)

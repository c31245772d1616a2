-- ===== src/WebServer/Url.antt =====
-- libraries/WebServer/src/Parsing.cpp: `urlDecode`. A string is the list of its characters.
use idf_custom_arduino.Base.{
  ℕ, ◌+◌, ◌-◌, ◌*◌, ◌&&◌, Option, none, some, List, [], ◌∷◌, leb, ◌==◌, if◌then◌else◌,
}

-- The value of a hexadecimal digit.
abbrev pub hex_digit : ℕ → Option ℕ
hex_digit c =
    if leb 48 c && leb c 57
    then some (c - 48)
    else if leb 65 c && leb c 70
    then some (c - 55)
    else if leb 97 c && leb c 102
    then some (c - 87)
    else none

-- `strtol("0x..", NULL, 16)`: it stops at the first character that is no digit.
abbrev pub hex_byte : ℕ → ℕ → ℕ
hex_byte a b = elim (hex_digit a) [
  | none ↦ 0
  | some x ↦ elim (hex_digit b) [ none ↦ x | some y ↦ x * 16 + y ]
]

-- A character that does not start an escape sequence.
abbrev pub plain_char : ℕ → ℕ
plain_char c = if c == 0x2b then 0x20 else c

unfoldable pub url_decode : List ℕ → List ℕ
url_decode [] = []
url_decode (c ∷ []) = plain_char c ∷ []
url_decode (c ∷ a ∷ []) = plain_char c ∷ url_decode (a ∷ [])
url_decode (c ∷ a ∷ b ∷ text) =
    let escaped = hex_byte a b ∷ url_decode text in
    let plain = plain_char c ∷ url_decode (a ∷ b ∷ text) in if c == 0x25 then escaped else plain

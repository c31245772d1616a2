-- ===== src/Eeprom/Text.antt =====
-- libraries/EEPROM/src/EEPROM.cpp: `writeString`, `readString` and `read_string`. A C string is its
-- characters, none of them zero; the terminator is left out.
use idf_custom_arduino.Base.{
  ℕ, zero, suc, ◌+◌, ◌%◌, ◌^◌, Bool, true, false, Option, none, some, List, [], ◌∷◌, ◌++◌, ltb, leb,
  ◌==◌, if◌then◌else◌, get_elem?, length, take, slice, drop, copy_into,
}
use idf_custom_arduino.Base.Int.{ℤ, pos, negsuc}
use idf_custom_arduino.Eeprom.State.{Eeprom}
use idf_custom_arduino.Eeprom.Values.{block}

-- What a function comes to: a result, an access outside the bytes that it may use, or no end.
pub data Outcome (A : Type 0) : Type 0 where
  returns : A → Outcome A
  outside : Outcome A
  endless : Outcome A

-- `for (len = 0; len <= limit; len++) if (p[len] == 0) break;` from a value of `len`, a `uint16_t`, over
-- the bytes behind `p`; the first number is fuel.
unfoldable pub scan : ℕ → ℕ → List ℕ → ℕ → Outcome ℕ
scan zero limit p len = endless
scan (suc fuel) limit p len = elim (leb len limit) [
  | false ↦ returns len
  | true ↦ elim (get_elem? p len) [
    | none ↦ outside
    | some x ↦ elim (x == 0) [ true ↦ returns len | false ↦ scan fuel limit p ((len + 1) % 2 ^ 16) ]
  ]
]

-- Enough for every loop that ends: `len` has no more values.
abbrev pub enough : ℕ
enough = 2 ^ 16 + 1

-- The characters from `address` on, for the two overloads that return a string. They return the
-- empty string where the bounds fail.
unfoldable pub read_string : Eeprom → ℤ → Outcome (List ℕ)
unfolding scan
read_string e (negsuc n) = returns []
read_string e (pos a) =
    if ltb e.size a then returns [] else elim (scan enough e.size (drop a (block e)) 0) [
      | endless ↦ endless
      | outside ↦ outside
      | returns len ↦ if ltb e.size (a + len) then returns [] else returns (slice a len (block e))
    ]

-- Into a buffer of the caller: the result, and what is written to its front. The sum of an address
-- and a `size_t` has 32 bits.
unfoldable pub read_string_into : Eeprom → ℤ → Bool → ℕ → Outcome (ℕ × List ℕ)
unfolding scan
read_string_into e (negsuc n) has_value max_len = returns (0, [])
read_string_into e (pos a) has_value max_len =
    if has_value
    then (if ltb e.size ((a + max_len) % 2 ^ 32)
        then returns (0, [])
        else elim (scan enough e.size (drop a (block e)) 0) [
          | endless ↦ endless
          | outside ↦ outside
          | returns len ↦
              if ltb e.size (a + len)
              then returns (0, [])
              else if ltb max_len len
              then returns (0, [])
              else returns (len, slice a len (block e) ++ 0 ∷ [])
        ])
    else returns (0, [])

-- `memcpy(_data + a, src, length src)`, where the block has room for it.
abbrev pub store : Eeprom → ℕ → List ℕ → Option Eeprom
store e a src =
    if ltb (length (block e)) (a + length src)
    then none
    else some (record e { data_block = some (copy_into (block e) a src); dirty = true })

-- The terminator is copied too.
unfoldable pub write_string : Eeprom → ℤ → Option (List ℕ) → Outcome (ℕ × Eeprom)
unfolding scan
write_string e (negsuc n) value = returns (0, e)
write_string e (pos a) none = returns (0, e)
write_string e (pos a) (some xs) =
    if ltb e.size a then returns (0, e) else elim (scan enough e.size (xs ++ 0 ∷ []) 0) [
      | endless ↦ endless
      | outside ↦ outside
      | returns len ↦
          if ltb e.size (a + len)
          then returns (0, e)
          else elim (store e a (take (suc len) (xs ++ 0 ∷ []))) [
            | none ↦ outside
            | some e' ↦ returns (length xs, e')
          ]
    ]

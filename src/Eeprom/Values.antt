-- ===== src/Eeprom/Values.antt =====
-- libraries/EEPROM/src/EEPROM.cpp: `readAll`, `writeAll`, the typed calls built on them, and
-- `readBytes`, `writeBytes`. A value of a type of `k` bytes is its bit pattern, below 256 ^ k, and
-- the processor stores it low byte first.
use idf_custom_arduino.Base.{
  ℕ, zero, suc, ◌+◌, ◌-◌, ◌*◌, ◌/◌, ◌%◌, ◌^◌, Bool, true, not, ◌||◌, Option, none, some, List, [],
  ◌∷◌, ltb, ◌==◌, if◌then◌else◌, length, slice, copy_into,
}
use idf_custom_arduino.Base.Int.{ℤ, pos, negsuc}
use idf_custom_arduino.Eeprom.State.{Eeprom}

abbrev pub to_bytes : ℕ → ℕ → List ℕ
to_bytes zero v = []
to_bytes (suc k) v = v % 256 ∷ to_bytes k (v / 256)

abbrev pub of_bytes : List ℕ → ℕ
of_bytes [] = 0
of_bytes (x ∷ xs) = x + 256 * of_bytes xs

abbrev pub block : Eeprom → List ℕ
block e = elim e.data_block [ none ↦ [] | some xs ↦ xs ]

-- `address + len > _size`, in the 32 bits of `size_t`.
abbrev pub outside : Eeprom → ℕ → ℕ → Bool
outside e a len = ltb e.size ((a + len) % 2 ^ 32)

-- `readAll<T>`, where `T` has `k` bytes; `value` is what the variable holds before.
unfoldable pub read_all : Eeprom → ℕ → ℤ → ℕ → ℕ
read_all e k (negsuc n) value = value
read_all e k (pos a) value = if outside e a k then value else of_bytes (slice a k (block e))

-- `writeAll<T>`: it returns a `T`, the value itself on failure and the size on success.
unfoldable pub write_all : Eeprom → ℕ → ℤ → ℕ → ℕ × Eeprom
write_all e k (negsuc n) value = (value, e)
write_all e k (pos a) value = if outside e a k then (value, e) else (
  k,
  record e { data_block = some (copy_into (block e) a (to_bytes k value)); dirty = true },
)

-- A `T` of `k` bytes as `size_t`: a signed one is extended by its sign.
abbrev pub sign_extend : ℕ → ℕ → ℕ
sign_extend k v = if ltb (2 * v) (256 ^ k) then v else v + 2 ^ 32 - 256 ^ k

unfoldable pub read_uchar : Eeprom → ℤ → ℕ
unfolding read_all
read_uchar e a = read_all e 1 a 0

unfoldable pub read_ushort : Eeprom → ℤ → ℕ
unfolding read_all
read_ushort e a = read_all e 2 a 0

unfoldable pub read_uint : Eeprom → ℤ → ℕ
unfolding read_all
read_uint e a = read_all e 4 a 0

unfoldable pub read_ulong64 : Eeprom → ℤ → ℕ
unfolding read_all
read_ulong64 e a = read_all e 8 a 0

unfoldable pub read_bool : Eeprom → ℤ → ℕ
unfolding read_all
read_bool e a = if read_all e 1 a 0 == 0 then 0 else 1

unfoldable pub write_uchar : Eeprom → ℤ → ℕ → ℕ × Eeprom
unfolding write_all
write_uchar e a v = write_all e 1 a v

unfoldable pub write_ushort : Eeprom → ℤ → ℕ → ℕ × Eeprom
unfolding write_all
write_ushort e a v = write_all e 2 a v

unfoldable pub write_uint : Eeprom → ℤ → ℕ → ℕ × Eeprom
unfolding write_all
write_uint e a v = write_all e 4 a v

-- The 64-bit result is cut to `size_t`.
unfoldable pub write_ulong64 : Eeprom → ℤ → ℕ → ℕ × Eeprom
unfolding write_all
write_ulong64 e a v = let (r, e') = write_all e 8 a v in (r % 2 ^ 32, e')

unfoldable pub write_char : Eeprom → ℤ → ℕ → ℕ × Eeprom
unfolding write_all
write_char e a v = let (r, e') = write_all e 1 a v in (sign_extend 1 r, e')

unfoldable pub write_short : Eeprom → ℤ → ℕ → ℕ × Eeprom
unfolding write_all
write_short e a v = let (r, e') = write_all e 2 a v in (sign_extend 2 r, e')

unfoldable pub write_bool : Eeprom → ℤ → Bool → ℕ × Eeprom
unfolding write_all
write_bool e a v = write_all e 1 a (if v then 1 else 0)

-- `none` for the value is a NULL pointer.
unfoldable pub read_bytes : Eeprom → ℤ → Bool → ℕ → ℕ × List ℕ
read_bytes e (negsuc n) has_value max_len = (0, [])
read_bytes e (pos a) has_value max_len =
    if not has_value || (max_len == 0)
    then (0, [])
    else if outside e a max_len
    then (0, [])
    else (max_len, slice a max_len (block e))

unfoldable pub write_bytes : Eeprom → ℤ → Option (List ℕ) → ℕ × Eeprom
write_bytes e (negsuc n) value = (0, e)
write_bytes e (pos a) none = (0, e)
write_bytes e (pos a) (some xs) =
    if length xs == 0
    then (0, e)
    else if outside e a (length xs)
    then (0, e)
    else (length xs, record e { data_block = some (copy_into (block e) a xs); dirty = true })

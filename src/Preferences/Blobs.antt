-- ===== src/Preferences/Blobs.antt =====
-- libraries/Preferences/src/Preferences.cpp: strings, byte blocks, the floating-point numbers, which
-- are their bytes, and the type of a key.
use idf_custom_arduino.Base.{
  ℕ, suc, Bool, true, false, not, ◌||◌, Option, none, some, List, [], ◌∷◌, ◌++◌, ltb, ◌==◌, length,
  copy_into, if◌then◌else◌,
}
use idf_custom_arduino.Preferences.Store.{
  Store, PreferenceType, pt_i8, pt_u8, pt_i16, pt_u16, pt_i32, pt_u32, pt_i64, pt_u64, pt_str,
  pt_blob,
}
use idf_custom_arduino.Preferences.State.{Preferences, put_result}

module _ {W : Type 0} (n : Store W) where
  unfoldable pub put_string : Preferences → Option (List ℕ) → Option (List ℕ) → W → ℕ × W
  put_string p none value w = (0, w)
  put_string p (some key) none w = (0, w)
  put_string p (some key) (some xs) w =
      if not p.started || p.read_only
      then (0, w)
      else put_result n p (length xs) (n.set_str p.handle key xs w)

  unfoldable pub put_bytes : Preferences → Option (List ℕ) → Option (List ℕ) → W → ℕ × W
  put_bytes p none value w = (0, w)
  put_bytes p (some key) none w = (0, w)
  put_bytes p (some key) (some xs) w =
      if not p.started || (length xs == 0) || p.read_only
      then (0, w)
      else put_result n p (length xs) (n.set_blob p.handle key xs w)

  -- `value` is the memory of the variable, of `maxLen` bytes; the result has what it holds then.
  unfoldable pub get_string_into :
      Preferences → Option (List ℕ) → Option (List ℕ) → W → ℕ × Option (List ℕ)
  get_string_into p none value w = (0, value)
  get_string_into p (some key) none w = (0, none)
  get_string_into p (some key) (some buf) w =
      let got : ℕ × Option (List ℕ) = elim (n.str_size p.handle key w) [
        | none ↦ (0, some buf)
        | some len ↦
            let text : ℕ × Option (List ℕ) = elim (n.get_str p.handle key len w) [
              | none ↦ (0, some buf)
              | some xs ↦ (suc (length xs), some (copy_into buf 0 (xs ++ 0 ∷ [])))
            ] in
            if ltb (length buf) len then (0, some buf) else text
      ] in
      if not p.started || (length buf == 0) then (0, some buf) else got

  unfoldable pub get_string : Preferences → Option (List ℕ) → List ℕ → W → List ℕ
  get_string p none default_value w = default_value
  get_string p (some key) default_value w =
      let got : List ℕ = elim (n.str_size p.handle key w) [
        | none ↦ default_value
        | some len ↦ elim (n.get_str p.handle key len w) [ none ↦ default_value | some xs ↦ xs ]
      ] in
      if p.started then got else default_value

  unfoldable pub get_bytes_length : Preferences → Option (List ℕ) → W → ℕ
  get_bytes_length p none w = 0
  get_bytes_length p (some key) w =
      let got : ℕ = elim (n.blob_size p.handle key w) [ none ↦ 0 | some len ↦ len ] in
      if p.started then got else 0

  unfoldable pub get_bytes :
      Preferences → Option (List ℕ) → Option (List ℕ) → W → ℕ × Option (List ℕ)
  unfolding get_bytes_length
  get_bytes p key none w = (get_bytes_length p key w, none)
  get_bytes p none (some buf) w = (0, some buf)
  get_bytes p (some key) (some buf) w =
      let len = get_bytes_length p (some key) w in
      let got : ℕ × Option (List ℕ) = elim (n.get_blob p.handle key len w) [
        | none ↦ (0, some buf)
        | some xs ↦ (length xs, some (copy_into buf 0 xs))
      ] in
      if (len == 0) || (length buf == 0)
      then (len, some buf)
      else (if ltb (length buf) len then (0, some buf) else got)

  -- A `float_t` or a `double_t` is its bytes.
  unfoldable pub put_float : Preferences → Option (List ℕ) → List ℕ → W → ℕ × W
  put_float p key value w = put_bytes p key (some value) w

  unfoldable pub get_float : Preferences → Option (List ℕ) → List ℕ → W → List ℕ
  get_float p key default_value w = elim (get_bytes p key (some default_value) w).1 [
    | none ↦ default_value
    | some xs ↦ xs
  ]

  -- The first type under which the key is found.
  abbrev first_type : List (Bool × PreferenceType) → Option PreferenceType
  first_type [] = none
  first_type ((true, t) ∷ ts) = some t
  first_type ((false, t) ∷ ts) = first_type ts

  abbrev is_some : {A : Type 0} → Option A → Bool
  is_some none = false
  is_some (some a) = true

  unfoldable pub get_type : Preferences → Option (List ℕ) → W → Option PreferenceType
  get_type p none w = none
  get_type p (some key) w =
      if not p.started || ltb 15 (length key)
      then none
      else first_type (
          (is_some (n.get_number pt_i8 p.handle key w), pt_i8)
          ∷ (is_some (n.get_number pt_u8 p.handle key w), pt_u8)
          ∷ (is_some (n.get_number pt_i16 p.handle key w), pt_i16)
          ∷ (is_some (n.get_number pt_u16 p.handle key w), pt_u16)
          ∷ (is_some (n.get_number pt_i32 p.handle key w), pt_i32)
          ∷ (is_some (n.get_number pt_u32 p.handle key w), pt_u32)
          ∷ (is_some (n.get_number pt_i64 p.handle key w), pt_i64)
          ∷ (is_some (n.get_number pt_u64 p.handle key w), pt_u64)
          ∷ (is_some (n.str_size p.handle key w), pt_str)
          ∷ (is_some (n.blob_size p.handle key w), pt_blob)
          ∷ [])

  unfoldable pub is_key : Preferences → Option (List ℕ) → W → Bool
  is_key p key w = is_some (get_type p key w)

-- ===== src/Preferences/Numbers.antt =====
-- libraries/Preferences/src/Preferences.cpp: the integers and the Booleans. A number of any width is
-- an integer; `putLong` and `putULong` are `putInt` and `putUInt`.
use idf_custom_arduino.Base.{
  ℕ, Bool, false, not, ◌||◌, Option, none, some, List, ◌==◌, if◌then◌else◌,
}
use idf_custom_arduino.Base.Int.{ℤ, pos, negsuc}
use idf_custom_arduino.Preferences.Store.{
  Store, PreferenceType, pt_i8, pt_u8, pt_i16, pt_u16, pt_i32, pt_u32, pt_i64, pt_u64,
}
use idf_custom_arduino.Preferences.State.{Preferences, put_result}

module _ {W : Type 0} (n : Store W) where
  -- What the put functions of the integers have in common.
  unfoldable pub put_number : PreferenceType → ℕ → Preferences → Option (List ℕ) → ℤ → W → ℕ × W
  put_number t size p none x w = (0, w)
  put_number t size p (some key) x w =
      if not p.started || p.read_only
      then (0, w)
      else put_result n p size (n.set_number t p.handle key x w)

  unfoldable pub put_char : Preferences → Option (List ℕ) → ℤ → W → ℕ × W
  put_char = put_number pt_i8 1

  unfoldable pub put_uchar : Preferences → Option (List ℕ) → ℤ → W → ℕ × W
  put_uchar = put_number pt_u8 1

  unfoldable pub put_short : Preferences → Option (List ℕ) → ℤ → W → ℕ × W
  put_short = put_number pt_i16 2

  unfoldable pub put_ushort : Preferences → Option (List ℕ) → ℤ → W → ℕ × W
  put_ushort = put_number pt_u16 2

  unfoldable pub put_int : Preferences → Option (List ℕ) → ℤ → W → ℕ × W
  put_int = put_number pt_i32 4

  unfoldable pub put_uint : Preferences → Option (List ℕ) → ℤ → W → ℕ × W
  put_uint = put_number pt_u32 4

  unfoldable pub put_long64 : Preferences → Option (List ℕ) → ℤ → W → ℕ × W
  put_long64 = put_number pt_i64 8

  unfoldable pub put_ulong64 : Preferences → Option (List ℕ) → ℤ → W → ℕ × W
  put_ulong64 = put_number pt_u64 8

  unfoldable pub put_bool : Preferences → Option (List ℕ) → Bool → W → ℕ × W
  put_bool p key b w = put_uchar p key (pos (if b then 1 else 0)) w

  -- What the get functions of the integers have in common.
  unfoldable pub get_number : PreferenceType → Preferences → Option (List ℕ) → ℤ → W → ℤ
  get_number t p none default_value w = default_value
  get_number t p (some key) default_value w =
      let got : ℤ = elim (n.get_number t p.handle key w) [ none ↦ default_value | some x ↦ x ] in
      if p.started then got else default_value

  unfoldable pub get_char : Preferences → Option (List ℕ) → ℤ → W → ℤ
  get_char = get_number pt_i8

  unfoldable pub get_uchar : Preferences → Option (List ℕ) → ℤ → W → ℤ
  get_uchar = get_number pt_u8

  unfoldable pub get_short : Preferences → Option (List ℕ) → ℤ → W → ℤ
  get_short = get_number pt_i16

  unfoldable pub get_ushort : Preferences → Option (List ℕ) → ℤ → W → ℤ
  get_ushort = get_number pt_u16

  unfoldable pub get_int : Preferences → Option (List ℕ) → ℤ → W → ℤ
  get_int = get_number pt_i32

  unfoldable pub get_uint : Preferences → Option (List ℕ) → ℤ → W → ℤ
  get_uint = get_number pt_u32

  unfoldable pub get_long64 : Preferences → Option (List ℕ) → ℤ → W → ℤ
  get_long64 = get_number pt_i64

  unfoldable pub get_ulong64 : Preferences → Option (List ℕ) → ℤ → W → ℤ
  get_ulong64 = get_number pt_u64

  -- Whether an integer is one.
  abbrev is_one : ℤ → Bool
  is_one (negsuc k) = false
  is_one (pos k) = k == 1

  unfoldable pub get_bool : Preferences → Option (List ℕ) → Bool → W → Bool
  get_bool p key default_value w = is_one (get_uchar p key (pos (if default_value then 1 else 0)) w)

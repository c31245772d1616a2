-- ===== src/Preferences/Typed.antt =====
-- What each put of an integer stores is what the get of its type returns, and other keys are kept.
use idf_custom_arduino.Base.{ℕ, ◌<◌, ◌≡◌, ◌≢◌, refl, subst, Option, some, List}
use idf_custom_arduino.Base.Int.{ℤ}
use idf_custom_arduino.Preferences.Store.{
  Store, View, IsStore, PreferenceType, pt_i8, pt_u8, pt_i16, pt_u16, pt_i32, pt_u32, pt_i64,
  pt_u64,
}
use idf_custom_arduino.Preferences.State.{Preferences}
use idf_custom_arduino.Preferences.Numbers.{
  put_number, get_number, put_char, put_uchar, put_short, put_ushort, put_int, put_uint, put_long64,
  put_ulong64, get_char, get_uchar, get_short, get_ushort, get_int, get_uint, get_long64,
  get_ulong64,
}
use idf_custom_arduino.Preferences.Laws.{number_back, put_size, other_kept}

-- The eight types of integers.
pub data Integer : Type 0 where
  int8 : Integer
  uint8 : Integer
  int16 : Integer
  uint16 : Integer
  int32 : Integer
  uint32 : Integer
  int64 : Integer
  uint64 : Integer

abbrev pub bytes_of : Integer → ℕ
bytes_of int8 = 1
bytes_of uint8 = 1
bytes_of int16 = 2
bytes_of uint16 = 2
bytes_of int32 = 4
bytes_of uint32 = 4
bytes_of int64 = 8
bytes_of uint64 = 8

abbrev type_of : Integer → PreferenceType
type_of int8 = pt_i8
type_of uint8 = pt_u8
type_of int16 = pt_i16
type_of uint16 = pt_u16
type_of int32 = pt_i32
type_of uint32 = pt_u32
type_of int64 = pt_i64
type_of uint64 = pt_u64

module _ {W : Type 0} (n : Store W) where
  -- The put of each type, and its get.
  abbrev pub put_of : Integer → Preferences → Option (List ℕ) → ℤ → W → ℕ × W
  put_of int8 = put_char n
  put_of uint8 = put_uchar n
  put_of int16 = put_short n
  put_of uint16 = put_ushort n
  put_of int32 = put_int n
  put_of uint32 = put_uint n
  put_of int64 = put_long64 n
  put_of uint64 = put_ulong64 n

  abbrev pub get_of : Integer → Preferences → Option (List ℕ) → ℤ → W → ℤ
  get_of int8 = get_char n
  get_of uint8 = get_uchar n
  get_of int16 = get_short n
  get_of uint16 = get_ushort n
  get_of int32 = get_int n
  get_of uint32 = get_uint n
  get_of int64 = get_long64 n
  get_of uint64 = get_ulong64 n

  put_of-put_number : (i : Integer) → put_of i ≡ put_number n (type_of i) (bytes_of i)
  unfolding put_char put_uchar put_short put_ushort put_int put_uint put_long64 put_ulong64
  put_of-put_number int8 = refl
  put_of-put_number uint8 = refl
  put_of-put_number int16 = refl
  put_of-put_number uint16 = refl
  put_of-put_number int32 = refl
  put_of-put_number uint32 = refl
  put_of-put_number int64 = refl
  put_of-put_number uint64 = refl

  get_of-get_number : (i : Integer) → get_of i ≡ get_number n (type_of i)
  unfolding get_char get_uchar get_short get_ushort get_int get_uint get_long64 get_ulong64
  get_of-get_number int8 = refl
  get_of-get_number uint8 = refl
  get_of-get_number int16 = refl
  get_of-get_number uint16 = refl
  get_of-get_number int32 = refl
  get_of-get_number uint32 = refl
  get_of-get_number int64 = refl
  get_of-get_number uint64 = refl

module _ {W : Type 0} {n : Store W} {v : View W} (law : IsStore n v) where
  -- On a store that behaves as documented, a put of any of the eight integer types that reports a
  -- size reports that of its type; the get of the same type then returns the value for the key,
  -- whatever its default, and the get of any of the eight types returns for any other key what it
  -- did before.
  pub get_of-put_of :
      (i j : Integer) (p : Preferences) (key other : List ℕ) (x d : ℤ) (w : W)
      → key ≢ other
      → 0 < (put_of n i p (some key) x w).0
      → let w' = (put_of n i p (some key) x w).1 in
        ((put_of n i p (some key) x w).0 ≡ bytes_of i)
        × (get_of n i p (some key) d w' ≡ x)
        × (get_of n j p (some other) d w' ≡ get_of n j p (some other) d w)
  get_of-put_of i j p key other x d w ne h =
      let put = put_of-put_number n i in
      let h' : 0 < (put_number n (type_of i) (bytes_of i) p (some key) x w).0 =
        subst (λ f. 0 < (f p (some key) x w).0) put h in
      let size = put_size law (type_of i) (bytes_of i) p key x w h' in
      let back = number_back law (type_of i) (bytes_of i) p key x d w h' in
      let kept = other_kept law (type_of i) (type_of j) (bytes_of i) p key other x d w ne h' in
      rw (put, get_of-get_number n i, get_of-get_number n j) (size, back, kept)

-- ===== src/Preferences/Tests.antt =====
-- A store that keeps its values; instances of the theorems.
use idf_custom_arduino.Base.{
  ℕ, suc, ◌≡◌, ◌≢◌, ◌<◌, ◌≤◌, ◌⊎◌, refl, arith, true, false, Option, none, some, List, [], ◌∷◌,
  length, ◌==◌, bytes_eq, bytes_eq_refl, bytes_ne, copy_into, if◌then◌else◌,
}
use idf_custom_arduino.Base.Int.{ℤ, pos, negsuc}
use idf_custom_arduino.Preferences.Store.{
  Store, View, IsStore, PreferenceType, pt_i8, pt_u8, pt_i16, pt_u16, pt_i32, pt_u32, pt_i64,
  pt_u64, pt_str, pt_blob,
}
use idf_custom_arduino.Preferences.State.{
  Preferences, init, begin, open_namespace, commit_after, put_result,
}
use idf_custom_arduino.Preferences.Numbers.{put_short, put_number}
use idf_custom_arduino.Preferences.Blobs.{put_bytes, get_bytes}
use idf_custom_arduino.Preferences.Laws.{get_bytes-put_bytes}
use idf_custom_arduino.Preferences.Typed.{put_of, get_of, int16, uint8, get_of-put_of}

-- A key holds one value for each type; the handle does not matter.
record Flash : Type 0 where
  numbers : ℕ → List ℕ → Option ℤ
  texts : List ℕ → Option (List ℕ)
  blobs : List ℕ → Option (List ℕ)

abbrev code : PreferenceType → ℕ
code pt_i8 = 0
code pt_u8 = 1
code pt_i16 = 2
code pt_u16 = 3
code pt_i32 = 4
code pt_u32 = 5
code pt_i64 = 6
code pt_u64 = 7
code pt_str = 8
code pt_blob = 9

abbrev put : {A : Type 0} → (List ℕ → Option A) → List ℕ → A → List ℕ → Option A
put m key x k = if bytes_eq key k then some x else m k

put_self : {A : Type 0} → (m : List ℕ → Option A) (key : List ℕ) (x : A) → put m key x key ≡ some x
put_self m key x = rw (bytes_eq_refl key)

put_ne :
    {A : Type 0}
    → (m : List ℕ → Option A) (key other : List ℕ) (x : A) → key ≢ other
    → put m key x other ≡ m other
put_ne m key other x h = rw (bytes_ne key other h)

abbrev put_typed : (ℕ → List ℕ → Option ℤ) → ℕ → List ℕ → ℤ → ℕ → List ℕ → Option ℤ
put_typed m t key x u = if t == u then put (m u) key x else m u

abbrev size_of : Option (List ℕ) → Option ℕ
size_of none = none
size_of (some xs) = some (length xs)

abbrev text_size : Option (List ℕ) → Option ℕ
text_size none = none
text_size (some xs) = some (suc (length xs))

abbrev flash_store : Store Flash
flash_store = record {
  init_partition = λ label w. (true, w);
  open_nvs = λ label name read_only w. (some 1, w);
  close_nvs = λ h w. w;
  erase_all = λ h w. (true, record { numbers = λ t k. none; texts = λ k. none; blobs = λ k. none });
  erase_key = λ h key w. (true, w);
  commit_nvs = λ h w. (true, w);
  set_number = λ t h key x w. (true, record w { numbers = put_typed w.numbers (code t) key x });
  get_number = λ t h key w. w.numbers (code t) key;
  set_str = λ h key xs w. (true, record w { texts = put w.texts key xs });
  str_size = λ h key w. text_size (w.texts key);
  get_str = λ h key cap w. w.texts key;
  set_blob = λ h key xs w. (true, record w { blobs = put w.blobs key xs });
  blob_size = λ h key w. size_of (w.blobs key);
  get_blob = λ h key cap w. w.blobs key;
  free_entries = λ w. none;
}

abbrev flash_view : View Flash
flash_view = record {
  numbers = λ w t h key. w.numbers (code t) key;
  texts = λ w h key. w.texts key;
  blobs = λ w h key. w.blobs key;
}

same_code : (t : PreferenceType) → (code t == code t) ≡ true
same_code t = ground arith

put_typed_self :
    (m : ℕ → List ℕ → Option ℤ) (t : PreferenceType) (key : List ℕ) (x : ℤ)
    → put_typed m (code t) key x (code t) key ≡ some x
put_typed_self m t key x = ground (arith, same_code t, put_self (m (code t)) key x)

put_typed_ne :
    (m : ℕ → List ℕ → Option ℤ) (t u : PreferenceType) (key other : List ℕ) (x : ℤ)
    → key ≢ other
    → put_typed m (code t) key x (code u) other ≡ m (code u) other
put_typed_ne m t u key other x h = ground (arith, put_ne (m (code u)) key other x h)

flash-IsStore : IsStore flash_store flash_view
flash-IsStore = record {
  number_set = λ t h key x w e. put_typed_self w.numbers t key x;
  number_kept = λ t h key other x w u ne. put_typed_ne w.numbers t u key other x ne;
  number_got = λ t h key w. refl;
  text_set = λ h key xs w e. put_self w.texts key xs;
  text_sized = λ h key xs w e. rw e;
  text_got = λ h cap key xs w e le. e;
  blob_set = λ h key xs w e. put_self w.blobs key xs;
  blob_sized = λ h key xs w e. rw e;
  blob_got = λ h cap key xs w e le. e;
  numbers_committed = λ t h key w. refl;
  texts_committed = λ h key w. refl;
  blobs_committed = λ h key w. refl;
}

abbrev empty : Flash
empty = record { numbers = λ t k. none; texts = λ k. none; blobs = λ k. none }

abbrev opened : Preferences
opened = record { handle = 1; started = true; read_only = false }

abbrev key : List ℕ
key = 0x6b ∷ []

abbrev word : List ℕ
word = 0x68 ∷ 0x69 ∷ []

abbrev buffer : List ℕ
buffer = 1 ∷ 2 ∷ 3 ∷ 4 ∷ 5 ∷ []

begin_opens : begin flash_store init word false none empty ≡ (true, opened, empty)
unfolding begin open_namespace init
begin_opens = refl

abbrev after_put : Flash
after_put = (put_of flash_store int16 opened (some key) (negsuc 4) empty).1

get_of-put_of_example :
    ((put_of flash_store int16 opened (some key) (negsuc 4) empty).0 ≡ 2)
    × (get_of flash_store int16 opened (some key) (pos 7) after_put ≡ negsuc 4)
    × (get_of flash_store uint8 opened (some word) (pos 7) after_put
        ≡ get_of flash_store uint8 opened (some word) (pos 7) empty)
unfolding put_short put_number put_result commit_after
get_of-put_of_example =
    get_of-put_of flash-IsStore int16 uint8 opened key word (negsuc 4) (pos 7) empty (λ e. cc)
      (omega arith)

get_bytes-put_bytes_example :
    ((length word ≤ length buffer)
      × (get_bytes flash_store opened
            (some key)
            (some buffer)
            (put_bytes flash_store opened (some key) (some word) empty).1
          ≡ (2, some (copy_into buffer 0 word))))
    ⊎ ((length buffer < length word)
        × (get_bytes flash_store opened
              (some key)
              (some buffer)
              (put_bytes flash_store opened (some key) (some word) empty).1
            ≡ (0, some buffer)))
unfolding put_bytes put_result commit_after
get_bytes-put_bytes_example =
    get_bytes-put_bytes flash-IsStore opened key word buffer empty (omega arith) (omega arith)

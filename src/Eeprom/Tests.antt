-- ===== src/Eeprom/Tests.antt =====
-- An NVS that keeps its blobs; instances of the theorems.
use idf_custom_arduino.Base.{
  ℕ, zero, suc, ◌++◌, ◌≡◌, ◌≢◌, refl, sym, ap, ◌∙◌, Bool, true, false, Option, none, some, List, [],
  ◌∷◌, arith, length, replicate, length-replicate, if◌then◌else◌, bytes_eq, bytes_eq_refl, bytes_ne,
}
use idf_custom_arduino.Base.Int.{pos}
use idf_custom_arduino.Eeprom.Nvs.{Nvs, IsNvs, found, not_found, BlobSize}
use idf_custom_arduino.Eeprom.State.{Eeprom, end}
use idf_custom_arduino.Eeprom.Values.{read_all, write_all}
use idf_custom_arduino.Eeprom.Text.{returns, outside, endless, scan, read_string, write_string}
use idf_custom_arduino.Eeprom.Begin.{begin, load_resized, resize, expand, grow, load}
use idf_custom_arduino.Eeprom.Laws.{IsLoaded, read_all-write_all}
use idf_custom_arduino.Eeprom.Strings.{
  IsText, read_string-write_string, write_string_overflows, write_string_endless,
}
use idf_custom_arduino.Eeprom.Resize.{begin_resizes}

abbrev Blobs : Type 0
Blobs = List ℕ → Option (List ℕ)

abbrev put : Blobs → List ℕ → Option (List ℕ) → Blobs
put w key v k = if bytes_eq key k then v else w k

abbrev size_of : Option (List ℕ) → BlobSize
size_of none = not_found
size_of (some xs) = found (length xs)

abbrev flash_nvs : Nvs Blobs
flash_nvs = record {
  malloc = λ n w. (some (replicate n 0), w);
  open_nvs = λ name w. (some 1, w);
  close_nvs = λ h w. w;
  blob_size = λ h key w. size_of (w key);
  get_blob = λ h key cap w. w key;
  set_blob = λ h key xs w. (true, put w key (some xs));
  erase_key = λ h key w. put w key none;
  commit_nvs = λ h w. w;
}

abbrev bytes : Option (List ℕ) → List ℕ
bytes none = []
bytes (some xs) = xs

put_self : (w : Blobs) (key : List ℕ) (v : Option (List ℕ)) → put w key v key ≡ v
put_self w key v = rw (bytes_eq_refl key)

put_ne :
    (w : Blobs) (key other : List ℕ) (v : Option (List ℕ))
    → key ≢ other
    → put w key v other ≡ w other
put_ne w key other v h = rw (bytes_ne key other h)

flash-IsNvs : IsNvs flash_nvs (λ w key. w key)
flash-IsNvs = record {
  malloc_keeps = λ k w key. refl;
  malloc_length = λ k w b e. sym (ap (λ o. length (bytes o)) e) ∙ length-replicate k 0;
  open_keeps = λ name w key. refl;
  close_keeps = λ h w key. refl;
  commit_keeps = λ h w key. refl;
  size_found = λ h key xs w e. rw e;
  size_not_found = λ h key w e. rw e;
  get_gets = λ h cap key xs w e le. e;
  set_sets = λ h key xs w e. put_self w key (some xs);
  set_keeps = λ h key other xs w ne. put_ne w key other (some xs) ne;
  erase_erases = λ h key w. put_self w key none;
  erase_keeps = λ h key other w ne. put_ne w key other none ne;
}

abbrev key : List ℕ
key = 0x65 ∷ 0x65 ∷ []

-- Eight bytes, the first three of them set.
abbrev eight : Eeprom
eight = record {
  handle = 1;
  data_block = some (1 ∷ 2 ∷ 3 ∷ 0 ∷ 0 ∷ 0 ∷ 0 ∷ 9 ∷ []);
  size = 8;
  dirty = true;
  name = key;
  user_defined_size = 8;
}

eight-IsLoaded : IsLoaded eight
eight-IsLoaded = omega arith

read_all-write_all_example :
    ((write_all eight 4 (pos 4) 0x12345678).0 ≡ 4)
    × (read_all (write_all eight 4 (pos 4) 0x12345678).1 4 (pos 4) 0 ≡ 0x12345678)
read_all-write_all_example =
    read_all-write_all eight 4 4 0x12345678 0 eight-IsLoaded (omega arith) (omega arith)

abbrev word : List ℕ
word = 0x68 ∷ 0x69 ∷ []

read_string-write_string_example :
    (e : Eeprom) × (write_string eight (pos 5) (some word) ≡ returns (2, e))
    × (read_string e (pos 5) ≡ returns word)
read_string-write_string_example =
    read_string-write_string eight 5 word eight-IsLoaded (omega arith) (omega arith) (omega arith)

write_string_overflows_example : write_string eight (pos 6) (some word) ≡ outside
write_string_overflows_example =
    write_string_overflows eight 6 word eight-IsLoaded (omega arith) refl (omega arith)

-- A string with as many bytes as a `uint16_t` has values, and a block with room for it.
abbrev ones : List ℕ
ones = replicate 65536 1

ones-IsText : (n : ℕ) → IsText (replicate n 1)
ones-IsText zero = tt
ones-IsText (suc n) = (omega arith, ones-IsText n)

abbrev large : Eeprom
large = record eight { data_block = some (replicate 70000 0); size = 70000 }

write_string_endless_example :
    (scan 1000000 70000 (ones ++ 0 ∷ []) 0 ≡ endless)
    × (write_string large (pos 0) (some ones) ≡ endless)
write_string_endless_example =
    write_string_endless large 0 ones 1000000 (omega arith) (omega arith) (ones-IsText 65536)
      (omega (arith, length-replicate {A = ℕ} 65536 1))

abbrev empty_nvs : Blobs
empty_nvs k = none

abbrev other_eight : Eeprom
other_eight = record eight { data_block = none; size = 0; dirty = false; handle = 0 }

abbrev reloaded : Bool × Eeprom × Blobs
reloaded = begin flash_nvs other_eight 8 (end flash_nvs eight empty_nvs).1

-- Three stored bytes are grown to five.
abbrev three : Blobs
three = put empty_nvs key (some (7 ∷ 8 ∷ 9 ∷ []))

abbrev grown : Bool × Eeprom × Blobs
grown = begin flash_nvs (record eight { data_block = none; size = 0; dirty = false }) 5 three

begin_resizes_example :
    (grown.1.data_block ≡ some (7 ∷ 8 ∷ 9 ∷ 0xff ∷ 0xff ∷ []))
    × (grown.1.size ≡ 5)
    × (grown.1.name ≡ key)
    × (grown.2 key ≡ some (7 ∷ 8 ∷ 9 ∷ 0xff ∷ 0xff ∷ []))
unfolding begin load_resized resize expand grow load
begin_resizes_example =
    begin_resizes flash-IsNvs (λ h k xs w. refl)
      (record eight { data_block = none; size = 0; dirty = false }) 5 (7 ∷ 8 ∷ 9 ∷ []) grown.1 three
      grown.2 (λ e. cc) (omega arith) (omega arith) refl refl

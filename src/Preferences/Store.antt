-- ===== src/Preferences/Store.antt =====
-- What libraries/Preferences/src calls of the NVS library. `W` is its state.
use idf_custom_arduino.Base.{ℕ, suc, ◌≤◌, ◌≡◌, ◌≢◌, Bool, true, Option, some, List, length}
use idf_custom_arduino.Base.Int.{ℤ}

-- `PreferenceType`, without `PT_INVALID`, which is `none` of an `Option`.
pub data PreferenceType : Type 0 where
  pt_i8 : PreferenceType
  pt_u8 : PreferenceType
  pt_i16 : PreferenceType
  pt_u16 : PreferenceType
  pt_i32 : PreferenceType
  pt_u32 : PreferenceType
  pt_i64 : PreferenceType
  pt_u64 : PreferenceType
  pt_str : PreferenceType
  pt_blob : PreferenceType

-- A Boolean result is true on ESP_OK; `none` is an error.
pub record Store (W : Type 0) : Type 0 where
  pub init_partition : List ℕ → W → Bool × W
  -- The first argument is the partition's label, `none` for the default one; the last but one says
  -- whether the namespace is opened to be read only.
  pub open_nvs : Option (List ℕ) → List ℕ → Bool → W → Option ℕ × W
  pub close_nvs : ℕ → W → W
  pub erase_all : ℕ → W → Bool × W
  pub erase_key : ℕ → List ℕ → W → Bool × W
  pub commit_nvs : ℕ → W → Bool × W
  pub set_number : PreferenceType → ℕ → List ℕ → ℤ → W → Bool × W
  pub get_number : PreferenceType → ℕ → List ℕ → W → Option ℤ
  pub set_str : ℕ → List ℕ → List ℕ → W → Bool × W
  -- The size counts the zero byte at the end; the text does not have it.
  pub str_size : ℕ → List ℕ → W → Option ℕ
  pub get_str : ℕ → List ℕ → ℕ → W → Option (List ℕ)
  pub set_blob : ℕ → List ℕ → List ℕ → W → Bool × W
  pub blob_size : ℕ → List ℕ → W → Option ℕ
  pub get_blob : ℕ → List ℕ → ℕ → W → Option (List ℕ)
  pub free_entries : W → Option ℕ

-- What is stored: the numbers of each type, the strings and the blobs under a handle's keys.
pub record View (W : Type 0) : Type 0 where
  pub numbers : W → PreferenceType → ℕ → List ℕ → Option ℤ
  pub texts : W → ℕ → List ℕ → Option (List ℕ)
  pub blobs : W → ℕ → List ℕ → Option (List ℕ)

-- The documented behaviour of the NVS library.
pub record IsStore {W : Type 0} (n : Store W) (v : View W) : Type 0 where
  pub number_set :
      (t : PreferenceType) (h : ℕ) (key : List ℕ) (x : ℤ) (w : W)
      → (n.set_number t h key x w).0 ≡ true
      → v.numbers (n.set_number t h key x w).1 t h key ≡ some x
  pub number_kept :
      (t : PreferenceType) (h : ℕ) (key other : List ℕ) (x : ℤ) (w : W) (u : PreferenceType)
      → key ≢ other
      → v.numbers (n.set_number t h key x w).1 u h other ≡ v.numbers w u h other
  pub number_got :
      (t : PreferenceType) (h : ℕ) (key : List ℕ) (w : W)
      → n.get_number t h key w ≡ v.numbers w t h key
  pub text_set :
      (h : ℕ) (key xs : List ℕ) (w : W)
      → (n.set_str h key xs w).0 ≡ true
      → v.texts (n.set_str h key xs w).1 h key ≡ some xs
  pub text_sized :
      (h : ℕ) (key xs : List ℕ) (w : W)
      → v.texts w h key ≡ some xs
      → n.str_size h key w ≡ some (suc (length xs))
  pub text_got :
      (h cap : ℕ) (key xs : List ℕ) (w : W)
      → v.texts w h key ≡ some xs
      → suc (length xs) ≤ cap
      → n.get_str h key cap w ≡ some xs
  pub blob_set :
      (h : ℕ) (key xs : List ℕ) (w : W)
      → (n.set_blob h key xs w).0 ≡ true
      → v.blobs (n.set_blob h key xs w).1 h key ≡ some xs
  pub blob_sized :
      (h : ℕ) (key xs : List ℕ) (w : W)
      → v.blobs w h key ≡ some xs
      → n.blob_size h key w ≡ some (length xs)
  pub blob_got :
      (h cap : ℕ) (key xs : List ℕ) (w : W)
      → v.blobs w h key ≡ some xs
      → length xs ≤ cap
      → n.get_blob h key cap w ≡ some xs
  pub numbers_committed :
      (t : PreferenceType) (h : ℕ) (key : List ℕ) (w : W)
      → v.numbers (n.commit_nvs h w).1 t h key ≡ v.numbers w t h key
  pub texts_committed :
      (h : ℕ) (key : List ℕ) (w : W) → v.texts (n.commit_nvs h w).1 h key ≡ v.texts w h key
  pub blobs_committed :
      (h : ℕ) (key : List ℕ) (w : W) → v.blobs (n.commit_nvs h w).1 h key ≡ v.blobs w h key

-- ===== src/Eeprom/Nvs.antt =====
-- What libraries/EEPROM/src calls of the platform: the heap and the NVS library. `W` is their state.
use idf_custom_arduino.Base.{ℕ, ◌≤◌, ◌≡◌, ◌≢◌, Bool, true, Option, none, some, List, length}

-- What `nvs_get_blob` says of a key when it is asked for the size.
pub data BlobSize : Type 0 where
  found : ℕ → BlobSize
  not_found : BlobSize
  failed : BlobSize

-- A Boolean result is true on ESP_OK. A namespace handle is a number.
pub record Nvs (W : Type 0) : Type 0 where
  pub malloc : ℕ → W → Option (List ℕ) × W
  pub open_nvs : List ℕ → W → Option ℕ × W
  pub close_nvs : ℕ → W → W
  pub blob_size : ℕ → List ℕ → W → BlobSize
  -- Into a buffer of the given length; `none` where it reports an error and leaves the buffer.
  pub get_blob : ℕ → List ℕ → ℕ → W → Option (List ℕ)
  pub set_blob : ℕ → List ℕ → List ℕ → W → Bool × W
  pub erase_key : ℕ → List ℕ → W → W
  pub commit_nvs : ℕ → W → W

-- The documented behaviour of an NVS with enough room: `stored w k` is the blob under key `k`.
pub record IsNvs {W : Type 0} (n : Nvs W) (stored : W → List ℕ → Option (List ℕ)) : Type 0 where
  pub malloc_keeps : (k : ℕ) (w : W) (key : List ℕ) → stored (n.malloc k w).1 key ≡ stored w key
  pub malloc_length : (k : ℕ) (w : W) (b : List ℕ) → (n.malloc k w).0 ≡ some b → length b ≡ k
  pub open_keeps :
      (name : List ℕ) (w : W) (key : List ℕ) → stored (n.open_nvs name w).1 key ≡ stored w key
  pub close_keeps : (h : ℕ) (w : W) (key : List ℕ) → stored (n.close_nvs h w) key ≡ stored w key
  pub commit_keeps : (h : ℕ) (w : W) (key : List ℕ) → stored (n.commit_nvs h w) key ≡ stored w key
  pub size_found :
      (h : ℕ) (key xs : List ℕ) (w : W)
      → stored w key ≡ some xs
      → n.blob_size h key w ≡ BlobSize.found (length xs)
  pub size_not_found :
      (h : ℕ) (key : List ℕ) (w : W)
      → stored w key ≡ none
      → n.blob_size h key w ≡ BlobSize.not_found
  pub get_gets :
      (h cap : ℕ) (key xs : List ℕ) (w : W)
      → stored w key ≡ some xs
      → length xs ≤ cap
      → n.get_blob h key cap w ≡ some xs
  pub set_sets :
      (h : ℕ) (key xs : List ℕ) (w : W)
      → (n.set_blob h key xs w).0 ≡ true
      → stored (n.set_blob h key xs w).1 key ≡ some xs
  pub set_keeps :
      (h : ℕ) (key other xs : List ℕ) (w : W)
      → key ≢ other
      → stored (n.set_blob h key xs w).1 other ≡ stored w other
  pub erase_erases : (h : ℕ) (key : List ℕ) (w : W) → stored (n.erase_key h key w) key ≡ none
  pub erase_keeps :
      (h : ℕ) (key other : List ℕ) (w : W)
      → key ≢ other
      → stored (n.erase_key h key w) other ≡ stored w other

-- ===== src/Update/Device.antt =====
-- What libraries/Update/src calls of the platform: the heap, the partitions and the MD5 builder.
-- `W` is the state of the platform, `M` that of an MD5 builder.
use idf_custom_arduino.Base.{
  ℕ, ◌+◌, ◌≤◌, ◌<◌, ◌≡◌, Bool, true, Option, some, List, [], ◌++◌, length, get_or, ◌⊎◌,
}

-- `esp_partition_t`: which partition it is, and its size in bytes.
pub record Partition : Type 0 where
  pub address : ℕ
  pub size : ℕ

-- The kinds of partition that `begin` asks for.
pub data Kind : Type 0 where
  spiffs fat : Kind

-- A pointer that may be NULL is an `Option`. A Boolean result is true on success.
pub record Device (W M : Type 0) : Type 0 where
  pub malloc : ℕ → W → Option (List ℕ) × W
  pub next_update_partition : W → Option Partition
  pub find_first : Kind → Option (List ℕ) → W → Option Partition
  pub erase_range : Option Partition → ℕ → ℕ → W → Bool × W
  pub partition_write : Option Partition → ℕ → List ℕ → W → Bool × W
  pub partition_read : Option Partition → ℕ → ℕ → W → Option (List ℕ)
  pub set_boot_partition : Option Partition → W → Bool × W
  pub md5_begin : M
  pub md5_add : M → List ℕ → M
  pub md5_string : M → List ℕ

-- The documented behaviour of the flash. `byte w p i` is byte `i` of partition `p`.
pub record IsFlash {W M : Type 0} (d : Device W M) (byte : W → Option Partition → ℕ → ℕ)
    : Type 0 where
  pub malloc_keeps :
      (n : ℕ) (w : W) (p : Option Partition) (i : ℕ) → byte (d.malloc n w).1 p i ≡ byte w p i
  pub malloc_length : (n : ℕ) (w : W) (b : List ℕ) → (d.malloc n w).0 ≡ some b → length b ≡ n
  -- An erased range reads as ones, and nothing outside it changes.
  pub erase_sets :
      (p : Option Partition) (off len : ℕ) (w : W) (i : ℕ)
      → (d.erase_range p off len w).0 ≡ true
      → off ≤ i
      → i < off + len
      → byte (d.erase_range p off len w).1 p i ≡ 255
  pub erase_keeps :
      (p : Option Partition) (off len : ℕ) (w : W) (i : ℕ)
      → (i < off) ⊎ (off + len ≤ i)
      → byte (d.erase_range p off len w).1 p i ≡ byte w p i
  -- A write stores its bytes where the flash is erased, and nothing outside its range changes.
  pub write_sets :
      (p : Option Partition) (off : ℕ) (xs : List ℕ) (w : W) (i : ℕ)
      → (d.partition_write p off xs w).0 ≡ true
      → i < length xs
      → byte w p (off + i) ≡ 255
      → byte (d.partition_write p off xs w).1 p (off + i) ≡ get_or xs i 0
  pub write_keeps :
      (p : Option Partition) (off : ℕ) (xs : List ℕ) (w : W) (i : ℕ)
      → (i < off) ⊎ (off + length xs ≤ i)
      → byte (d.partition_write p off xs w).1 p i ≡ byte w p i
  pub read_gets :
      (p : Option Partition) (off len : ℕ) (w : W) (i : ℕ) (xs : List ℕ)
      → d.partition_read p off len w ≡ some xs
      → i < len
      → get_or xs i 0 ≡ byte w p (off + i)
  pub boot_keeps :
      (q p : Option Partition) (w : W) (i : ℕ) → byte (d.set_boot_partition q w).1 p i ≡ byte w p i

-- An MD5 builder takes its message in pieces.
pub record IsStreaming {W M : Type 0} (d : Device W M) : Type 0 where
  pub add_nothing : (m : M) → d.md5_add m [] ≡ m
  pub add_more : (m : M) (xs ys : List ℕ) → d.md5_add (d.md5_add m xs) ys ≡ d.md5_add m (xs ++ ys)

-- ===== src/Eeprom/Begin.antt =====
-- libraries/EEPROM/src/EEPROM.cpp: `begin`, which loads the array and resizes what is stored.
use idf_custom_arduino.Base.{
  ℕ, ◌-◌, Bool, true, false, none, some, List, [], ◌∷◌, ltb, ◌==◌, if◌then◌else◌, length, take,
  replicate, copy_into,
}
use idf_custom_arduino.Eeprom.Nvs.{Nvs, found, not_found, failed}
use idf_custom_arduino.Eeprom.State.{Eeprom}

-- The key "expand".
abbrev pub expand_key : List ℕ
expand_key = 0x65 ∷ 0x78 ∷ 0x70 ∷ 0x61 ∷ 0x6e ∷ 0x64 ∷ []

module _ {W : Type 0} (n : Nvs W) where
  -- `nvs_get_blob(_handle, _name, buf, &len)`, whose result the code does not look at.
  abbrev pub load_into : Eeprom → List ℕ → W → List ℕ
  load_into e buf w = elim (n.get_blob e.handle e.name (length buf) w) [
    | none ↦ buf
    | some xs ↦ copy_into buf 0 xs
  ]

  -- The stored array is longer than `size`: keep its first bytes.
  unfoldable pub truncate : Eeprom → ℕ → ℕ → W → Bool × W
  truncate e size key_size w =
      let (block, w1) = n.malloc key_size w in
      elim block [
        | none ↦ (false, w1)
        | some buf ↦ (
          true,
          n.commit_nvs e.handle (n.set_blob e.handle e.name (take size (load_into e buf w1)) w1).1,
        )
      ]

  -- Store the longer array: the old bytes, and 0xFF behind them.
  unfoldable pub grow : Eeprom → ℕ → ℕ → W → Bool × W
  grow e size key_size w =
      let (block, w1) = n.malloc size w in
      elim block [
        | none ↦ (false, w1)
        | some buf ↦
            let filled = replicate size 0xff in
            let content = if key_size == 0 then filled else load_into e filled w1 in
            let w2 = if key_size == 0 then w1 else n.erase_key e.handle e.name w1 in
            let w3 = n.commit_nvs e.handle w2 in
            (true, n.commit_nvs e.handle (n.set_blob e.handle e.name content w3).1)
      ]

  -- The stored array is shorter than `size`, or there is none: see that there is room first.
  unfoldable pub expand : Eeprom → ℕ → ℕ → W → Bool × W
  expand e size key_size w =
      let (probe, w1) = n.malloc (size - key_size) w in
      elim probe [
        | none ↦ (false, w1)
        | some buf ↦
            let (room, w2) = n.set_blob e.handle expand_key buf w1 in
            if room then grow e size key_size (n.erase_key e.handle expand_key w2) else (false, w2)
      ]

  unfoldable pub resize : Eeprom → ℕ → ℕ → W → Bool × W
  resize e size key_size w =
      if ltb size key_size
      then truncate e size key_size w
      else if ltb key_size size
      then expand e size key_size w
      else (true, w)

  -- Allocate the array and read it.
  unfoldable pub load : Eeprom → ℕ → W → Bool × Eeprom × W
  load e size w =
      let (block, w1) = n.malloc size w in
      elim block [
        | none ↦ (false, record e { data_block = none }, w1)
        | some buf ↦ elim (n.get_blob e.handle e.name size w1) [
          | none ↦ (true, record e { data_block = some buf; size = size }, w1)
          | some xs ↦
              (true, record e { data_block = some (copy_into buf 0 xs); size = length xs }, w1)
        ]
      ]

  unfoldable pub load_resized : Eeprom → ℕ → ℕ → W → Bool × Eeprom × W
  load_resized e size key_size w =
      let (done, w') = resize e size key_size w in if done then load e size w' else (false, e, w')

  unfoldable pub begin : Eeprom → ℕ → W → Bool × Eeprom × W
  begin e size w =
      let (handle, w1) = n.open_nvs e.name w in
      if size == 0 then (false, e, w) else elim handle [
        | none ↦ (false, e, w1)
        | some h ↦
            let e' = record e { handle = h } in
            elim (n.blob_size h e.name w1) [
              | failed ↦ (false, e', w1)
              | not_found ↦ load_resized e' size 0 w1
              | found key_size ↦ load_resized e' size key_size w1
            ]
      ]

-- ===== src/Eeprom/State.antt =====
-- libraries/EEPROM/src/EEPROM.cpp: the object, `read`, `write`, `commit` and `end`.
use idf_custom_arduino.Base.{
  ℕ, ◌%◌, ◌^◌, Bool, true, false, not, ◌||◌, Option, none, some, List, leb, ◌==◌, take,
  if◌then◌else◌, get_or, set,
}
use idf_custom_arduino.Base.Int.{ℤ, pos, negsuc}
use idf_custom_arduino.Eeprom.Nvs.{Nvs}

-- `EEPROMClass`. The name is its characters; `data` is the block that `_data` points to.
pub record Eeprom : Type 0 where
  pub handle : ℕ
  pub data_block : Option (List ℕ)
  pub size : ℕ
  pub dirty : Bool
  pub name : List ℕ
  pub user_defined_size : ℕ

-- The three constructors: the first two name the array "eeprom" and give no size.
unfoldable pub init : List ℕ → ℕ → Eeprom
init name user_defined_size = record {
  handle = 0;
  data_block = none;
  size = 0;
  dirty = false;
  name = name;
  user_defined_size = user_defined_size;
}

unfoldable pub read : Eeprom → ℤ → ℕ
read e (negsuc n) = 0
read e (pos a) = elim e.data_block [
  | none ↦ 0
  | some xs ↦ if leb e.size a then 0 else get_or xs a 0
]

-- The array is marked dirty only if the byte changes.
unfoldable pub write : Eeprom → ℤ → ℕ → Eeprom
write e (negsuc n) v = e
write e (pos a) v = elim e.data_block [
  | none ↦ e
  | some xs ↦
      if leb e.size a || (get_or xs a 0 == v)
      then e
      else record e { data_block = some (set xs a v); dirty = true }
]

unfoldable pub get_data_ptr : Eeprom → Option (List ℕ) × Eeprom
get_data_ptr e = (e.data_block, record e { dirty = true })

-- The size that the user gave, as `uint16_t`.
unfoldable pub length_of : Eeprom → ℕ
length_of e = e.user_defined_size % 2 ^ 16

module _ {W : Type 0} (n : Nvs W) where
  unfoldable pub commit : Eeprom → W → Bool × Eeprom × W
  commit e w = elim e.data_block [
    | none ↦ (false, e, w)
    | some xs ↦
        let (stored, w') = n.set_blob e.handle e.name (take e.size xs) w in
        if e.size == 0
        then (false, e, w)
        else if not e.dirty
        then (true, e, w)
        else if stored
        then (true, record e { dirty = false }, w')
        else (false, e, w')
  ]

  unfoldable pub end : Eeprom → W → Eeprom × W
  unfolding commit
  end e w =
      let (done, e1, w1) = commit e w in
      if e.size == 0
      then (e, w)
      else (record e1 { data_block = none; size = 0; handle = 0 }, n.close_nvs e1.handle w1)

-- ===== src/Update/Begin.antt =====
-- libraries/Update/src/Updater.cpp: `begin`.
use idf_custom_arduino.Base.{
  ℕ, Bool, true, false, not, Option, none, some, List, [], ltb, ◌==◌, if◌then◌else◌,
}
use idf_custom_arduino.Update.Device.{Device, spiffs, fat}
use idf_custom_arduino.Update.State.{
  Updater, reset, update_error_size, update_error_no_partition, update_error_bad_argument,
  update_size_unknown, u_flash, u_spiffs, spi_flash_sec_size,
}

module _ {W M : Type 0} (d : Device W M) where
  -- `_partition` and `_paroffset` as `begin` sets them. The option is NULL when nothing is found.
  unfoldable pub select_spiffs : Updater M → Option (List ℕ) → W → Updater M
  select_spiffs u label w = elim (d.find_first spiffs label w) [
    | some p ↦ record u { partition = some p; paroffset = 0 }
    | none ↦ record u { partition = d.find_first fat none w; paroffset = 0x1000 }
  ]

  -- The buffer and the fields that make the update a running one.
  unfoldable pub start : Updater M → ℕ → ℕ → W → Bool × Updater M × W
  start u size command w =
      let (block, w') = d.malloc spi_flash_sec_size w in
      elim block [
        | none ↦ (false, record u { buffer = none }, w')
        | some b ↦ (
          true,
          record u { buffer = some b; size = size; command = command; md5 = d.md5_begin },
          w',
        )
      ]

  -- The partition is chosen: check the size against it.
  unfoldable pub check_size : Updater M → ℕ → ℕ → W → Bool × Updater M × W
  unfolding start
  check_size u size command w = elim u.partition [
    | none ↦ (false, record u { error = update_error_no_partition }, w)
    | some p ↦
        if size == update_size_unknown
        then start u p.size command w
        else if ltb p.size size
        then (false, record u { error = update_error_size }, w)
        else start u size command w
  ]

  unfoldable pub select : Updater M → ℕ → ℕ → Option (List ℕ) → W → Bool × Updater M × W
  unfolding select_spiffs check_size
  select u size command label w =
      if size == 0
      then (false, record u { error = update_error_size }, w)
      else if command == u_flash
      then check_size (record u { partition = d.next_update_partition w }) size command w
      else if command == u_spiffs
      then check_size (select_spiffs u label w) size command w
      else (false, record u { error = update_error_bad_argument }, w)

  unfoldable pub begin : Updater M → ℕ → ℕ → ℕ → ℕ → Option (List ℕ) → W → Bool × Updater M × W
  unfolding select reset
  begin u size command led_pin led_on label w =
      if ltb 0 u.size
      then (false, u, w)
      else select
          (record (reset u) {
            led_pin = led_pin;
            led_on = not (led_on == 0);
            error = 0;
            target_md5 = [];
            md5 = d.md5_begin;
          })
          size command label w

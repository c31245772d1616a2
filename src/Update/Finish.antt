-- ===== src/Update/Finish.antt =====
-- libraries/Update/src/Updater.cpp: `end`, `_verifyEnd`, `_verifyHeader` and the roll back.
use idf_custom_arduino.Base.{
  ℕ, Bool, true, false, not, ◌&&◌, ◌||◌, Option, none, some, ltb, ◌==◌, bytes_eq, if◌then◌else◌,
  length, get_or, take,
}
use idf_custom_arduino.Update.Device.{Partition, Device}
use idf_custom_arduino.Update.State.{
  Updater, bytes, reset, abort_with, has_error, is_finished, update_error_read,
  update_error_activate, update_error_md5, update_error_abort, update_error_magic_byte, u_flash,
  u_spiffs, esp_image_header_magic, encrypted_block_size,
}
use idf_custom_arduino.Update.Buffer.{write_buffer}

unfoldable pub verify_header : {M : Type 0} → Updater M → ℕ → Bool × Updater M
unfolding abort_with
verify_header u byte =
    if u.command == u_flash
    then (if byte == esp_image_header_magic
        then (true, u)
        else (false, abort_with update_error_magic_byte u))
    else (u.command == u_spiffs, u)

module _ {W M : Type 0} (d : Device W M) where
  unfoldable pub partition_is_bootable : Option Partition → W → Bool
  partition_is_bootable none w = false
  partition_is_bootable (some p) w = elim (d.partition_read (some p) 0 encrypted_block_size w) [
    | none ↦ false
    | some buf ↦ get_or buf 0 0 == esp_image_header_magic
  ]

  -- The first block, which was held back, makes the image bootable.
  unfoldable pub enable_partition : Updater M → Option Partition → W → Bool × W
  enable_partition u none w = (false, w)
  enable_partition u (some p) w =
      d.partition_write (some p) 0 (take encrypted_block_size (bytes u.skip_buffer)) w

  unfoldable pub verify_end : Updater M → W → Bool × Updater M × W
  unfolding abort_with reset
  verify_end u w =
      if u.command == u_flash
      then (let (enabled, w1) = enable_partition u u.partition w in
          let (activated, w2) = d.set_boot_partition u.partition w1 in
          if enabled && partition_is_bootable u.partition w1
          then (if activated
              then (true, reset u, w2)
              else (false, abort_with update_error_activate u, w2))
          else (false, abort_with update_error_read u, w1))
      else if u.command == u_spiffs
      then (true, reset u, w)
      else (false, u, w)

  -- The sum is compared if a target was set.
  unfoldable pub check_md5 : Updater M → W → Bool × Updater M × W
  unfolding abort_with
  check_md5 u w =
      if not (length u.target_md5 == 0) && not (bytes_eq u.target_md5 (d.md5_string u.md5))
      then (false, abort_with update_error_md5 u, w)
      else verify_end u w

  -- `if (evenIfRemaining)`: the last bytes are flushed, whatever comes of it.
  unfoldable pub flush_rest : Updater M → W → Updater M × W
  flush_rest u w =
      let (flushed, u1, w1) = write_buffer d u w in
      if ltb 0 u.buffer_len
      then (record u1 { size = u1.progress }, w1)
      else (record u { size = u.progress }, w)

  unfoldable pub end : Updater M → Bool → W → Bool × Updater M × W
  unfolding abort_with flush_rest
  end u even_if_remaining w =
      if has_error u || u.size == 0
      then (false, u, w)
      else if not (is_finished u) && not even_if_remaining
      then (false, abort_with update_error_abort u, w)
      else if even_if_remaining
      then (let (u', w') = flush_rest u w in check_md5 u' w')
      else check_md5 u w

  -- Nothing to roll back to while an update runs.
  unfoldable pub can_roll_back : Updater M → W → Bool
  can_roll_back u w = elim u.buffer [
    | some b ↦ false
    | none ↦ partition_is_bootable (d.next_update_partition w) w
  ]

  unfoldable pub roll_back : Updater M → W → Bool × W
  roll_back u w = elim u.buffer [
    | some b ↦ (false, w)
    | none ↦
        let p = d.next_update_partition w in
        if partition_is_bootable p w then d.set_boot_partition p w else (false, w)
  ]

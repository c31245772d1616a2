-- ===== src/Update/Buffer.antt =====
-- libraries/Update/src/Updater.cpp: `_writeBuffer`, which moves the buffered sector to the flash.
use idf_custom_arduino.Base.{
  ℕ, Bool, true, false, ◌&&◌, none, some, [], ◌∷◌, ◌++◌, ◌==◌, if◌then◌else◌, take, get_or, set,
  slice, copy_into,
}
use idf_custom_arduino.Update.Device.{Device}
use idf_custom_arduino.Update.State.{
  Updater, bytes, add32, sub32, abort_with, report, update_error_write, update_error_erase,
  update_error_magic_byte, u_flash, spi_flash_sec_size, esp_image_header_magic,
  encrypted_block_size,
}

abbrev pub first_flash : {M : Type 0} → Updater M → Bool
first_flash u = u.progress == 0 && u.command == u_flash

module _ {W M : Type 0} (d : Device W M) where
  -- After a successful write: the magic byte is put back, the MD5 sum and the position advance.
  unfoldable pub advance : Updater M → Updater M
  unfolding report
  advance u =
      let block =
        if first_flash u then set (bytes u.buffer) 0 esp_image_header_magic else bytes u.buffer in
      let pos = add32 u.progress u.buffer_len in
      report pos u.size (record u {
        buffer = some block;
        md5 = d.md5_add u.md5 (take u.buffer_len block);
        progress = pos;
        buffer_len = 0;
      })

  -- The call of the progress callback before the first sector.
  unfoldable pub announce : Updater M → Updater M
  announce u = record u {
    reports =
        if u.progress == 0 && u.has_callback then u.reports ++ (0, u.size) ∷ [] else u.reports;
  }

  -- Erase the sector and write the buffer, but for its first `skip` bytes.
  unfoldable pub flush : ℕ → Updater M → W → Bool × Updater M × W
  unfolding advance announce report abort_with
  flush skip u w =
      let v = announce u in
      let (erased, w1) = d.erase_range v.partition v.progress spi_flash_sec_size w in
      let (written, w2) =
        d.partition_write v.partition (add32 v.progress skip)
          (slice skip (sub32 v.buffer_len skip) (bytes v.buffer)) w1 in
      if erased
      then (if written then (true, advance v, w2) else (false, abort_with update_error_write v, w2))
      else (false, abort_with update_error_erase v, w1)

  unfoldable pub write_buffer : Updater M → W → Bool × Updater M × W
  write_buffer u w =
      let (block, w1) = d.malloc encrypted_block_size w in
      if first_flash u
      then (if get_or (bytes u.buffer) 0 0 == esp_image_header_magic
          then elim block [
            | none ↦ (false, record u { skip_buffer = none }, w1)
            | some b ↦
                flush encrypted_block_size
                  (record u {
                    skip_buffer = some (copy_into b 0 (take encrypted_block_size (bytes u.buffer)));
                  })
                  w1
          ]
          else (false, abort_with update_error_magic_byte u, w))
      else flush 0 u w

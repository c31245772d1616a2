-- ===== src/Update/Write.antt =====
-- libraries/Update/src/Updater.cpp: `write`, which fills the buffer and flushes it when it is full
-- or holds the last bytes.
use idf_custom_arduino.Base.{
  ℕ, zero, suc, true, false, ◌||◌, not, Option, none, some, List, ltb, ◌==◌, if◌then◌else◌, length,
  slice, copy_into,
}
use idf_custom_arduino.Update.Device.{Device}
use idf_custom_arduino.Update.State.{
  Updater, bytes, add32, sub32, abort_with, has_error, is_running, remaining, update_error_space,
  spi_flash_sec_size,
}
use idf_custom_arduino.Update.Buffer.{write_buffer}

-- `memcpy(_buffer + _bufferLen, src, length src); _bufferLen += length src`
unfoldable pub fill : {M : Type 0} → Updater M → List ℕ → Updater M
fill u src = record u {
  buffer = some (copy_into (bytes u.buffer) u.buffer_len src);
  buffer_len = add32 u.buffer_len (length src);
}

-- How the loop of `write` is left: by the early return, or by its test.
pub data Loop (W M : Type 0) : Type 0 where
  returned : ℕ → Updater M → W → Loop W M
  finished : ℕ → Updater M → W → Loop W M

module _ {W M : Type 0} (d : Device W M) where
  -- `left` bytes of `src` are still to be buffered. `none` means that the fuel ran out.
  unfoldable pub write_loop : ℕ → List ℕ → ℕ → Updater M → W → Option (Loop W M)
  write_loop zero src left u w = none
  write_loop (suc fuel) src left u w = elim (ltb spi_flash_sec_size (add32 u.buffer_len left)) [
    | false ↦ some (finished left u w)
    | true ↦
        let to_buff = sub32 spi_flash_sec_size u.buffer_len in
        let (flushed, u', w') =
          write_buffer d (fill u (slice (sub32 (length src) left) to_buff src)) w in
        elim flushed [
          | true ↦ write_loop fuel src (sub32 left to_buff) u' w'
          | false ↦ some (returned (sub32 (length src) left) u' w')
        ]
  ]

  -- The bytes that no longer fill a sector.
  unfoldable pub write_rest : List ℕ → ℕ → Updater M → W → ℕ × Updater M × W
  unfolding fill
  write_rest src left u w =
      let u1 = fill u (slice (sub32 (length src) left) left src) in
      if u1.buffer_len == remaining u1
      then (let (flushed, u2, w2) = write_buffer d u1 w in
          if flushed then (length src, u2, w2) else (sub32 (length src) left, u2, w2))
      else (length src, u1, w)

  -- Enough fuel: each round but the first takes at least one byte.
  unfoldable pub write : Updater M → List ℕ → W → Option (ℕ × Updater M × W)
  unfolding write_loop write_rest abort_with
  write u src w =
      if has_error u || not (is_running u)
      then some (0, u, w)
      else if ltb (remaining u) (length src)
      then some (0, abort_with update_error_space u, w)
      else elim (write_loop (suc (suc (length src))) src (length src) u w) [
        | none ↦ none
        | some (returned n u' w') ↦ some (n, u', w')
        | some (finished left u' w') ↦ some (write_rest src left u' w')
      ]

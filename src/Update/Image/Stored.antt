-- ===== src/Update/Image/Stored.antt =====
-- The invariant of a running firmware update: which bytes of the image are where.
use idf_custom_arduino.Base.{ℕ, ◌+◌, ◌^◌, ◌≤◌, ◌<◌, ◌≡◌, Option, List, length, take, drop, get_or}
use idf_custom_arduino.Update.Device.{Partition, Device}
use idf_custom_arduino.Update.State.{Updater, bytes, update_error_ok, u_flash}

-- `image` is what the caller has written so far.
pub record Stored {W M : Type 0} (d : Device W M) (byte : W → Option Partition → ℕ → ℕ)
    (u : Updater M) (w : W) (image : List ℕ) : Type 0 where
  pub no_error : u.error ≡ update_error_ok
  pub is_flash : u.command ≡ u_flash
  pub big_enough : 16 ≤ u.size
  pub size_fits : u.size ≤ 2 ^ 31
  pub block : length (bytes u.buffer) ≡ 4096
  pub room : u.buffer_len ≤ 4096
  pub counted : u.progress + u.buffer_len ≡ length image
  pub within : length image ≤ u.size
  pub started : 0 < u.progress → 16 ≤ u.progress
  pub buffered : take u.buffer_len (bytes u.buffer) ≡ drop u.progress image
  pub written : (i : ℕ) → 16 ≤ i → i < u.progress → byte w u.partition i ≡ get_or image i 0
  -- The first block is held back, and its place is still erased.
  pub erased : (i : ℕ) → i < 16 → 0 < u.progress → byte w u.partition i ≡ 255
  pub stashed : 0 < u.progress → bytes u.skip_buffer ≡ take 16 image
  pub summed : u.md5 ≡ d.md5_add d.md5_begin (take u.progress image)

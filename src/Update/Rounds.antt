-- ===== src/Update/Rounds.antt =====
-- The loop of `write`, one round at a time.
use idf_custom_arduino.Base.{
  ℕ, suc, ◌+◌, ◌-◌, ◌^◌, ◌≤◌, ◌<◌, ◌≡◌, true, false, Option, none, some, List, arith, length, slice,
}
use idf_custom_arduino.Update.Device.{Device}
use idf_custom_arduino.Update.State.{Updater, sub32}
use idf_custom_arduino.Update.Buffer.{write_buffer}
use idf_custom_arduino.Update.Write.{fill, Loop, returned, finished, write_loop, write_rest, write}

pub buffer_len-fill :
    {M : Type 0} (u : Updater M) (src : List ℕ)
    → u.buffer_len + length src ≤ 4096
    → (fill u src).buffer_len ≡ u.buffer_len + length src
unfolding fill
buffer_len-fill u src h = omega arith

module _ {W M : Type 0} (d : Device W M) where
  -- One round of the loop.
  pub write_loop_more :
      (fuel : ℕ) (src : List ℕ) (left : ℕ) (u : Updater M) (w : W)
      → left ≤ length src
      → length src ≤ 2 ^ 31
      → u.buffer_len ≤ 4096
      → 4096 < u.buffer_len + left
      → let r = write_buffer d (fill u (slice (length src - left) (4096 - u.buffer_len) src)) w in
        (r.0 ≡ true
          → write_loop d (suc fuel) src left u w
            ≡ write_loop d fuel src (left - (4096 - u.buffer_len)) r.1 r.2)
        × (r.0 ≡ false
            → write_loop d (suc fuel) src left u w ≡ some (returned (length src - left) r.1 r.2))
  unfolding write_loop
  write_loop_more fuel src left u w ll small room more =
      let e1 : sub32 (length src) left ≡ length src - left = omega arith in
      let e2 : sub32 4096 u.buffer_len ≡ 4096 - u.buffer_len = omega arith in
      let e3 : sub32 left (4096 - u.buffer_len) ≡ left - (4096 - u.buffer_len) = omega arith in
      (λ h. ground (arith, e1, e2, e3, h), λ h. ground (arith, e1, e2, e3, h))

  pub write_loop_stop :
      (fuel : ℕ) (src : List ℕ) (left : ℕ) (u : Updater M) (w : W)
      → u.buffer_len + left ≤ 4096
      → write_loop d (suc fuel) src left u w ≡ some (finished left u w)
  unfolding write_loop
  write_loop_stop fuel src left u w h = ground arith

  abbrev pub rest_of : List ℕ → Option (Loop W M) → Option (ℕ × Updater M × W)
  rest_of src none = none
  rest_of src (some (returned n u w)) = some (n, u, w)
  rest_of src (some (finished left u w)) = some (write_rest d src left u w)

  pub write-running :
      (u : Updater M) (src : List ℕ) (w : W)
      → u.error ≡ 0
      → 0 < u.size
      → length src ≤ sub32 u.size u.progress
      → write d u src w ≡ rest_of src (write_loop d (suc (suc (length src))) src (length src) u w)
  unfolding write
  write-running u src w e r h = ground arith

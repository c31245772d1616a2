-- ===== src/Update/Safety.antt =====
-- Errors, termination and the limits of libraries/Update/src/Updater.cpp.
use native.Mathlib.Decide.{dec_lt}
use idf_custom_arduino.Base.{
  ℕ, zero, suc, ◌+◌, ◌-◌, ◌*◌, ◌^◌, ◌≤◌, ◌<◌, ◌≡◌, ◌≢◌, ◌⊎◌, refl, ap, ◌∙◌, inl, inr, Bool, true,
  false, Option, none, some, List, [], arith, length, take, take_all, slice, Bool-cases,
}
use idf_custom_arduino.Update.Device.{Partition, Device}
use idf_custom_arduino.Update.State.{Updater, bytes, abort_with, sub32}
use idf_custom_arduino.Update.Begin.{begin}
use idf_custom_arduino.Update.Buffer.{flush, write_buffer}
use idf_custom_arduino.Update.Write.{fill, write_loop, write_rest, write}
use idf_custom_arduino.Update.Rounds.{
  buffer_len-fill, write_loop_more, write_loop_stop, write-running, rest_of,
}
use idf_custom_arduino.Update.Finish.{
  end, check_md5, verify_end, enable_partition, partition_is_bootable,
}

module _ {W M : Type 0} (d : Device W M) where
  flush_empties :
      (skip : ℕ) (u : Updater M) (w : W)
      → (flush d skip u w).0 ≡ true
      → (flush d skip u w).1.buffer_len ≡ 0
  unfolding flush
  flush_empties skip u w e = ground arith

  -- A failure resets the object and sets an error.
  flush_fails :
      (skip : ℕ) (u : Updater M) (w : W)
      → (flush d skip u w).0 ≡ false
      → let v = (flush d skip u w).1 in
        (v.error ≢ 0) × (v.size ≡ 0) × (v.buffer ≡ none) × (v.buffer_len ≡ 0)
  unfolding flush
  flush_fails skip u w e = ground arith

  write_buffer_empties :
      (u : Updater M) (w : W)
      → (write_buffer d u w).0 ≡ true
      → (write_buffer d u w).1.buffer_len ≡ 0
  unfolding write_buffer
  write_buffer_empties u w e = grind (arith, flush_empties)

  pub write_buffer_fails :
      (u : Updater M) (w : W)
      → (write_buffer d u w).0 ≡ false
      → let v = (write_buffer d u w).1 in
        ((v.error ≢ 0) × (v.size ≡ 0) × (v.buffer ≡ none) × (v.buffer_len ≡ 0))
        ⊎ (((d.malloc 16 w).0 ≡ none) × (u.progress ≡ 0) × (v ≡ record u { skip_buffer = none }))
  unfolding write_buffer abort_with
  write_buffer_fails u w e = grind (arith, flush_fails)

  write_loop_total :
      (fuel : ℕ) (src : List ℕ) (left : ℕ) (u : Updater M) (w : W)
      → left ≤ length src
      → length src ≤ 2 ^ 31
      → u.buffer_len ≤ 4096
      → left + u.buffer_len < 4096 * fuel
      → write_loop d fuel src left u w ≢ none
  write_loop_total zero src left u w ll small room enough = absurd (omega arith)
  write_loop_total (suc fuel) src left u w ll small room enough =
      elim (dec_lt 4096 (u.buffer_len + left)) [
        | yes more ↦
            let (go, early) = write_loop_more d fuel src left u w ll small room more in
            elim (Bool-cases
              (write_buffer d (fill u (slice (length src - left) (4096 - u.buffer_len) src)) w).0) [
                | inl good ↦ rw (go good) (
                    write_loop_total fuel src (left - (4096 - u.buffer_len)) _ _ (omega arith) small
                      (omega (arith, write_buffer_empties _ w good))
                      (omega (arith, write_buffer_empties _ w good)))
                | inr bad ↦ rw (early bad) (λ e. cc)
              ]
        | no stop ↦ rw (write_loop_stop d fuel src left u w (omega arith)) (λ e. cc)
      ]

  -- The loop of write ends within its fuel for every chunk of at most 2^31 bytes and every
  -- behaviour of the platform, as long as the buffer holds at most one sector.
  pub write_total :
      (u : Updater M) (src : List ℕ) (w : W)
      → length src ≤ 2 ^ 31
      → u.buffer_len ≤ 4096
      → write d u src w ≢ none
  unfolding write
  write_total u src w small room = ground (
    arith,
    write_loop_total (suc (suc (length src))) src (length src) u w (omega arith) small room
        (omega arith),
  )

  pub failed_stays :
      (u : Updater M) (src : List ℕ) (even_if_remaining : Bool) (w : W)
      → (u.error ≢ 0) ⊎ (u.size ≡ 0)
      → (write d u src w ≡ some (0, u, w)) × (end d u even_if_remaining w ≡ (false, u, w))
  unfolding write end
  failed_stays u src even_if_remaining w (inl h) = (ground arith, ground arith)
  failed_stays u src even_if_remaining w (inr h) = (ground arith, ground arith)

  pub begin_fits :
      (u v : Updater M) (size command led_pin led_on : ℕ) (label : Option (List ℕ)) (w w' : W)
      (started : Bool)
      → begin d u size command led_pin led_on label w ≡ (started, v, w')
      → ((started ≡ true)
          × (u.size ≡ 0)
          × (v.error ≡ 0)
          × (v.buffer_len ≡ 0)
          × (v.progress ≡ 0)
          × (v.command ≡ command)
          × ((p : Partition) × (v.partition ≡ some p)
              × (v.size ≤ p.size)
              × ((v.size ≡ size) ⊎ ((size ≡ 0xffff_ffff) × (v.size ≡ p.size)))))
        ⊎ ((started ≡ false) × ((v ≡ u) ⊎ (v.size ≡ 0)))
  unfolding begin
  begin_fits u v size command led_pin led_on label w w' started e = ground arith

  fill_keeps :
      (u : Updater M) (src : List ℕ)
      → ((fill u src).size ≡ u.size) × ((fill u src).progress ≡ u.progress)
  unfolding fill
  fill_keeps u src = (refl, refl)

  rest_buffered :
      (u : Updater M) (src : List ℕ) (w : W)
      → u.size < u.progress + u.buffer_len + length src
      → length src ≤ u.size - u.progress
      → u.buffer_len + length src ≤ 4096
      → u.size < 2 ^ 31
      → u.progress < u.size
      → write_rest d src (length src) u w ≡ (length src, fill u src, w)
  unfolding write_rest
  rest_buffered u src w over accepted room fits running =
      let e : slice (sub32 (length src) (length src)) (length src) src ≡ src =
        rw zero_off (take_all (length src) src (omega arith)) in
      rw e (ground arith)
    where
      zero_off : sub32 (length src) (length src) ≡ 0
      zero_off = omega arith

  -- A chunk that is no longer than what the flash still lacks, and that still fits the buffer, is
  -- accepted whole although, with what the buffer already holds, it exceeds the announced size of
  -- less than 2^31; afterwards the object holds more bytes than were announced.
  pub write_overruns :
      (u : Updater M) (src : List ℕ) (w : W)
      → u.error ≡ 0
      → u.size < 2 ^ 31
      → u.progress < u.size
      → length src ≤ u.size - u.progress
      → u.size < u.progress + u.buffer_len + length src
      → u.buffer_len + length src ≤ 4096
      → (v : Updater M) × (write d u src w ≡ some (length src, v, w))
        × (v.size < v.progress + v.buffer_len)
  write_overruns u src w ok fits running accepted over room = (
    fill u src,
    write-running d u src w ok (omega arith) (omega arith)
        ∙ ap (rest_of d src) (write_loop_stop d (suc (length src)) src (length src) u w room)
        ∙ ap some (rest_buffered u src w over accepted room fits running),
    omega (arith, buffer_len-fill u src room, kept),
  )
    where
      kept : ((fill u src).size ≡ u.size) × ((fill u src).progress ≡ u.progress)
      kept = fill_keeps u src

  -- In the middle of an update with no expected MD5 sum, end(true) whose last sector cannot be
  -- erased still reports success and boots the partition, if the writing of the first block, the
  -- bootable check and the activation succeed.
  pub end_after_failed_flush :
      (u : Updater M) (w : W) (p : Partition)
      → u.error ≡ 0
      → 0 < u.size
      → 0 < u.progress
      → 0 < u.buffer_len
      → u.target_md5 ≡ []
      → u.partition ≡ some p
      → let (erased, w1) = d.erase_range (some p) u.progress 4096 w in
        let (enabled, w2) = d.partition_write (some p) 0 (take 16 (bytes u.skip_buffer)) w1 in
        let (activated, w3) = d.set_boot_partition (some p) w2 in
        erased ≡ false
        → enabled ≡ true
        → partition_is_bootable d (some p) w2 ≡ true
        → activated ≡ true
        → ((end d u true w).0 ≡ true) × ((end d u true w).2 ≡ w3)
  unfolding end write_buffer flush check_md5 verify_end enable_partition
  end_after_failed_flush u w p ok size pos some_left no_sum q e1 e2 e3 e4 = ground arith

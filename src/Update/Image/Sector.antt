-- ===== src/Update/Image/Sector.antt =====
-- `_writeBuffer` as a whole: a success keeps the invariant and empties the buffer.
use idf_custom_arduino.Base.{
  ℕ, ◌≤◌, ◌<◌, ◌≡◌, refl, ap, ◌∙◌, sym, inl, inr, Bool, true, Option, some, List, arith, length,
  length-take, get_or, take, drop, copy_into, take-take_le, copy_into_all,
}
use native.Mathlib.Decide.{dec_lt}
use idf_custom_arduino.Update.Device.{Partition, Device, IsFlash, IsStreaming}
use idf_custom_arduino.Update.State.{Updater, bytes, abort_with, report, u_flash}
use idf_custom_arduino.Update.Buffer.{announce, advance, flush, write_buffer}
use idf_custom_arduino.Update.Image.Stored.{Stored}
use idf_custom_arduino.Update.Image.WriteBuffer.{Ready, flush_cases, advance-Stored}

-- What stays as it was.
pub record Kept {M : Type 0} (u v : Updater M) : Type 0 where
  pub same_size : v.size ≡ u.size
  pub same_partition : v.partition ≡ u.partition
  pub same_target : v.target_md5 ≡ u.target_md5

module _ {W M : Type 0} {d : Device W M} {byte : W → Option Partition → ℕ → ℕ} (fl : IsFlash d byte)
    (md : IsStreaming d) (image : List ℕ) where
  -- A sector went to the flash.
  pub record Flushed (u v : Updater M) (w : W) : Type 0 where
    pub stored : Stored d byte v w image
    pub emptied : v.buffer_len ≡ 0
    pub kept : Kept u v

  flush-Flushed :
      (skip : ℕ) (u : Updater M) (w : W)
      → Stored d byte u w image
      → Ready fl md skip u w image
      → (flush d skip u w).0 ≡ true
      → Flushed u (flush d skip u w).1 (flush d skip u w).2
  unfolding advance announce report
  flush-Flushed skip u w s r e =
      elim (flush_cases fl md skip u w image r.skip_le s.room
        (omega (arith, s.counted, s.within, s.size_fits, r.skip_le))) [
          | inl (e1, e2, eq) ↦ rw eq (record {
            stored = advance-Stored fl md skip u w image s r e1 e2;
            emptied = refl;
            kept = record { same_size = refl; same_partition = refl; same_target = refl };
          })
          | inr (bad, _) ↦ cc
        ]

  flush_later :
      (u : Updater M) (w : W) → Stored d byte u w image → 0 < u.progress → Ready fl md 0 u w image
  flush_later u w s h = record {
    skip_le = omega arith;
    place = inr (h, refl);
    magic = λ z. absurd (omega arith);
    held = λ z. absurd (omega arith);
  }

  -- The same state, with the first block put aside.
  set_aside : (u : Updater M) (b : List ℕ) → Updater M
  set_aside u b = record u { skip_buffer = some (copy_into b 0 (take 16 (bytes u.buffer))) }

  set_aside-Stored :
      (u : Updater M) (b : List ℕ) (w w' : W)
      → u.progress ≡ 0
      → Stored d byte u w image
      → Stored d byte (set_aside u b) w' image
  unfolding set_aside
  set_aside-Stored u b w w' z s = record {
    no_error = s.no_error;
    is_flash = s.is_flash;
    big_enough = s.big_enough;
    size_fits = s.size_fits;
    block = s.block;
    room = s.room;
    counted = s.counted;
    within = s.within;
    started = s.started;
    buffered = s.buffered;
    written = λ i lo hi. absurd (omega arith);
    erased = λ i lo hi. absurd (omega arith);
    stashed = λ hi. absurd (omega arith);
    summed = s.summed;
  }

  set_aside-Ready :
      (u : Updater M) (b : List ℕ) (w w' : W)
      → u.progress ≡ 0
      → 16 ≤ u.buffer_len
      → length b ≡ 16
      → get_or (bytes u.buffer) 0 0 ≡ 0xe9
      → Stored d byte u w image
      → Ready fl md 16 (set_aside u b) w' image
  unfolding set_aside
  set_aside-Ready u b w w' z big lb mg s = record {
    skip_le = big;
    place = inl (z, refl);
    magic = λ _. mg;
    held = λ _. stashed;
  }
    where
      short : take 16 (bytes u.buffer) ≡ take 16 image
      short =
          sym (take-take_le 16 u.buffer_len (bytes u.buffer) big)
          ∙ ap (take 16) (s.buffered ∙ ap (λ k. drop k image) z)

      stashed : copy_into b 0 (take 16 (bytes u.buffer)) ≡ take 16 image
      stashed =
          copy_into_all b (take 16 (bytes u.buffer))
            (omega (arith, lb, s.block, length-take 16 (bytes u.buffer)))
          ∙ short

  write_buffer_later : (u : Updater M) (w : W) → 0 < u.progress → write_buffer d u w ≡ flush d 0 u w
  unfolding write_buffer
  write_buffer_later u w h = ground arith

  -- The first sector: the magic byte is right, and the block for the first bytes was allocated.
  write_buffer_first :
      (u : Updater M) (w : W)
      → u.progress ≡ 0
      → u.command ≡ u_flash
      → (write_buffer d u w).0 ≡ true
      → (b : List ℕ) × ((d.malloc 16 w).0 ≡ some b)
        × (get_or (bytes u.buffer) 0 0 ≡ 0xe9)
        × (write_buffer d u w ≡ flush d 16 (set_aside u b) (d.malloc 16 w).1)
  unfolding write_buffer set_aside abort_with
  write_buffer_first u w z c e = ground arith

  set_aside-Flushed :
      (u : Updater M) (b : List ℕ) (r : Bool × Updater M × W)
      → Flushed (set_aside u b) r.1 r.2
      → Flushed u r.1 r.2
  unfolding set_aside
  set_aside-Flushed u b r f = record {
    stored = f.stored;
    emptied = f.emptied;
    kept = record {
      same_size = f.kept.same_size;
      same_partition = f.kept.same_partition;
      same_target = f.kept.same_target;
    };
  }

  -- `_writeBuffer` moves the buffer to the flash, if it reports a success.
  pub write_buffer-Flushed :
      (u : Updater M) (w : W)
      → Stored d byte u w image
      → (u.progress ≡ 0 → 16 ≤ u.buffer_len)
      → (write_buffer d u w).0 ≡ true
      → Flushed u (write_buffer d u w).1 (write_buffer d u w).2
  write_buffer-Flushed u w s big e = elim (dec_lt 0 u.progress) [
    | yes p ↦
        let eq = write_buffer_later u w p in
        rw eq (flush-Flushed 0 u w s (flush_later u w s p) (rw eq at e))
    | no np ↦
        let z : u.progress ≡ 0 = omega arith in
        let (b, mb, mg, eq) = write_buffer_first u w z s.is_flash e in
        rw eq (
          set_aside-Flushed u b (flush d 16 (set_aside u b) (d.malloc 16 w).1) (
            flush-Flushed 16 (set_aside u b) (d.malloc 16 w).1
              (set_aside-Stored u b w (d.malloc 16 w).1 z s)
              (set_aside-Ready u b w (d.malloc 16 w).1 z (big z) (fl.malloc_length 16 w b mb) mg s)
              (rw eq at e)))
  ]

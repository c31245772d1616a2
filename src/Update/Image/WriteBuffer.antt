-- ===== src/Update/Image/WriteBuffer.antt =====
-- `_writeBuffer` keeps the invariant, or sets an error.
use idf_custom_arduino.Base.{
  ℕ, ◌+◌, ◌-◌, ◌^◌, ◌≤◌, ◌<◌, ◌≡◌, ◌≢◌, ◌⊎◌, refl, inl, inr, ap, subst, if◌then◌else◌, ◌∙◌, sym,
  inl, inr, true, false, Option, List, [], ◌∷◌, arith, length, length-take, length-drop, get_or,
  get_or-take, get_or-drop, slice, take, drop, set, take-append-drop, take_all, drop_all,
}
use native.Mathlib.Decide.{dec_lt}
use idf_custom_arduino.Update.Device.{Partition, Device, IsFlash, IsStreaming}
use idf_custom_arduino.Update.State.{Updater, bytes, sub32, add32, abort_with, report}
use idf_custom_arduino.Update.Buffer.{announce, advance, flush, first_flash}
use idf_custom_arduino.Update.Image.Stored.{Stored}
use idf_custom_arduino.Update.Image.Flush.{
  erased_state, written_state, below_sector, held_back, in_sector,
}

set-get_or : (xs : List ℕ) (v : ℕ) → get_or xs 0 0 ≡ v → v ≢ 0 → set xs 0 v ≡ xs
set-get_or [] v e h = refl
set-get_or (x ∷ xs) v e h = ap (λ k. k ∷ xs) (sym e)

module _ {W M : Type 0} {d : Device W M} {byte : W → Option Partition → ℕ → ℕ} (fl : IsFlash d byte)
    (md : IsStreaming d) (skip : ℕ) (u : Updater M) (w : W) (image : List ℕ) where
  abbrev pub payload : List ℕ
  payload = slice skip (u.buffer_len - skip) (bytes u.buffer)

  -- Both calls of the platform succeeded, or an error is set.
  pub flush_cases :
      skip ≤ u.buffer_len
      → u.buffer_len ≤ 4096
      → u.progress + skip < 2 ^ 32
      → (((d.erase_range u.partition u.progress 4096 w).0 ≡ true)
          × ((d.partition_write u.partition
                (u.progress + skip)
                payload
                (erased_state fl u.partition u.progress skip payload w)).0
              ≡ true)
          × (flush d skip u w ≡ (
            true,
            advance d (announce d u),
            written_state fl u.partition u.progress skip payload w,
          )))
        ⊎ (((flush d skip u w).0 ≡ false) × ((flush d skip u w).1.error ≢ 0))
  unfolding flush abort_with announce
  flush_cases h1 h2 h3 =
      let e1 : sub32 u.buffer_len skip ≡ u.buffer_len - skip = omega arith in
      let e2 : add32 u.progress skip ≡ u.progress + skip = omega arith in rw (e1, e2) (ground arith)

  -- What `flush` needs of the invariant, for the first sector of an image and for the others.
  pub record Ready : Type 0 where
    pub skip_le : skip ≤ u.buffer_len
    pub place : ((u.progress ≡ 0) × (skip ≡ 16)) ⊎ ((0 < u.progress) × (skip ≡ 0))
    pub magic : u.progress ≡ 0 → get_or (bytes u.buffer) 0 0 ≡ 0xe9
    pub held : u.progress ≡ 0 → bytes u.skip_buffer ≡ take 16 image

  module _ (s : Stored d byte u w image) (r : Ready) where
    get_or-payload :
        (j : ℕ)
        → j < u.buffer_len - skip
        → get_or payload j 0 ≡ get_or image (u.progress + skip + j) 0
    get_or-payload j h =
        get_or-take (u.buffer_len - skip) (drop skip (bytes u.buffer)) j 0 h
        ∙ get_or-drop skip (bytes u.buffer) j 0
        ∙ sym (get_or-take u.buffer_len (bytes u.buffer) (skip + j) 0 (omega arith))
        ∙ ap (λ xs. get_or xs (skip + j) 0) s.buffered
        ∙ get_or-drop u.progress image (skip + j) 0
        ∙ ap (λ k. get_or image k 0) (omega arith)

    length-payload : length payload ≡ u.buffer_len - skip
    length-payload = omega (
      arith,
      length-take (u.buffer_len - skip) (drop skip (bytes u.buffer)),
      length-drop skip (bytes u.buffer),
      s.block,
      s.room,
      r.skip_le,
    )

    restored :
        (if first_flash u then set (bytes u.buffer) 0 0xe9 else bytes u.buffer) ≡ bytes u.buffer
    restored = ground (arith, set-get_or (bytes u.buffer) 0xe9, r.magic)

    flushed_sum : d.md5_add u.md5 (take u.buffer_len (bytes u.buffer)) ≡ d.md5_add d.md5_begin image
    flushed_sum =
        rw (s.buffered, s.summed, md.add_more)
          (ap (d.md5_add d.md5_begin) (take-append-drop u.progress image))

    flushed_bytes :
        (d.erase_range u.partition u.progress 4096 w).0 ≡ true
        → (d.partition_write u.partition
            (u.progress + skip)
            payload
            (erased_state fl u.partition u.progress skip payload w)).0
          ≡ true
        → (i : ℕ) → 16 ≤ i
        → i < length image
        → byte (written_state fl u.partition u.progress skip payload w) u.partition i
          ≡ get_or image i 0
    flushed_bytes e1 e2 i lo hi = elim (dec_lt i u.progress) [
      | yes old ↦ below_sector fl u.partition u.progress skip payload w i old ∙ s.written i lo old
      | no new ↦
          subst
            (λ k.
              byte (written_state fl u.partition u.progress skip payload w) u.partition k
              ≡ get_or image k 0)
            {x = u.progress + skip + (i - (u.progress + skip))} (omega (arith, r.place))
            (in_sector fl u.partition u.progress skip payload w (i - (u.progress + skip)) e1 e2
                (omega (arith, length-payload, s.room, r.skip_le))
                (omega (arith, length-payload, s.counted, r.place))
              ∙ get_or-payload (i - (u.progress + skip)) (omega (arith, s.counted, r.place)))
    ]

    image_long : 16 ≤ length image
    image_long = elim r.place [
      | inl (z, k) ↦ omega (arith, s.counted, r.skip_le)
      | inr (pos, _) ↦ omega (arith, s.counted, s.started pos)
    ]

    still_erased :
        (i : ℕ)
        → i < 16
        → (d.erase_range u.partition u.progress 4096 w).0 ≡ true
        → byte (written_state fl u.partition u.progress skip payload w) u.partition i ≡ 255
    still_erased i h e1 = elim r.place [
      | inl (z, k) ↦
          held_back fl u.partition u.progress skip payload w i e1 (omega arith) (omega arith)
            (omega arith)
      | inr (pos, _) ↦
          below_sector fl u.partition u.progress skip payload w i (omega (arith, s.started pos))
          ∙ s.erased i h pos
    ]

    stash : bytes u.skip_buffer ≡ take 16 image
    stash = elim r.place [ inl (z, _) ↦ r.held z | inr (pos, _) ↦ s.stashed pos ]

    -- The invariant after a sector has gone to the flash.
    pub advance-Stored :
        (d.erase_range u.partition u.progress 4096 w).0 ≡ true
        → (d.partition_write u.partition
            (u.progress + skip)
            payload
            (erased_state fl u.partition u.progress skip payload w)).0
          ≡ true
        → Stored d byte
            (advance d (announce d u))
            (written_state fl u.partition u.progress skip payload w)
            image
    unfolding advance announce report
    advance-Stored e1 e2 =
        let pos : add32 u.progress u.buffer_len ≡ length image =
          omega (arith, s.counted, s.within, s.size_fits) in
        record {
          no_error = s.no_error;
          is_flash = s.is_flash;
          big_enough = s.big_enough;
          size_fits = s.size_fits;
          block = rw restored s.block;
          room = omega arith;
          counted = omega (arith, pos);
          within = s.within;
          started = λ h. rw pos image_long;
          buffered = rw pos (sym (drop_all (length image) image (omega arith)));
          written = λ i lo hi. flushed_bytes e1 e2 i lo (omega (arith, pos, hi));
          erased = λ i h _. still_erased i h e1;
          stashed = λ h. stash;
          summed =
              rw (restored, pos)
                (flushed_sum
                  ∙ ap (d.md5_add d.md5_begin) (sym (take_all (length image) image (omega arith))));
        }

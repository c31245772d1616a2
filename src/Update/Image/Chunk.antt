-- ===== src/Update/Image/Chunk.antt =====
-- `write` keeps the invariant: the image grows by exactly the bytes that it is given.
use native.Mathlib.Decide.{dec_lt}
use idf_custom_arduino.Base.{
  ℕ, zero, suc, ◌+◌, ◌-◌, ◌*◌, ◌^◌, ◌≤◌, ◌<◌, ◌≡◌, ◌⊎◌, refl, ap, subst, ◌∙◌, sym, inl, inr, true,
  Option, none, some, List, ◌++◌, arith, length, length-append, length-take, length-drop, slice,
  take, drop, take-copy_into, length-copy_into, take_all, Bool-cases, append_assoc, append-nil,
  drop-append_le, take-append_le, get_or-append_lt, take-append-slice,
}
use idf_custom_arduino.Update.Device.{Partition, Device, IsFlash, IsStreaming}
use idf_custom_arduino.Update.State.{Updater, bytes, sub32, add32}
use idf_custom_arduino.Update.Buffer.{write_buffer}
use idf_custom_arduino.Update.Write.{fill, Loop, returned, finished, write_loop, write_rest, write}
use idf_custom_arduino.Update.Rounds.{
  buffer_len-fill, write_loop_more, write_loop_stop, write-running, rest_of,
}
use idf_custom_arduino.Update.Image.Stored.{Stored}
use idf_custom_arduino.Update.Image.Sector.{Kept, Flushed, write_buffer-Flushed}

module _ {W M : Type 0} {d : Device W M} {byte : W → Option Partition → ℕ → ℕ} (fl : IsFlash d byte)
    (md : IsStreaming d) where
  fill-Stored :
      (u : Updater M) (w : W) (image src : List ℕ)
      → Stored d byte u w image
      → u.buffer_len + length src ≤ 4096
      → length image + length src ≤ u.size
      → Stored d byte (fill u src) w (image ++ src)
  unfolding fill
  fill-Stored u w image src s fits within = record {
    no_error = s.no_error;
    is_flash = s.is_flash;
    big_enough = s.big_enough;
    size_fits = s.size_fits;
    block = rw (length-copy_into (bytes u.buffer) u.buffer_len src) s.block;
    room = omega arith;
    counted = omega (arith, s.counted, length-append image src, s.size_fits);
    within = omega (arith, length-append image src);
    started = s.started;
    buffered = rw (grown) (
        take-copy_into (u.buffer_len + length src) (bytes u.buffer) u.buffer_len src refl
          (omega (arith, s.block))
        ∙ ap (λ xs. xs ++ src) s.buffered
        ∙ sym (drop-append_le u.progress image src (omega (arith, s.counted))));
    written = λ i lo hi.
        s.written i lo hi ∙ sym (get_or-append_lt image src i 0 (omega (arith, s.counted)));
    erased = s.erased;
    stashed = λ h.
        s.stashed h ∙ sym (take-append_le 16 image src (omega (arith, s.started h, s.counted)));
    summed =
        s.summed
        ∙ ap (d.md5_add d.md5_begin)
            (sym (take-append_le u.progress image src (omega (arith, s.counted))));
  }
    where
      grown : add32 u.buffer_len (length src) ≡ u.buffer_len + length src
      grown = omega (arith, s.room)

  Kept-trans : (u v x : Updater M) → Kept u v → Kept v x → Kept u x
  Kept-trans u v x a b = record {
    same_size = b.same_size ∙ a.same_size;
    same_partition = b.same_partition ∙ a.same_partition;
    same_target = b.same_target ∙ a.same_target;
  }

  -- The state of the loop of `write` when it is left by its test.
  record Filled (u : Updater M) (image src : List ℕ) (left : ℕ) (v : Updater M) (w : W)
      : Type 0 where
    pos_left : 0 < left
    left_le : left ≤ length src
    stored : Stored d byte v w (image ++ take (length src - left) src)
    fits : v.buffer_len + left ≤ 4096
    kept : Kept u v

  -- What the loop promises: it ends, an early return reports less than the whole chunk, and a
  -- regular end leaves the invariant.
  abbrev FilledAt : Updater M → List ℕ → List ℕ → Option (Loop W M) → Type 0
  FilledAt u image src none = ⊥
  FilledAt u image src (some (returned n v w)) = n < length src
  FilledAt u image src (some (finished left v w)) = Filled u image src left v w

  FilledAt-trans :
      (u v : Updater M) (image src : List ℕ) (o : Option (Loop W M))
      → Kept u v
      → FilledAt v image src o
      → FilledAt u image src o
  FilledAt-trans u v image src none k f = f
  FilledAt-trans u v image src (some (returned n x w)) k f = f
  FilledAt-trans u v image src (some (finished left x w)) k f = record {
    pos_left = f.pos_left;
    left_le = f.left_le;
    stored = f.stored;
    fits = f.fits;
    kept = Kept-trans u v x k f.kept;
  }

  Kept-fill : (u : Updater M) (src : List ℕ) → Kept u (fill u src)
  unfolding fill
  Kept-fill u src = record { same_size = refl; same_partition = refl; same_target = refl }

  -- A full buffer goes to the flash.
  round-Flushed :
      (image src : List ℕ) (left : ℕ) (u : Updater M) (w : W)
      → left ≤ length src
      → length image + length src ≤ u.size
      → 4096 < u.buffer_len + left
      → Stored d byte u w (image ++ take (length src - left) src)
      → let r = write_buffer d (fill u (slice (length src - left) (4096 - u.buffer_len) src)) w in
        r.0 ≡ true
        → Flushed fl md
            (image ++ take (length src - (left - (4096 - u.buffer_len))) src)
            (fill u (slice (length src - left) (4096 - u.buffer_len) src))
            r.1
            r.2
  round-Flushed image src left u w ll le more s e =
      write_buffer-Flushed fl md _ _ w
        (subst (Stored d byte _ w) grown (
          fill-Stored u w _ chunk s (omega (arith, len, s.room)) (
            omega (
              arith,
              len,
              s.room,
              length-append image (take (length src - left) src),
              length-take (length src - left) src,
            ))))
        (λ _. full) e
    where
      chunk : List ℕ
      chunk = slice (length src - left) (4096 - u.buffer_len) src

      len : length chunk ≡ 4096 - u.buffer_len
      len = omega (
        arith,
        s.room,
        length-take (4096 - u.buffer_len) (drop (length src - left) src),
        length-drop (length src - left) src,
      )

      grown :
          (image ++ take (length src - left) src) ++ chunk
          ≡ image ++ take (length src - (left - (4096 - u.buffer_len))) src
      grown =
          append_assoc image _ _
          ∙ ap (λ xs. image ++ xs)
              (take-append-slice (length src - left) (4096 - u.buffer_len) _ src
                (omega (arith, s.room)))

      full : 16 ≤ (fill u chunk).buffer_len
      full = omega (arith, len, s.room, buffer_len-fill u chunk)

  write_loop-FilledAt :
      (fuel : ℕ) (image src : List ℕ) (left : ℕ) (u : Updater M) (w : W)
      → 0 < left
      → left ≤ length src
      → length image + length src ≤ u.size
      → left + u.buffer_len ≤ 4096 * fuel
      → Stored d byte u w (image ++ take (length src - left) src)
      → FilledAt u image src (write_loop d fuel src left u w)
  write_loop-FilledAt zero image src left u w pl ll le enough s = absurd (omega arith)
  write_loop-FilledAt (suc fuel) image src left u w pl ll le enough s =
      elim (dec_lt 4096 (u.buffer_len + left)) [
        | yes more ↦
            let (go, stop) =
              write_loop_more d fuel src left u w ll (omega (arith, s.size_fits)) s.room more in
            elim (Bool-cases
              (write_buffer d (fill u (slice (length src - left) (4096 - u.buffer_len) src)) w).0) [
                | inl ok ↦
                    let f = round-Flushed image src left u w ll le more s ok in
                    let k = Kept-trans u _ _ (Kept-fill u _) f.kept in
                    rw (go ok) (
                      FilledAt-trans u _ image src _ k (
                        write_loop-FilledAt fuel image src (left - (4096 - u.buffer_len)) _ _
                          (omega (arith, s.room)) (omega arith) (omega (arith, k.same_size))
                          (omega (arith, f.emptied, s.room)) f.stored))
                | inr bad ↦ rw (stop bad) (omega arith)
              ]
        | no stop ↦ rw (write_loop_stop d fuel src left u w (omega arith)) (record {
          pos_left = pl;
          left_le = ll;
          stored = s;
          fits = omega arith;
          kept = record { same_size = refl; same_partition = refl; same_target = refl };
        })
      ]

  -- The bytes behind the last full sector: a success of `write` is one of `_writeBuffer`, if the
  -- buffer then holds all that is missing.
  write_rest_cases :
      (src : List ℕ) (left : ℕ) (u : Updater M) (w : W)
      → 0 < left
      → left ≤ length src
      → length src ≤ 2 ^ 31
      → (write_rest d src left u w).0 ≡ length src
      → let v = fill u (slice (length src - left) left src) in
        ((write_rest d src left u w ≡ (length src, v, w)))
        ⊎ (((write_buffer d v w).0 ≡ true)
            × (v.buffer_len ≡ sub32 v.size v.progress)
            × (write_rest d src left u w
                ≡ (length src, (write_buffer d v w).1, (write_buffer d v w).2)))
  unfolding write_rest
  write_rest_cases src left u w pl ll small e =
      let e1 : sub32 (length src) left ≡ length src - left = omega arith in ground (arith, e1)

  write_rest-Stored :
      (image src : List ℕ) (left : ℕ) (u v : Updater M) (w : W)
      → length image + length src ≤ u.size
      → Filled u image src left v w
      → let r = write_rest d src left v w in
        r.0 ≡ length src → Stored d byte r.1 r.2 (image ++ src) × Kept u r.1
  write_rest-Stored image src left u v w le f e =
      elim (write_rest_cases src left v w f.pos_left f.left_le
        (omega (arith, f.stored.size_fits, f.kept.same_size)) e) [
          | inl eq ↦ rw eq (filled, Kept-trans u v _ f.kept (Kept-fill v _))
          | inr (ok, last, eq) ↦ rw eq (
              let g =
                write_buffer-Flushed fl md (image ++ src) (fill v chunk) w filled
                  (λ z. omega (arith, last, z, filled.big_enough, filled.size_fits)) ok in
              (
                g.stored,
                Kept-trans u (fill v chunk) _
                    (Kept-trans u v (fill v chunk) f.kept (Kept-fill v chunk)) g.kept,
              ))
        ]
    where
      chunk : List ℕ
      chunk = slice (length src - left) left src

      len : length chunk ≡ left
      len = omega (
        arith,
        f.left_le,
        length-take left (drop (length src - left) src),
        length-drop (length src - left) src,
      )

      grown : (image ++ take (length src - left) src) ++ chunk ≡ image ++ src
      grown =
          append_assoc image _ _
          ∙ ap (λ xs. image ++ xs)
              (take-append-slice (length src - left) left (length src) src
                  (omega (arith, f.left_le))
                ∙ take_all (length src) src (omega arith))

      filled : Stored d byte (fill v chunk) w (image ++ src)
      filled = subst (Stored d byte (fill v chunk) w) grown (
          fill-Stored v w _ chunk f.stored (omega (arith, len, f.fits)) (
            omega (
              arith,
              len,
              f.left_le,
              f.kept.same_size,
              length-append image (take (length src - left) src),
              length-take (length src - left) src,
            )))

  -- What `write` promises: it ends, and if it reports the whole chunk, the invariant holds of the
  -- longer image.
  abbrev pub WroteAt : Updater M → List ℕ → List ℕ → Option (ℕ × Updater M × W) → Type 0
  WroteAt u image src none = ⊥
  WroteAt u image src (some (n, v, w)) =
      n ≡ length src → Stored d byte v w (image ++ src) × Kept u v

  rest_of-WroteAt :
      (u : Updater M) (image src : List ℕ) (o : Option (Loop W M))
      → length image + length src ≤ u.size
      → FilledAt u image src o
      → WroteAt u image src (rest_of d src o)
  rest_of-WroteAt u image src none le f = f
  rest_of-WroteAt u image src (some (returned n v w)) le f = λ e. absurd (omega arith)
  rest_of-WroteAt u image src (some (finished left v w)) le f =
      λ e. write_rest-Stored image src left u v w le f e

  pub write-WroteAt :
      (u : Updater M) (image src : List ℕ) (w : W)
      → 0 < length src
      → length image + length src ≤ u.size
      → Stored d byte u w image
      → WroteAt u image src (write d u src w)
  write-WroteAt u image src w pos le s =
      rw
        (write-running d u src w s.no_error (omega (arith, s.big_enough))
          (omega (arith, s.counted, s.size_fits)))
        (rest_of-WroteAt u image src _ le (
          write_loop-FilledAt (suc (suc (length src))) image src (length src) u w pos (omega arith)
            le (omega (arith, s.room))
            (subst (Stored d byte u w)
              (sym (ap (λ k. image ++ take k src) none_yet ∙ append-nil image)) s)))
    where
      none_yet : length src - length src ≡ 0
      none_yet = omega arith

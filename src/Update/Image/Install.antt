-- ===== src/Update/Image/Install.antt =====
-- A whole update: `begin`, any number of `write`s, `end`.
use native.Mathlib.Decide.{dec_lt}
use idf_custom_arduino.Base.{
  ℕ, ◌+◌, ◌^◌, ◌≤◌, ◌<◌, ◌≡◌, ◌⊎◌, refl, ap, subst, ◌∙◌, sym, inl, inr, true, false, Option, none,
  some, List, [], ◌∷◌, ◌++◌, arith, length, length-take, take, get_or, get_or-take, take_all,
  take-take_le, Option-cases, bytes_eq_sound, ◌==◌,
}
use idf_custom_arduino.Update.Device.{Partition, Device, IsFlash, IsStreaming}
use idf_custom_arduino.Update.State.{Updater, bytes, u_flash, set_md5}
use idf_custom_arduino.Update.Begin.{begin}
use idf_custom_arduino.Update.Write.{write}
use idf_custom_arduino.Update.Finish.{
  end, check_md5, verify_end, enable_partition, partition_is_bootable,
}
use idf_custom_arduino.Update.Image.Stored.{Stored}
use idf_custom_arduino.Update.Image.Chunk.{WroteAt, write-WroteAt}

-- The calls of a client that announces `size` bytes of firmware, writes at most as many, each `write`
-- accepted in full, and may say which MD5 sum it expects. `image` is what it has written, `u` and `w`
-- the state after it.
pub data Session {W M : Type 0} (d : Device W M) : List ℕ → Updater M → W → Type 0 where
  begun :
      (u₀ u : Updater M) (size led_pin led_on : ℕ) (label : Option (List ℕ)) (w₀ w : W)
      (image : List ℕ)
      → begin d u₀ size u_flash led_pin led_on label w₀ ≡ (true, u, w)
      → 16 ≤ u.size
      → u.size ≤ 2 ^ 31
      → image ≡ []
      → Session d image u w
  wrote :
      (u v : Updater M) (w w' : W) (image src image' : List ℕ)
      → Session d image u w
      → 0 < length src
      → length image + length src ≤ u.size
      → write d u src w ≡ some (length src, v, w')
      → image' ≡ image ++ src
      → Session d image' v w'
  expecting :
      (u v : Updater M) (w : W) (image digest : List ℕ)
      → Session d image u w
      → set_md5 u digest ≡ (true, v)
      → Session d image v w

-- The MD5 sum that was asked for last; none is empty.
abbrev pub asked :
    {W M : Type 0} {d : Device W M} {image : List ℕ} {u : Updater M} {w : W}
    → Session d image u w
    → List ℕ
asked (begun u₀ u size led_pin led_on label w₀ w image e lo hi z) = []
asked (wrote u v w w' image src image' s pos le e q) = asked s
asked (expecting u v w image digest s e) = digest

module _ {W M : Type 0} {d : Device W M} {byte : W → Option Partition → ℕ → ℕ} (fl : IsFlash d byte)
    (md : IsStreaming d) where
  begin_started :
      (u₀ u : Updater M) (size led_pin led_on : ℕ) (label : Option (List ℕ)) (w₀ w : W)
      → begin d u₀ size u_flash led_pin led_on label w₀ ≡ (true, u, w)
      → (b : List ℕ) × ((d.malloc 4096 w₀).0 ≡ some b)
        × (u.buffer ≡ some b)
        × (u.error ≡ 0)
        × (u.command ≡ u_flash)
        × (u.progress ≡ 0)
        × (u.buffer_len ≡ 0)
        × (u.md5 ≡ d.md5_begin)
        × (u.target_md5 ≡ [])
  unfolding begin
  begin_started u₀ u size led_pin led_on label w₀ w e = ground arith

  begin-Stored :
      (u₀ u : Updater M) (size led_pin led_on : ℕ) (label : Option (List ℕ)) (w₀ w : W)
      → begin d u₀ size u_flash led_pin led_on label w₀ ≡ (true, u, w)
      → 16 ≤ u.size
      → u.size ≤ 2 ^ 31
      → Stored d byte u w []
  begin-Stored u₀ u size led_pin led_on label w₀ w e lo hi =
      let (b, mb, ub, er, co, pr, bl, mm, _) =
        begin_started u₀ u size led_pin led_on label w₀ w e in
      record {
        no_error = er;
        is_flash = co;
        big_enough = lo;
        size_fits = hi;
        block = rw ub (fl.malloc_length 4096 w₀ b mb);
        room = omega arith;
        counted = omega arith;
        within = omega arith;
        started = λ h. absurd (omega arith);
        buffered = rw (bl, pr);
        written = λ i l h. absurd (omega arith);
        erased = λ i l h. absurd (omega arith);
        stashed = λ h. absurd (omega arith);
        summed = rw (mm, pr) (sym (md.add_nothing d.md5_begin));
      }

  expecting-Stored :
      (u v : Updater M) (w : W) (image digest : List ℕ)
      → set_md5 u digest ≡ (true, v)
      → Stored d byte u w image
      → Stored d byte v w image × (v.target_md5 ≡ digest)
  unfolding set_md5
  expecting-Stored u v w image digest e s =
      subst (λ x. Stored d byte x w image × (x.target_md5 ≡ digest)) same
        (
          record {
            no_error = s.no_error;
            is_flash = s.is_flash;
            big_enough = s.big_enough;
            size_fits = s.size_fits;
            block = s.block;
            room = s.room;
            counted = s.counted;
            within = s.within;
            started = s.started;
            buffered = s.buffered;
            written = s.written;
            erased = s.erased;
            stashed = s.stashed;
            summed = s.summed;
          },
          refl,
        )
    where
      same : record u { target_md5 = digest } ≡ v
      same = ground (arith, e)

  -- The invariant holds all through a session, and the expected sum is the one asked for.
  Session-inv :
      {image : List ℕ} {u : Updater M} {w : W}
      → (s : Session d image u w) → Stored d byte u w image × (u.target_md5 ≡ asked s)
  Session-inv (begun u₀ u size led_pin led_on label w₀ w image e lo hi z) = (
    subst (Stored d byte u w) (sym z) (begin-Stored u₀ u size led_pin led_on label w₀ w e lo hi),
    (begin_started u₀ u size led_pin led_on label w₀ w e).8,
  )
  Session-inv (wrote u v w w' image src image' s pos le e q) =
      let inv = Session-inv s in
      let step =
        (subst (WroteAt fl md u image src) e (write-WroteAt fl md u image src w pos le inv.0))
          refl in
      (subst (Stored d byte v w') (sym q) step.0, step.1.same_target ∙ inv.1)
  Session-inv (expecting u v w image digest s e) =
      expecting-Stored u v w image digest e (Session-inv s).0

  pub Session-Stored :
      {image : List ℕ} {u : Updater M} {w : W} → Session d image u w → Stored d byte u w image
  Session-Stored s = (Session-inv s).0

  end_inv :
      (u v : Updater M) (w w' : W)
      → end d u false w ≡ (true, v, w')
      → (u.progress ≡ u.size) × (check_md5 d u w ≡ (true, v, w'))
  unfolding end
  end_inv u v w w' e = ground arith

  no_target : (xs : List ℕ) → (length xs == 0) ≡ true → xs ≡ []
  no_target [] h = refl
  no_target (x ∷ xs) h = absurd (ground arith)

  check_md5_inv :
      (u v : Updater M) (w w' : W)
      → check_md5 d u w ≡ (true, v, w')
      → ((u.target_md5 ≡ []) ⊎ (u.target_md5 ≡ d.md5_string u.md5))
        × (verify_end d u w ≡ (true, v, w'))
  unfolding check_md5
  check_md5_inv u v w w' e =
      ground (arith, no_target u.target_md5, bytes_eq_sound u.target_md5 (d.md5_string u.md5))

  -- The success of `_verifyEnd`: the first block was written and the partition made the boot one.
  verify_end_inv :
      (u v : Updater M) (w w' : W)
      → u.command ≡ u_flash
      → verify_end d u w ≡ (true, v, w')
      → let xs = take 16 (bytes u.skip_buffer) in
        (p : Partition) × (u.partition ≡ some p)
        × ((d.partition_write (some p) 0 xs w).0 ≡ true)
        × ((d.set_boot_partition (some p) (d.partition_write (some p) 0 xs w).1).0 ≡ true)
        × (w' ≡ (d.set_boot_partition (some p) (d.partition_write (some p) 0 xs w).1).1)
  unfolding verify_end enable_partition
  verify_end_inv u v w w' c e = ground arith

  head_written :
      (u : Updater M) (w : W) (image : List ℕ) (p : Option Partition)
      → Stored d byte u w image
      → 0 < u.progress
      → u.partition ≡ p
      → let xs = take 16 (bytes u.skip_buffer) in
        (d.partition_write p 0 xs w).0 ≡ true
        → (i : ℕ) → i < u.progress
        → byte (d.partition_write p 0 xs w).1 p i ≡ get_or image i 0
  head_written u w image p s started q ok i h = elim (dec_lt i 16) [
    | yes head ↦
        subst (λ k. byte (d.partition_write p 0 xs w).1 p k ≡ get_or image i 0) {x = 0 + i}
          (omega arith)
          (fl.write_sets p 0 xs w i ok (omega (arith, len)) (
              subst (λ k. byte w p k ≡ 255) {x = i} (omega arith)
                (subst (λ o. byte w o i ≡ 255) q (s.erased i head started)))
            ∙ ap (λ ys. get_or ys i 0) block
            ∙ get_or-take 16 image i 0 head)
    | no tail ↦
        fl.write_keeps p 0 xs w i (inr (omega (arith, len)))
        ∙ rw (← q) (s.written i (omega arith) h)
  ]
    where
      xs : List ℕ
      xs = take 16 (bytes u.skip_buffer)

      block : xs ≡ take 16 image
      block = ap (take 16) (s.stashed started) ∙ take-take_le 16 16 image (omega arith)

      len : length xs ≡ 16
      len = omega (arith, ap length block, length-take 16 image, s.counted, s.started started)

  -- After any session of begin, setMD5 and write calls for a firmware image of at least 16 and at
  -- most 2^31 announced bytes, in which every write is accepted in full and no more bytes are
  -- written than were announced, on a flash and an MD5 builder that behave as documented: if end()
  -- reports success, then exactly the announced number of bytes was written, the MD5 sum of the
  -- last setMD5, if there was one, is that of the image, and the partition holds exactly the bytes
  -- of the image, the first block included.
  pub end_installs :
      {image : List ℕ} {u : Updater M} {w : W}
      → (v : Updater M) (w' : W) (ses : Session d image u w) → end d u false w ≡ (true, v, w')
      → (length image ≡ u.size)
        × ((asked ses ≡ []) ⊎ (asked ses ≡ d.md5_string (d.md5_add d.md5_begin image)))
        × ((i : ℕ) → i < u.size → byte w' u.partition i ≡ get_or image i 0)
  end_installs {image} {u} {w} v w' ses e =
      let (s, target) = Session-inv ses in
      let (fin, e1) = end_inv u v w w' e in
      let (md5_ok, e2) = check_md5_inv u v w w' e1 in
      let (p, q, ok, boot, last) = verify_end_inv u v w w' s.is_flash e2 in
      let whole : length image ≡ u.size = omega (arith, s.counted, s.within, fin) in
      let sum : u.md5 ≡ d.md5_add d.md5_begin image =
        s.summed
        ∙ ap (d.md5_add d.md5_begin) (take_all u.progress image (omega (arith, fin, whole))) in
      (
        whole,
        elim md5_ok [
          | inl a ↦ inl (sym target ∙ a)
          | inr b ↦ inr (sym target ∙ b ∙ ap d.md5_string sum)
        ],
        λ i h.
            rw (last, q)
              (fl.boot_keeps (some p) (some p) _ i
                ∙ head_written u w image (some p) s (omega (arith, fin, s.big_enough)) q ok i
                    (omega (arith, fin))),
      )

  not_bootable :
      (p : Option Partition) (w : W) → byte w p 0 ≡ 255 → partition_is_bootable d p w ≡ false
  unfolding partition_is_bootable
  not_bootable none w h = refl
  not_bootable (some p) w h = elim (Option-cases (d.partition_read (some p) 0 16 w)) [
    | inl e ↦ ground arith
    | inr (xs, e) ↦ ground (arith, e, fl.read_gets (some p) 0 16 w 0 xs e (omega arith))
  ]

  -- During a session, from the first flushed sector until end() is called, the partition that is
  -- being written does not pass the bootable check, since its first block is held back.
  pub partial_not_bootable :
      {image : List ℕ} {u : Updater M} {w : W}
      → Session d image u w
      → 0 < u.progress
      → partition_is_bootable d u.partition w ≡ false
  partial_not_bootable {image} {u} {w} ses h =
      not_bootable u.partition w ((Session-Stored ses).erased 0 (omega arith) h)

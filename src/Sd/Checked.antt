-- ===== src/Sd/Checked.antt =====
-- What a transfer that succeeds says, and that the reads end.
use idf_custom_arduino.Base.{
  ℕ, zero, suc, ◌+◌, ◌-◌, ◌*◌, ◌≤◌, ◌<◌, ◌≡◌, ◌≢◌, inl, inr, sym, subst, arith, true, false, not,
  ◌||◌, Option, if◌then◌else◌, none, some, List, [], ◌∷◌, ◌++◌, ◌==◌, length, Bool-cases,
  Option-cases, length-append,
}
use idf_custom_arduino.Sd.Crc.{crc16}
use idf_custom_arduino.Sd.Bus.{Spi, Card, Link, poll, sd_deselect_card, sd_select_card}
use idf_custom_arduino.Sd.Command.{sd_command}
use idf_custom_arduino.Sd.Read.{
  address, sd_read_bytes, read_blocks, failures, read_rounds, sd_read_sectors,
}
use idf_custom_arduino.Sd.Later.{
  Later, later_start, later_transfer16, later_transfer_bytes, if_either, poll-Later, select-Later,
  deselect-Later, command-Later,
}

module _ {W : Type 0} (spi : Spi W) (card : Card) where
  blocks_at_most : (n : ℕ) (s : Link W) → length (read_blocks spi card n s).0 ≤ n
  unfolding read_blocks
  blocks_at_most zero s = omega arith
  blocks_at_most (suc n) s =
      let b = sd_read_bytes spi card 512 s in
      elim (Option-cases b.0) [
        | inl q ↦ ground (arith, q)
        | inr (x, q) ↦ ground (arith, q, blocks_at_most n b.1)
      ]

  rounds_end :
      (n : ℕ) (blocks : List (List ℕ)) (f sector count : ℕ) (s : Link W)
      → 3 * count + 3 < n + f
      → f ≤ 3
      → read_rounds spi card n blocks f sector count s ≢ none
  unfolding read_rounds
  rounds_end zero blocks f sector count s h g z = absurd (omega arith)
  rounds_end (suc n) blocks f sector count s h g z =
      let e = sd_select_card spi s in
      let r = sd_command spi card 18 (address card sector) false e.1 in
      let b = read_blocks spi card count r.link in
      let stop = sd_command spi card 12 0 false b.1 in
      let d = sd_deselect_card spi stop.link in
      let k = length b.0 in
      let most = blocks_at_most count r.link in
      let g3 : f < 3 = ground (arith, z) in
      let short : k < count = ground (arith, z, most) in
      let low : failures f k count ≤ 3 = ground (arith, g3) in
      let fuel : 3 * (count - k) + 3 < n + failures f k count = ground (arith, g3, short, h) in
      rounds_end n (blocks ++ b.0) (failures f k count) (sector + k) (count - k) d fuel low
        (ground (arith, z, short))

  -- sdReadSectors, with its retries that start anew after each block that was read, ends within
  -- three rounds for each block and four more, whatever the bus answers.
  pub read_sectors_ends :
      (sector count : ℕ) (s : Link W) → sd_read_sectors spi card sector count s ≢ none
  unfolding sd_read_sectors
  read_sectors_ends sector count s =
      rounds_end (3 * count + 4) [] 0 sector count s (omega arith) (omega arith)

module _ {W : Type 0} (spi : Spi W) (card : Card) (start : W) where
  -- From that state on, the bytes came over the bus as so many in one transfer, and the two bytes
  -- after them were their checksum.
  abbrev pub WasSent : ℕ → List ℕ → Type 0
  WasSent n bs =
      (w : W) × Later spi start w
      × (bs ≡ (spi.transfer_bytes w n).0)
      × ((spi.transfer16 (spi.transfer_bytes w n).1 0xFFFF).0 ≡ crc16 bs)

  token-Later :
      (s : Link W)
      → Later spi start s.bus
      → Later spi start (poll spi (λ b. b == 0xFF) (spi.rounds s.bus 500) s).1.bus
  token-Later s l = poll-Later spi start (λ b. b == 0xFF) (spi.rounds s.bus 500) s l

  read_bytes-Later :
      (n : ℕ) (s : Link W)
      → Later spi start s.bus
      → Later spi start (sd_read_bytes spi card n s).1.bus
  unfolding sd_read_bytes
  read_bytes-Later n s l =
      let t = poll spi (λ b. b == 0xFF) (spi.rounds s.bus 500) s in
      let r = spi.transfer_bytes t.1.bus n in
      let c = spi.transfer16 r.1 0xFFFF in
      let k = token-Later s l in
      if_either (λ (x : Option (List ℕ) × Link W). Later spi start x.1.bus) (t.0 == 0xFE)
        (
          if not card.supports_crc || c.0 == crc16 r.0 then some r.0 else none,
          record t.1 { bus = c.1 },
        )
        (none, t.1) (later_transfer16 r.1 0xFFFF (later_transfer_bytes t.1.bus n k)) k

  read_bytes_sent :
      (n : ℕ) (bs : List ℕ) (s : Link W)
      → Later spi start s.bus
      → card.supports_crc ≡ true
      → (sd_read_bytes spi card n s).0 ≡ some bs
      → WasSent n bs
  unfolding sd_read_bytes
  read_bytes_sent n bs s l c h =
      let t = poll spi (λ b. b == 0xFF) (spi.rounds s.bus 500) s in
      (t.1.bus, token-Later s l, ground arith, ground arith)

  -- Every block was sent.
  abbrev pub AllSent : List (List ℕ) → Type 0
  AllSent [] = Unit
  AllSent (b ∷ bs) = WasSent 512 b × AllSent bs

  AllSent-append : (xs ys : List (List ℕ)) → AllSent xs → AllSent ys → AllSent (xs ++ ys)
  AllSent-append [] ys h k = k
  AllSent-append (x ∷ xs) ys h k = (h.0, AllSent-append xs ys h.1 k)

  blocks_sent :
      (n : ℕ) (s : Link W)
      → Later spi start s.bus
      → card.supports_crc ≡ true
      → AllSent (read_blocks spi card n s).0 × Later spi start (read_blocks spi card n s).1.bus
  unfolding read_blocks
  blocks_sent zero s l c = (tt, l)
  blocks_sent (suc n) s l c =
      let b = sd_read_bytes spi card 512 s in
      let P : List (List ℕ) × Link W → Type 0 = λ x. AllSent x.0 × Later spi start x.1.bus in
      let k = read_bytes-Later 512 s l in
      elim (Option-cases b.0) [
        | inl q ↦
            (let e : read_blocks spi card (suc n) s ≡ ([], b.1) = ground (arith, q) in
              subst P (sym e) (tt, k))
        | inr (x, q) ↦
            let rest = read_blocks spi card n b.1 in
            let ih = blocks_sent n b.1 k c in
            let e : read_blocks spi card (suc n) s ≡ (x ∷ rest.0, rest.1) = ground (arith, q) in
            subst P (sym e) ((read_bytes_sent 512 x s l c q, ih.0), ih.1)
      ]

  rounds_sent :
      (n : ℕ) (blocks : List (List ℕ)) (f sector count : ℕ) (bs : List (List ℕ)) (s s1 : Link W)
      → card.supports_crc ≡ true
      → Later spi start s.bus
      → AllSent blocks
      → read_rounds spi card n blocks f sector count s ≡ some (some bs, s1)
      → (length bs ≡ length blocks + count) × AllSent bs
  unfolding read_rounds
  rounds_sent zero blocks f sector count bs s s1 c l a h = absurd (ground arith)
  rounds_sent (suc n) blocks f sector count bs s s1 c l a h =
      let e = sd_select_card spi s in
      let r = sd_command spi card 18 (address card sector) false e.1 in
      let b = read_blocks spi card count r.link in
      let stop = sd_command spi card 12 0 false b.1 in
      let d = sd_deselect_card spi stop.link in
      let k = length b.0 in
      let k1 =
        command-Later spi start card 18 (address card sector) false e.1
          (select-Later spi start s l) in
      let sent = blocks_sent count r.link k1 c in
      let k2 =
        deselect-Later spi start stop.link (command-Later spi start card 12 0 false b.1 sent.1) in
      let all = AllSent-append blocks b.0 a sent.0 in
      let most = blocks_at_most spi card count r.link in
      let len = length-append blocks b.0 in
      elim (Bool-cases (k == count)) [
        | inl q ↦
            (let same : blocks ++ b.0 ≡ bs = ground (arith, q, h) in
              (ground (arith, q, len, same), subst AllSent same all))
        | inr q ↦
            (let next =
                rounds_sent n (blocks ++ b.0) (failures f k count) (sector + k) (count - k) bs d s1
                  c k2 all (ground (arith, q, h)) in
              (omega (arith, next.0, len, most), next.1))
      ]

module _ {W : Type 0} (spi : Spi W) (card : Card) where
  -- On a card with checksums, whatever the bus answers, if sdReadSectors reports success then it
  -- has read as many blocks as asked for, and each of them came over the bus after the start of
  -- the call, in one transfer of 512 bytes that was followed by its CRC16.
  pub read_sectors_sent :
      (sector count : ℕ) (bs : List (List ℕ)) (s s1 : Link W)
      → card.supports_crc ≡ true
      → sd_read_sectors spi card sector count s ≡ some (some bs, s1)
      → (length bs ≡ count) × AllSent spi card s.bus bs
  unfolding sd_read_sectors
  read_sectors_sent sector count bs s s1 c h =
      let t =
        rounds_sent spi card s.bus (3 * count + 4) [] 0 sector count bs s s1 c later_start tt h in
      (omega (arith, t.0), t.1)

-- ===== src/Sd/Read.antt =====
-- libraries/SD/src/sd_diskio.cpp: `sdReadBytes`, `sdReadSector` and `sdReadSectors`. A read gives the
-- bytes that it leaves in the caller's buffer, or none when it fails.
use idf_custom_arduino.Base.{
  ℕ, zero, suc, ◌+◌, ◌-◌, ◌*◌, ◌%◌, ◌^◌, false, not, ◌||◌, Option, none, some, List, [], ◌∷◌, ◌++◌,
  ltb, ◌==◌, length, if◌then◌else◌,
}
use idf_custom_arduino.Sd.Crc.{crc16}
use idf_custom_arduino.Sd.Bus.{card_sdhc, Spi, Card, Link, poll, sd_deselect_card, sd_select_card}
use idf_custom_arduino.Sd.Command.{sd_command}

-- The argument for a sector: it is an `unsigned int`.
unfoldable pub address : Card → ℕ → ℕ
address card sector = elim card.card_type [
  | card_sdhc ↦ sector % 2 ^ 32
  | _ ↦ sector * 2 ^ 9 % 2 ^ 32
]

-- The number of failures in a row, after the inner loop has read so many of the blocks.
abbrev pub failures : ℕ → ℕ → ℕ → ℕ
failures f n count = let g = if ltb 0 n then 0 else f in if ltb n count then suc g else g

module _ {W : Type 0} (spi : Spi W) (card : Card) where
  unfoldable pub sd_read_bytes : ℕ → Link W → Option (List ℕ) × Link W
  sd_read_bytes n s =
      let t = poll spi (λ b. b == 0xFF) (spi.rounds s.bus 500) s in
      let r = spi.transfer_bytes t.1.bus n in
      let c = spi.transfer16 r.1 0xFFFF in
      if t.0 == 0xFE
      then (
        if not card.supports_crc || c.0 == crc16 r.0 then some r.0 else none,
        record t.1 { bus = c.1 },
      )
      else (none, t.1)

  -- The loop of `sdReadSector`.
  unfoldable pub read_tries : ℕ → ℕ → Link W → Option (List ℕ) × Link W
  read_tries sector zero s = (none, sd_deselect_card spi s)
  read_tries sector (suc n) s =
      let e = sd_select_card spi s in
      let r = sd_command spi card 17 (address card sector) false e.1 in
      let b = sd_read_bytes 512 r.link in
      let d = sd_deselect_card spi b.1 in
      let rest = read_tries sector n d in
      if e.0
      then (if r.token == 0
          then elim b.0 [ some bs ↦ (some bs, d) | none ↦ rest ]
          else (none, sd_deselect_card spi r.link))
      else (none, e.1)

  unfoldable pub sd_read_sector : ℕ → Link W → Option (List ℕ) × Link W
  sd_read_sector sector s = read_tries sector 3 s

  -- The inner loop of `sdReadSectors`: the blocks that were read before one failed, or all. The count is
  -- positive: `ff_sd_read` gives more than 1.
  unfoldable pub read_blocks : ℕ → Link W → List (List ℕ) × Link W
  read_blocks zero s = ([], s)
  read_blocks (suc n) s =
      let b = sd_read_bytes 512 s in
      let rest = read_blocks n b.1 in
      elim b.0 [ some bs ↦ (bs ∷ rest.0, rest.1) | none ↦ ([], b.1) ]

  -- The outer loop: it has the blocks so far, the failures and what is left to read. It is none when
  -- the rounds given first do not suffice.
  unfoldable pub read_rounds :
      ℕ → List (List ℕ) → ℕ → ℕ → ℕ → Link W → Option (Option (List (List ℕ)) × Link W)
  read_rounds zero blocks f sector count s = none
  read_rounds (suc n) blocks f sector count s =
      let e = sd_select_card spi s in
      let r = sd_command spi card 18 (address card sector) false e.1 in
      let b = read_blocks count r.link in
      let stop = sd_command spi card 12 0 false b.1 in
      let d = sd_deselect_card spi stop.link in
      let k = length b.0 in
      let rest = read_rounds n (blocks ++ b.0) (failures f k count) (sector + k) (count - k) d in
      if ltb f 3
      then (if e.0
          then (if r.token == 0
              then (if stop.token == 0
                  then (if k == count then some (some (blocks ++ b.0), d) else rest)
                  else some (none, d))
              else some (none, sd_deselect_card spi r.link))
          else some (none, e.1))
      else some (none, sd_deselect_card spi s)

  unfoldable pub sd_read_sectors : ℕ → ℕ → Link W → Option (Option (List (List ℕ)) × Link W)
  sd_read_sectors sector count s = read_rounds (3 * count + 4) [] 0 sector count s

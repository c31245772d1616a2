-- ===== src/Sd/Write.antt =====
-- libraries/SD/src/sd_diskio.cpp: `sdWriteBytes`, `sdWriteSector` and `sdGetSectorsCount`.
use idf_custom_arduino.Base.{
  ℕ, zero, suc, ◌+◌, ◌*◌, ◌/◌, ◌%◌, ◌^◌, Bool, true, false, none, some, List, ◌==◌, get_or,
  if◌then◌else◌,
}
use idf_custom_arduino.Sd.Crc.{crc16}
use idf_custom_arduino.Sd.Bus.{Spi, Card, Link, transfer, sd_wait, sd_deselect_card, sd_select_card}
use idf_custom_arduino.Sd.Command.{sd_command, sd_transaction}
use idf_custom_arduino.Sd.Read.{address, sd_read_bytes}

-- The number of sectors that the 16 bytes of the card's description give. The type is `unsigned long`,
-- of 32 bits.
unfoldable pub csd_sectors : List ℕ → ℕ
csd_sectors csd =
    let at : ℕ → ℕ = λ i. get_or csd i 0 in
    if at 0 / 2 ^ 6 == 1
    then (at 7 % 2 ^ 6 * 2 ^ 16 + at 8 * 2 ^ 8 + at 9 + 1) * 2 ^ 10 % 2 ^ 32
    else (let size = at 6 % 4 * 2 ^ 10 + at 7 * 4 + at 8 / 2 ^ 6 + 1 in
        let scaled = size * 2 ^ (at 9 % 4 * 2 + at 10 / 2 ^ 7 + 2) % 2 ^ 32 in
        scaled * 2 ^ (at 5 % 2 ^ 4) % 2 ^ 32 / 2 ^ 9)

module _ {W : Type 0} (spi : Spi W) (card : Card) where
  -- A wait that fails gives false, which is 0.
  unfoldable pub sd_write_bytes : List ℕ → ℕ → Link W → ℕ × Link W
  sd_write_bytes buffer token s =
      let crc = if card.supports_crc then crc16 buffer else 0xFFFF in
      let e = sd_wait spi 500 s in
      let r =
        transfer spi (record e.1 {
          bus = spi.write16 (spi.write_bytes (spi.write e.1.bus token) buffer) crc;
        }) in
      if e.0 then (r.0 % 2 ^ 5, r.1) else (0, e.1)

  -- The status of the card is asked for, and must be zero.
  unfoldable pub status_ok : Link W → Bool × Link W
  status_ok s =
      let r = sd_transaction spi card 13 0 true s in
      (if r.token == 0 then elim r.resp [ some v ↦ v == 0 | none ↦ true ] else false, r.link)

  -- The loop of `sdWriteSector`.
  unfoldable pub write_tries : List ℕ → ℕ → ℕ → Link W → Bool × Link W
  write_tries buffer sector zero s = (false, sd_deselect_card spi s)
  write_tries buffer sector (suc n) s =
      let e = sd_select_card spi s in
      let r = sd_command spi card 24 (address card sector) false e.1 in
      let t = sd_write_bytes buffer 0xFE r.link in
      let d = sd_deselect_card spi t.1 in
      let rest = write_tries buffer sector n d in
      if e.0
      then (if r.token == 0
          then (if t.0 == 0x0A then rest else (if t.0 == 0x0C then (false, d) else status_ok d))
          else (false, sd_deselect_card spi r.link))
      else (false, e.1)

  unfoldable pub sd_write_sector : List ℕ → ℕ → Link W → Bool × Link W
  sd_write_sector buffer sector s = write_tries buffer sector 3 s

  -- The loop of `sdGetSectorsCount`.
  unfoldable pub count_tries : ℕ → Link W → ℕ × Link W
  count_tries zero s = (0, sd_deselect_card spi s)
  count_tries (suc n) s =
      let e = sd_select_card spi s in
      let r = sd_command spi card 9 0 false e.1 in
      let b = sd_read_bytes spi card 16 r.link in
      let d = sd_deselect_card spi b.1 in
      let rest = count_tries n d in
      if e.0
      then (if r.token == 0
          then elim b.0 [ some csd ↦ (csd_sectors csd, d) | none ↦ rest ]
          else (0, sd_deselect_card spi r.link))
      else (0, e.1)

  unfoldable pub sd_get_sectors_count : Link W → ℕ × Link W
  sd_get_sectors_count s = count_tries 3 s

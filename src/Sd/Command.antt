-- ===== src/Sd/Command.antt =====
-- libraries/SD/src/sd_diskio.cpp: `sdCommand` and `sdTransaction`.
use Prim.Native.Nat.{bit_or}
use idf_custom_arduino.Base.{
  ℕ, zero, suc, ◌*◌, ◌/◌, ◌%◌, ◌^◌, Bool, true, false, ◌&&◌, ◌||◌, Option, none, some, List, [],
  ◌∷◌, ◌++◌, leb, ltb, ◌==◌, if◌then◌else◌,
}
use idf_custom_arduino.Sd.Crc.{crc7}
use idf_custom_arduino.Sd.Bus.{Spi, Card, Link, transfer, poll, sd_deselect_card, sd_select_card}

-- The token, the response when one was read, and the state after it.
pub record Reply (W : Type 0) : Type 0 where
  pub token : ℕ
  pub resp : Option ℕ
  pub link : Link W

-- The commands that come after APP_CMD.
unfoldable pub is_app : ℕ → Bool
is_app cmd = cmd == 22 || cmd == 23 || cmd == 41 || cmd == 42

unfoldable pub packet_head : ℕ → ℕ → List ℕ
packet_head cmd arg =
    bit_or cmd 0x40
    ∷ (arg / 2 ^ 24 % 256)
    ∷ (arg / 2 ^ 16 % 256)
    ∷ (arg / 2 ^ 8 % 256)
    ∷ (arg % 256)
    ∷ []

unfoldable pub packet : Card → ℕ → ℕ → List ℕ
packet card cmd arg =
    let head = packet_head cmd arg in
    let check =
      if card.supports_crc || cmd == 0 || cmd == 8 then bit_or (crc7 head * 2) 1 % 256 else 1 in
    head ++ (check ∷ (if cmd == 12 then 0xFF ∷ [] else []))

-- A token with the bit for an error of the checksum.
abbrev pub crc_error : ℕ → Bool
crc_error token = token / 8 % 2 == 1

-- Whether the body of the loop may go on to the packet; if not, the token that the loop ends with.
pub data Prepared (W : Type 0) : Type 0 where
  ready : Link W → Prepared W
  refused : ℕ → Link W → Prepared W

module _ {W : Type 0} (spi : Spi W) (card : Card) where
  -- The packet is sent, and up to nine bytes are read, for a token.
  unfoldable pub send_packet : ℕ → ℕ → Link W → ℕ × Link W
  send_packet cmd arg s =
      poll spi (λ b. leb 128 b) 8 (record s { bus = spi.write_bytes s.bus (packet card cmd arg) })

  -- Before another try.
  unfoldable pub recover : Link W → Link W
  recover s =
      let d = sd_deselect_card spi s in
      (sd_select_card spi (record d { bus = spi.delay d.bus 100 })).1

  -- The response, if the caller has room for it.
  unfoldable pub respond : ℕ → Bool → ℕ → Link W → Reply W
  respond cmd wanted token s =
      if cmd == 13 && wanted
      then (let r = transfer spi s in record { token = token; resp = some r.0; link = r.1 })
      else (if (cmd == 8 || cmd == 58) && wanted
          then (let r = spi.transfer32 s.bus 0xFFFFFFFF in
              record { token = token; resp = some r.0; link = record s { bus = r.1 } })
          else record { token = token; resp = none; link = s })

  -- The loop, with the token that is there when it ends.
  unfoldable pub attempts : (Link W → Prepared W) → ℕ → ℕ → Bool → ℕ → ℕ → Link W → Reply W
  attempts prepare cmd arg wanted token zero s = record { token = token; resp = none; link = s }
  attempts prepare cmd arg wanted token (suc n) s = elim (prepare s) [
    | refused t s1 ↦ record { token = t; resp = none; link = s1 }
    | ready s1 ↦
        let r = send_packet cmd arg s1 in
        let again = attempts prepare cmd arg wanted r.0 n (recover r.1) in
        if r.0 == 0xFF || crc_error r.0
        then again
        else (if ltb 1 r.0
            then record { token = r.0; resp = none; link = r.1 }
            else respond cmd wanted r.0 r.1)
  ]

  -- The end: with no token the card is no longer initialized.
  unfoldable pub settle : Reply W → Reply W
  settle r = if r.token == 0xFF then record r { link = record r.link { no_init = true } } else r

  -- The first part of the body, with its call of the function for APP_CMD.
  unfoldable pub prepare : ℕ → Link W → Prepared W
  prepare cmd s =
      if is_app cmd
      then (let r = settle (attempts ready 55 0 false 0xFF 3 s) in
          let d = sd_deselect_card spi r.link in
          if ltb 1 r.token
          then refused r.token d
          else (let e = sd_select_card spi d in if e.0 then ready e.1 else refused 0xFF e.1))
      else ready s

  unfoldable pub sd_command : ℕ → ℕ → Bool → Link W → Reply W
  sd_command cmd arg wanted s = settle (attempts (prepare cmd) cmd arg wanted 0xFF 3 s)

  unfoldable pub sd_transaction : ℕ → ℕ → Bool → Link W → Reply W
  sd_transaction cmd arg wanted s =
      let e = sd_select_card spi s in
      let r = sd_command cmd arg wanted e.1 in
      if e.0
      then record r { link = sd_deselect_card spi r.link }
      else record { token = 0xFF; resp = none; link = e.1 }

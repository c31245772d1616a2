-- ===== src/Sd/Fatfs.antt =====
-- libraries/SD/src/sd_diskio.cpp: `ff_sd_read`, for the file system, with `ff_sd_status`; and that a card
-- that has stopped to answer is not read.
use idf_custom_arduino.Base.{
  ℕ, ◌≡◌, arith, Bool, true, Option, none, some, List, [], ◌∷◌, ltb, ◌==◌, if◌then◌else◌,
  Bool-cases, inl, inr,
}
use idf_custom_arduino.Sd.Bus.{Spi, Card, Link}
use idf_custom_arduino.Sd.Command.{Reply, attempts, settle, prepare, sd_command}
use idf_custom_arduino.Sd.Read.{sd_read_sector, sd_read_sectors}

-- The values of DRESULT here.
pub data Result : Type 0 where
  res_ok : List (List ℕ) → Result
  res_error : Result
  res_notrdy : Result

module _ {W : Type 0} (spi : Spi W) (card : Card) where
  abbrev pub single : Option (List ℕ) × Link W → Result × Link W
  single r = (elim r.0 [ none ↦ res_error | some b ↦ res_ok (b ∷ []) ], r.1)

  abbrev pub several : Option (List (List ℕ)) × Link W → Result × Link W
  several r = (elim r.0 [ none ↦ res_error | some bs ↦ res_ok bs ], r.1)

  unfoldable pub ff_sd_read : ℕ → ℕ → Link W → Option (Result × Link W)
  ff_sd_read sector count s =
      let many = elim (sd_read_sectors spi card sector count s) as (λ z. Option (Result × Link W)) [
        | none ↦ none
        | some r ↦ some (several r)
      ] in
      if s.no_init
      then some (res_notrdy, s)
      else (if ltb 1 count then many else some (single (sd_read_sector spi card sector s)))

  settle_lost :
      (r : Reply W) → (settle spi card r).token ≡ 0xFF → (settle spi card r).link.no_init ≡ true
  unfolding settle
  settle_lost r h = elim (Bool-cases (r.token == 0xFF)) [
    | inl e ↦ ground (arith, e)
    | inr e ↦ absurd (ground (arith, e, h))
  ]

  -- After a command that the card has not answered, ff_sd_read reports that the card is not ready,
  -- whatever is asked for, and does not touch the bus.
  pub lost_card_refused :
      (cmd arg : ℕ) (wanted : Bool) (sector count : ℕ) (s : Link W)
      → let r = sd_command spi card cmd arg wanted s in
        r.token ≡ 0xFF → ff_sd_read sector count r.link ≡ some (res_notrdy, r.link)
  unfolding ff_sd_read sd_command
  lost_card_refused cmd arg wanted sector count s h =
      let a = attempts spi card (prepare spi card cmd) cmd arg wanted 0xFF 3 s in
      let l = settle_lost a h in ground (arith, l)

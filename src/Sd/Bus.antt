-- ===== src/Sd/Bus.antt =====
-- libraries/SD/src/sd_diskio.cpp: the card, and the functions that wait for it and select it. The bus
-- with its pin and its clock is a parameter, which stands for SPIClass, digitalWrite, delay and millis.
use idf_custom_arduino.Base.{ℕ, zero, suc, Bool, true, false, List, ltb, ◌==◌, if◌then◌else◌}

-- `sdcard_type_t`
pub data CardType : Type 0 where
  card_none : CardType
  card_mmc : CardType
  card_sd : CardType
  card_sdhc : CardType
  card_unknown : CardType

-- What the functions use of the bus, whose state is of the type W.
pub record Spi (W : Type 0) : Type 0 where
  pub transfer : W → ℕ → ℕ × W
  pub transfer16 : W → ℕ → ℕ × W
  pub transfer32 : W → ℕ → ℕ × W
  -- With no bytes to send, so many are received.
  pub transfer_bytes : W → ℕ → List ℕ × W
  pub write : W → ℕ → W
  pub write16 : W → ℕ → W
  pub write_bytes : W → List ℕ → W
  -- `digitalWrite` to the pin that selects the card
  pub set_pin : W → Bool → W
  pub delay : W → ℕ → W
  -- How often a loop that starts now finds that less than the given milliseconds have passed.
  pub rounds : W → ℕ → ℕ

-- `ardu_sdcard_t`: what the transfers read of the card.
pub record Card : Type 0 where
  pub card_type : CardType
  pub supports_crc : Bool

-- The bus, and the status of the card, which is true for STA_NOINIT.
pub record Link (W : Type 0) : Type 0 where
  pub bus : W
  pub no_init : Bool

module _ {W : Type 0} (spi : Spi W) where
  abbrev pub transfer : Link W → ℕ × Link W
  transfer s = let r = spi.transfer s.bus 255 in (r.0, record s { bus = r.1 })

  -- A loop that transfers a byte and goes on, for so many rounds at most, while the test holds.
  unfoldable pub poll : (ℕ → Bool) → ℕ → Link W → ℕ × Link W
  poll again zero s = transfer s
  poll again (suc n) s =
      let r = transfer s in let rest = poll again n r.1 in if again r.0 then rest else r

  unfoldable pub sd_wait : ℕ → Link W → Bool × Link W
  sd_wait timeout s = let r = poll (λ b. b == 0) (spi.rounds s.bus timeout) s in (ltb 0 r.0, r.1)

  unfoldable pub sd_stop : Link W → Link W
  sd_stop s = record s { bus = spi.write s.bus 0xFD }

  unfoldable pub sd_deselect_card : Link W → Link W
  sd_deselect_card s = record s { bus = spi.set_pin s.bus true }

  unfoldable pub sd_select_card : Link W → Bool × Link W
  sd_select_card s =
      let r = sd_wait 300 (record s { bus = spi.set_pin s.bus false }) in
      if r.0 then r else (false, record r.1 { bus = spi.set_pin r.1.bus true })

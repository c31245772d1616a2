-- ===== src/Update/State.antt =====
-- libraries/Update/src/Update.h and the small methods of Updater.cpp: the object's state, its
-- constants, `_reset`, `_abort`, `setMD5` and the accessors. `size_t` has 32 bits.
use idf_custom_arduino.Base.{
  ℕ, ◌+◌, ◌-◌, ◌%◌, ◌^◌, Bool, true, false, not, Option, none, some, List, [], ◌∷◌, ◌++◌, ltb, ◌==◌,
  if◌then◌else◌, length,
}
use idf_custom_arduino.Update.Device.{Partition}

abbrev pub update_error_ok : ℕ
update_error_ok = 0

abbrev pub update_error_write : ℕ
update_error_write = 1

abbrev pub update_error_erase : ℕ
update_error_erase = 2

abbrev pub update_error_read : ℕ
update_error_read = 3

abbrev pub update_error_space : ℕ
update_error_space = 4

abbrev pub update_error_size : ℕ
update_error_size = 5

abbrev pub update_error_stream : ℕ
update_error_stream = 6

abbrev pub update_error_md5 : ℕ
update_error_md5 = 7

abbrev pub update_error_magic_byte : ℕ
update_error_magic_byte = 8

abbrev pub update_error_activate : ℕ
update_error_activate = 9

abbrev pub update_error_no_partition : ℕ
update_error_no_partition = 10

abbrev pub update_error_bad_argument : ℕ
update_error_bad_argument = 11

abbrev pub update_error_abort : ℕ
update_error_abort = 12

abbrev pub update_size_unknown : ℕ
update_size_unknown = 0xffff_ffff

abbrev pub u_flash : ℕ
u_flash = 0

abbrev pub u_spiffs : ℕ
u_spiffs = 100

abbrev pub encrypted_block_size : ℕ
encrypted_block_size = 16

-- `SPI_FLASH_SEC_SIZE` and `ESP_IMAGE_HEADER_MAGIC` of the platform's headers.
abbrev pub spi_flash_sec_size : ℕ
spi_flash_sec_size = 4096

abbrev pub esp_image_header_magic : ℕ
esp_image_header_magic = 0xe9

-- `size_t` and `uint32_t` arithmetic.
abbrev pub add32 : ℕ → ℕ → ℕ
add32 a b = (a + b) % 2 ^ 32

abbrev pub sub32 : ℕ → ℕ → ℕ
sub32 a b = (a + 2 ^ 32 - b) % 2 ^ 32

-- A heap block is its bytes. `reports` is no field of the class: it is the list of the calls that
-- were made of the progress callback, oldest first.
pub record Updater (M : Type 0) : Type 0 where
  pub error : ℕ
  pub buffer : Option (List ℕ)
  pub skip_buffer : Option (List ℕ)
  pub buffer_len : ℕ
  pub size : ℕ
  pub has_callback : Bool
  pub progress : ℕ
  pub paroffset : ℕ
  pub command : ℕ
  pub partition : Option Partition
  pub target_md5 : List ℕ
  pub md5 : M
  pub led_pin : ℕ
  pub led_on : Bool
  pub reports : List (ℕ × ℕ)

-- The bytes behind a pointer. A NULL pointer has none: the code never follows one while it runs.
abbrev pub bytes : Option (List ℕ) → List ℕ
bytes none = []
bytes (some xs) = xs

module _ {M : Type 0} where
  -- The constructor. The pointer and pin fields that it leaves out have no value yet.
  unfoldable pub init : M → Updater M
  init m = record {
    error = 0;
    buffer = none;
    skip_buffer = none;
    buffer_len = 0;
    size = 0;
    has_callback = false;
    progress = 0;
    paroffset = 0;
    command = u_flash;
    partition = none;
    target_md5 = [];
    md5 = m;
    led_pin = 0;
    led_on = false;
    reports = [];
  }

  unfoldable pub on_progress : Updater M → Bool → Updater M
  on_progress u fn = record u { has_callback = fn }

  unfoldable pub reset : Updater M → Updater M
  reset u = record u { buffer = none; buffer_len = 0; progress = 0; size = 0; command = u_flash }

  unfoldable pub abort_with : ℕ → Updater M → Updater M
  unfolding reset
  abort_with err u = record (reset u) { error = err }

  unfoldable pub abort : Updater M → Updater M
  unfolding abort_with
  abort u = abort_with update_error_abort u

  -- `_progress_callback(done, total)`, if one is set.
  unfoldable pub report : ℕ → ℕ → Updater M → Updater M
  report done total u = record u {
    reports = if u.has_callback then u.reports ++ (done, total) ∷ [] else u.reports;
  }

  abbrev pub has_error : Updater M → Bool
  has_error u = not (u.error == update_error_ok)

  abbrev pub is_running : Updater M → Bool
  is_running u = ltb 0 u.size

  abbrev pub is_finished : Updater M → Bool
  is_finished u = u.progress == u.size

  abbrev pub remaining : Updater M → ℕ
  remaining u = sub32 u.size u.progress

  unfoldable pub clear_error : Updater M → Updater M
  clear_error u = record u { error = update_error_ok }

  -- The string is its characters; `strlen` stops at the terminator, which the list leaves out.
  unfoldable pub set_md5 : Updater M → List ℕ → Bool × Updater M
  set_md5 u expected =
      if length expected == 32 then (true, record u { target_md5 = expected }) else (false, u)

-- ===== src/Sd/Tests.antt =====
-- A bus that answers from a list of bytes; checksums of the standard; instances of the theorems.
use idf_custom_arduino.Base.{
  some, ℕ, ◌+◌, ◌*◌, ◌≡◌, ◌≢◌, refl, true, false, none, List, [], ◌∷◌, ◌++◌, length, take, drop,
  replicate, get_or, arith,
}
use idf_custom_arduino.Sd.Tables.{crc7_table, crc16_table}
use idf_custom_arduino.Sd.Crc.{crc7, crc7_from, crc16, crc16_from}
use idf_custom_arduino.Sd.Remainder.{crc7-remainder, remainder}
use idf_custom_arduino.Sd.Bus.{
  card_sdhc, Spi, Card, Link, poll, sd_wait, sd_select_card, sd_deselect_card,
}
use idf_custom_arduino.Sd.Command.{
  is_app, send_packet, recover, respond, attempts, settle, prepare, sd_command, sd_transaction,
}
use idf_custom_arduino.Sd.Read.{sd_read_bytes, read_blocks, read_rounds, sd_read_sectors}
use idf_custom_arduino.Sd.Write.{sd_write_bytes, status_ok, write_tries, sd_write_sector}
use idf_custom_arduino.Sd.Fatfs.{res_notrdy, ff_sd_read, lost_card_refused}
use idf_custom_arduino.Sd.Checked.{AllSent, read_sectors_sent, read_sectors_ends}

-- The packet of the command 0 is 40 00 00 00 00 95: its checksum is 0x4A.
crc7_test : crc7 (0x40 ∷ 0 ∷ 0 ∷ 0 ∷ 0 ∷ []) ≡ 0x4A
unfolding crc7 crc7_from crc7_table
crc7_test = refl

-- A block of 0xFF bytes has the checksum 0x7FA1.
crc16_test : crc16 (replicate 512 255) ≡ 0x7FA1
unfolding crc16 crc16_from crc16_table
crc16_test = refl

crc7-remainder_example :
    crc7 (0x48 ∷ 0 ∷ 0 ∷ 1 ∷ 0xAA ∷ []) ≡ remainder 0 (0x48 ∷ 0 ∷ 0 ∷ 1 ∷ 0xAA ∷ [])
crc7-remainder_example =
    crc7-remainder (0x48 ∷ 0 ∷ 0 ∷ 1 ∷ 0xAA ∷ [])
      (omega arith, (omega arith, (omega arith, (omega arith, (omega arith, tt)))))

abbrev scripted : Spi (List ℕ)
scripted = record {
  transfer = λ w b. (get_or w 0 255, drop 1 w);
  transfer16 = λ w b. (get_or w 0 255 * 256 + get_or w 1 255, drop 2 w);
  transfer32 = λ w b. (0, drop 4 w);
  transfer_bytes = λ w n. (take n w, drop n w);
  write = λ w b. w;
  write16 = λ w b. w;
  write_bytes = λ w bs. w;
  set_pin = λ w b. w;
  delay = λ w n. w;
  rounds = λ w n. 3;
}

abbrev card : Card
card = record { card_type = card_sdhc; supports_crc = true }

abbrev link : List ℕ → Link (List ℕ)
link w = record { bus = w; no_init = false }

abbrev zeros : List ℕ
zeros = replicate 512 0

-- Selected, the token of the command; for each block its start, the block and its checksum; and the token
-- of the command that stops.
abbrev two_sectors : List ℕ
two_sectors = 255 ∷ 0 ∷ 0xFE ∷ (zeros ++ 0 ∷ 0 ∷ 0xFE ∷ (zeros ++ 0 ∷ 0 ∷ 0 ∷ []))

read_sectors_sent_example :
    (length (zeros ∷ zeros ∷ []) ≡ 2) × AllSent scripted card two_sectors (zeros ∷ zeros ∷ [])
unfolding sd_read_sectors read_rounds read_blocks sd_select_card sd_wait poll sd_command attempts
    prepare is_app send_packet settle respond sd_read_bytes sd_deselect_card crc16 crc16_from
    crc16_table
read_sectors_sent_example =
    read_sectors_sent scripted card 7 2 (zeros ∷ zeros ∷ []) (link two_sectors) (link []) refl refl

read_sectors_ends_example : sd_read_sectors scripted card 7 2 (link two_sectors) ≢ none
read_sectors_ends_example = read_sectors_ends scripted card 7 2 (link two_sectors)

-- The card rejects the block for its checksum, with 0x0B, and its status then is zero.
abbrev rejecting : List ℕ
rejecting = 255 ∷ 0 ∷ 255 ∷ 0xEB ∷ 255 ∷ 0 ∷ 0 ∷ []

-- It is taken as written.
write_rejected_test : (sd_write_sector scripted card zeros 7 (link rejecting)).0 ≡ true
unfolding sd_write_sector write_tries sd_select_card sd_wait poll sd_command sd_transaction
    status_ok attempts prepare is_app send_packet settle respond sd_write_bytes sd_deselect_card
write_rejected_test = refl

-- A bus on which nothing answers.
lost_card_refused_example :
    ff_sd_read scripted card 7 1 (sd_command scripted card 13 0 false (link [])).link
    ≡ some (res_notrdy, (sd_command scripted card 13 0 false (link [])).link)
unfolding sd_command attempts prepare is_app send_packet settle poll recover sd_select_card sd_wait
    sd_deselect_card
lost_card_refused_example = lost_card_refused scripted card 13 0 false 7 1 (link []) refl

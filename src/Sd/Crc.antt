-- ===== src/Sd/Crc.antt =====
-- libraries/SD/src/sd_diskio_crc.c: `CRC7` and `CRC16`. A `char` has no sign on this platform.
use Prim.Native.Nat.{bit_xor}
use idf_custom_arduino.Base.{ℕ, ◌*◌, ◌/◌, ◌%◌, List, [], ◌∷◌, get_or}
use idf_custom_arduino.Sd.Tables.{crc7_table, crc16_table}

-- A round of the loop.
abbrev pub crc7_step : ℕ → ℕ → ℕ
crc7_step crc b = get_or crc7_table (bit_xor (crc * 2) b) 0

unfoldable pub crc7_from : ℕ → List ℕ → ℕ
unfolding crc7_table
crc7_from crc [] = crc
crc7_from crc (b ∷ bs) = crc7_from (crc7_step crc b) bs

unfoldable pub crc7 : List ℕ → ℕ
unfolding crc7_from
crc7 bs = crc7_from 0 bs

-- The result is an `unsigned short`.
abbrev pub crc16_step : ℕ → ℕ → ℕ
crc16_step crc b = bit_xor (crc * 256) (get_or crc16_table (bit_xor (crc / 256) b % 256) 0) % 65536

unfoldable pub crc16_from : ℕ → List ℕ → ℕ
unfolding crc16_table
crc16_from crc [] = crc
crc16_from crc (b ∷ bs) = crc16_from (crc16_step crc b) bs

unfoldable pub crc16 : List ℕ → ℕ
unfolding crc16_from
crc16 bs = crc16_from 0 bs

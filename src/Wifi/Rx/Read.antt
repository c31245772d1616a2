-- ===== src/Wifi/Rx/Read.antt =====
-- libraries/WiFi/src/WiFiClient.cpp: `read`, `peek` and `available` of WiFiClientRxBuffer.
use idf_custom_arduino.Base.{
  ℕ, zero, suc, ◌+◌, ◌-◌, Bool, not, ◌||◌, List, [], ◌++◌, ltb, leb, ◌==◌, get_or, slice,
  if◌then◌else◌,
}
use idf_custom_arduino.Base.Int.{ℤ, negsuc}
use idf_custom_arduino.Wifi.Rx.State.{Socket, RxBuffer, block, r_available, fill_buffer}

-- The bytes that are copied out next, and the object after that.
abbrev pub next_bytes : RxBuffer → ℕ → List ℕ
next_bytes r n = slice r.pos n (block r)

abbrev pub skip : RxBuffer → ℕ → RxBuffer
skip r n = record r { pos = r.pos + n }

-- How a `read` ends: with -1, or with the bytes that it has copied.
pub data Outcome (W : Type 0) : Type 0 where
  error : RxBuffer → W → Outcome W
  copied : List ℕ → RxBuffer → W → Outcome W
  no_fuel : Outcome W

module _ {W : Type 0} (s : Socket W) where
  -- `_failed ? -1 : 0`
  abbrev pub nothing : RxBuffer → W → Outcome W
  nothing r w = if r.failed then error r w else copied [] r w

  -- The loop while `left`, with the bytes that have been copied before.
  unfoldable pub read_loop : ℕ → List ℕ → ℕ → RxBuffer → W → Outcome W
  read_loop zero out left r w = no_fuel
  read_loop (suc fuel) out left r w =
      let f = fill_buffer s r w in
      let a = f.1.fill - f.1.pos in
      let n = if ltb left a then left else a in
      let rest = read_loop fuel (out ++ next_bytes f.1 n) (left - n) (skip f.1 n) f.2 in
      if (left == 0) || (f.0 == 0)
      then copied out (if left == 0 then r else f.1) (if left == 0 then w else f.2)
      else rest

  -- The part for what is not in the block: `a` bytes are. At most `left + 1` rounds, as each copies
  -- a byte.
  unfoldable pub read_long : RxBuffer → ℕ → ℕ → W → Outcome W
  read_long r a len w = read_loop (suc (len - a)) (next_bytes r a) (len - a) (skip r a) w

  -- From the second condition on.
  unfoldable pub read_block : RxBuffer → ℕ → W → Outcome W
  unfolding read_long
  read_block r len w =
      let a = r.fill - r.pos in
      let f = fill_buffer s r w in
      if leb len a
      then copied (next_bytes r len) (skip r len) w
      else if leb (len - a) (r.size - r.fill)
      then (if leb (len - a) f.0
          then copied (next_bytes f.1 len) (skip f.1 len) f.2
          else read_long f.1 a len f.2)
      else read_long r a len w

  -- `present` says that `dst` is not a null pointer.
  unfoldable pub read : RxBuffer → Bool → ℕ → W → Outcome W
  unfolding read_block
  read r present len w =
      let f = fill_buffer s r w in
      if not present || (len == 0)
      then nothing r w
      else if r.pos == r.fill
      then (if f.0 == 0 then nothing f.1 f.2 else read_block f.1 len f.2)
      else read_block r len w

  unfoldable pub peek : RxBuffer → W → ℤ × RxBuffer × W
  peek r w =
      let f = fill_buffer s r w in
      let next = λ (q : RxBuffer). ℤ.pos (get_or (block q) q.pos 0) in
      if r.pos == r.fill
      then (if f.0 == 0 then (negsuc 0, f.1, f.2) else (next f.1, f.1, f.2))
      else (next r, r, w)

  unfoldable pub available : RxBuffer → W → ℕ × RxBuffer
  unfolding r_available
  available r w = let there = r_available s r w in (r.fill - r.pos + there.0, there.1)

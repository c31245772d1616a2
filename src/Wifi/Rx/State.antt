-- ===== src/Wifi/Rx/State.antt =====
-- libraries/WiFi/src/WiFiClient.cpp: the state of WiFiClientRxBuffer, `r_available` and `fillBuffer`.
use idf_custom_arduino.Base.{
  ℕ, ◌+◌, ◌-◌, ◌≤◌, ◌≡◌, ◌⊎◌, Bool, true, false, not, ◌&&◌, Option, none, some, List, [], ◌++◌, leb,
  ◌==◌, length, copy_into, if◌then◌else◌,
}

-- What `recv` gives: bytes, EWOULDBLOCK or another error.
pub data Received : Type 0 where
  received : List ℕ → Received
  would_block : Received
  broken : Received

-- What the code calls of the platform. `pending` is FIONREAD, none on an error.
pub record Socket (W : Type 0) : Type 0 where
  pub malloc : ℕ → W → Option (List ℕ) × W
  pub pending : ℕ → W → Option ℕ
  pub receive : ℕ → ℕ → W → Received × W

-- The documented behaviour: `incoming` are the bytes of the stream that have not been received.
pub record IsSocket {W : Type 0} (s : Socket W) (incoming : W → List ℕ) : Type 0 where
  pub malloc_keeps : (k : ℕ) (w : W) → incoming (s.malloc k w).1 ≡ incoming w
  pub malloc_length : (k : ℕ) (w : W) (b : List ℕ) → (s.malloc k w).0 ≡ some b → length b ≡ k
  pub bytes_received :
      (fd cap : ℕ) (w : W) (xs : List ℕ)
      → (s.receive fd cap w).0 ≡ received xs
      → (length xs ≤ cap) × (incoming w ≡ xs ++ incoming (s.receive fd cap w).1)
  pub nothing_received :
      (fd cap : ℕ) (w : W)
      → ((s.receive fd cap w).0 ≡ would_block) ⊎ ((s.receive fd cap w).0 ≡ broken)
      → incoming (s.receive fd cap w).1 ≡ incoming w

-- `fd` is none if it is negative.
pub record RxBuffer : Type 0 where
  pub size : ℕ
  pub buffer : Option (List ℕ)
  pub pos : ℕ
  pub fill : ℕ
  pub fd : Option ℕ
  pub failed : Bool

unfoldable pub init : Option ℕ → ℕ → RxBuffer
init fd size = record { size = size; buffer = none; pos = 0; fill = 0; fd = fd; failed = false }

abbrev pub block : RxBuffer → List ℕ
block r = elim r.buffer [ none ↦ [] | some b ↦ b ]

-- A buffer that has been read to its end starts anew.
abbrev pub rewind : RxBuffer → RxBuffer
rewind r = if not (r.fill == 0) && (r.pos == r.fill) then record r { pos = 0; fill = 0 } else r

module _ {W : Type 0} (s : Socket W) where
  unfoldable pub r_available : RxBuffer → W → ℕ × RxBuffer
  r_available r w = elim r.fd [
    | none ↦ (0, r)
    | some fd ↦ elim (s.pending fd w) [ none ↦ (0, record r { failed = true }) | some k ↦ (k, r) ]
  ]

  -- The `recv` into the rest of the block.
  unfoldable pub receive_more : RxBuffer → ℕ → W → ℕ × RxBuffer × W
  receive_more r fd w =
      let got = s.receive fd (r.size - r.fill) w in
      elim got.0 [
        | received xs ↦ (
          length xs,
          record r { buffer = some (copy_into (block r) r.fill xs); fill = r.fill + length xs },
          got.1,
        )
        | would_block ↦ (0, r, got.1)
        | broken ↦ (0, record r { failed = true }, got.1)
      ]

  -- From the check for a full block on.
  unfoldable pub fill_block : RxBuffer → W → ℕ × RxBuffer × W
  unfolding r_available receive_more
  fill_block r w =
      let there = r_available r w in
      let more : ℕ × RxBuffer × W = elim r.fd [
        | none ↦ (0, r, w)
        | some fd ↦ receive_more there.1 fd w
      ] in
      if leb r.size r.fill then (0, r, w) else (if there.0 == 0 then (0, there.1, w) else more)

  unfoldable pub fill_buffer : RxBuffer → W → ℕ × RxBuffer × W
  fill_buffer r w =
      let made = s.malloc r.size w in
      elim r.buffer [
        | some b ↦ fill_block (rewind r) w
        | none ↦ elim made.0 [
          | none ↦ (0, record r { failed = true }, made.1)
          | some b ↦ fill_block (rewind (record r { buffer = some b })) made.1
        ]
      ]

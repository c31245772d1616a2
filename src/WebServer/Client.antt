-- ===== src/WebServer/Client.antt =====
-- libraries/WebServer/src/WebServer.cpp: `handleClient` and `close`. The reading and the handling of a
-- request are a parameter. `Timeout` is about the wait for a request.
use idf_custom_arduino.Base.{
  ℕ, ◌+◌, ◌-◌, ◌%◌, ◌^◌, Bool, true, false, Option, none, some, leb, if◌then◌else◌,
}
pub mod Timeout
mod Tests

-- `HTTPClientStatus`
pub data Status : Type 0 where
  hc_none : Status
  hc_wait_read : Status
  hc_wait_close : Status

abbrev pub max_data_wait : ℕ
max_data_wait = 5000

abbrev pub max_close_wait : ℕ
max_close_wait = 2000

-- The fields of `WebServer` for the connection, and what a request changes. C is the type of the
-- clients that the server gives.
pub record Server (C W : Type 0) : Type 0 where
  pub current_client : Option C
  pub current_status : Status
  pub status_change : ℕ
  pub upload : Bool
  pub world : W

-- What a call finds: the server's next client, whether the current one is connected and has sent
-- something, and the times since the start, when it takes a client and when it looks at the clock.
pub record Call (C : Type 0) : Type 0 where
  pub available : Option C
  pub connected : Bool
  pub readable : Bool
  pub taken_at : ℕ
  pub checked_at : ℕ

-- `millis`, an `unsigned long` of 32 bits, and the difference of two of its values.
abbrev pub millis : ℕ → ℕ
millis t = t % 2 ^ 32

abbrev pub since : ℕ → ℕ → ℕ
since now before = (now + 2 ^ 32 - before) % 2 ^ 32

module _ {C W : Type 0} where
  unfoldable pub release : Server C W → Server C W
  release s = record s { current_client = none; current_status = hc_none; upload = false }

  unfoldable pub take_client : C → ℕ → Server C W → Server C W
  take_client c t s = record s {
    current_client = some c;
    current_status = hc_wait_read;
    status_change = millis t;
  }

  -- The part of `close` that is about the connection.
  unfoldable pub close : Server C W → Server C W
  close s = record s { current_status = hc_none }

module _ {C W : Type 0} (serve : C → W → W) where
  abbrev pub serve_current : Server C W → Server C W
  serve_current s = elim s.current_client [
    | none ↦ s
    | some c ↦ record s { world = serve c s.world }
  ]

  -- The part with the switch, and whether the client is kept.
  unfoldable pub attend : Call C → Server C W → Bool × Server C W
  attend call s =
      if call.connected
      then elim s.current_status [
        | hc_none ↦ (false, s)
        | hc_wait_read ↦
            if call.readable
            then (false, serve_current s)
            else (leb (since (millis call.checked_at) s.status_change) max_data_wait, s)
        | hc_wait_close ↦ (leb (since (millis call.checked_at) s.status_change) max_close_wait, s)
      ]
      else (false, s)

  abbrev pub attend_current : Call C → Server C W → Server C W
  attend_current call s = let r = attend call s in if r.0 then r.1 else release r.1

  unfoldable pub handle_client : Call C → Server C W → Server C W
  handle_client call s = elim s.current_status [
    | hc_none ↦ elim call.available [
      | none ↦ s
      | some c ↦ attend_current call (take_client c call.taken_at s)
    ]
    | hc_wait_read ↦ attend_current call s
    | hc_wait_close ↦ attend_current call s
  ]

-- ===== src/WebServer/Client/Timeout.antt =====
-- How long a client that sends nothing is kept.
use idf_custom_arduino.Base.{
  ℕ, ◌+◌, ◌^◌, ◌≤◌, ◌<◌, ◌≡◌, ◌∙◌, ◌⊎◌, inl, inr, sym, subst, ap, refl, Bool-cases, Option-cases,
  arith, true, false, none, some, List, [], ◌∷◌, leb,
}
use idf_custom_arduino.WebServer.Client.{
  hc_none, hc_wait_read, hc_wait_close, max_data_wait, Server, Call, millis, since, attend, release,
  attend_current, take_client, handle_client, close,
}

module _ {C W : Type 0} (serve : C → W → W) where
  -- A series of calls.
  abbrev pub handle_clients : List (Call C) → Server C W → Server C W
  handle_clients [] s = s
  handle_clients (call ∷ calls) s = handle_clients calls (handle_client serve call s)

  -- The client is connected and has sent nothing at the calls, and they look at the clock in time.
  abbrev pub AreSilent : ℕ → List (Call C) → Type 0
  AreSilent start [] = Unit
  AreSilent start (call ∷ calls) =
      (call.connected ≡ true)
      × (call.readable ≡ false)
      × (start ≤ call.checked_at)
      × (call.checked_at ≤ start + max_data_wait)
      × AreSilent start calls

  -- The client has been taken at that time, and is waited for.
  abbrev pub Waits : C → ℕ → Server C W → Type 0
  Waits c start s =
      (s.current_client ≡ some c)
      × (s.current_status ≡ hc_wait_read)
      × (s.status_change ≡ millis start)

  in_time :
      (start now : ℕ)
      → start ≤ now
      → now ≤ start + max_data_wait
      → leb (since (millis now) (millis start)) max_data_wait ≡ true
  in_time start now h k = ground arith

  too_late :
      (start now : ℕ)
      → start + max_data_wait < now
      → now < start + 2 ^ 32
      → leb (since (millis now) (millis start)) max_data_wait ≡ false
  too_late start now h k = ground arith

  stays :
      (start : ℕ) (call : Call C) (s : Server C W)
      → s.current_status ≡ hc_wait_read
      → s.status_change ≡ millis start
      → call.connected ≡ true
      → call.readable ≡ false
      → start ≤ call.checked_at
      → call.checked_at ≤ start + max_data_wait
      → handle_client serve call s ≡ s
  unfolding handle_client attend
  stays start call s e f c r h k = ground (arith, e, f, c, r, in_time start call.checked_at h k)

  goes :
      (start : ℕ) (call : Call C) (s : Server C W)
      → s.current_status ≡ hc_wait_read
      → s.status_change ≡ millis start
      → call.readable ≡ false
      → start + max_data_wait < call.checked_at
      → call.checked_at < start + 2 ^ 32
      → handle_client serve call s ≡ release s
  unfolding handle_client attend release
  goes start call s e f r h k =
      ground (arith, e, f, r, Bool-cases call.connected, too_late start call.checked_at h k)

  all_stay :
      (start : ℕ) (calls : List (Call C)) (s : Server C W)
      → s.current_status ≡ hc_wait_read
      → s.status_change ≡ millis start
      → AreSilent start calls
      → handle_clients calls s ≡ s
  all_stay start [] s e f a = refl
  all_stay start (call ∷ calls) s e f a =
      let x = stays start call s e f a.0 a.1 a.2 a.3 in
      ap (handle_clients calls) x ∙ all_stay start calls s e f a.4

  -- A client that is connected and sends nothing is kept, and nothing changes, at every call of
  -- handleClient up to 5000 ms after it was taken; the first call later than that, before the
  -- clock has gone round once, releases it. The clock may wrap around in between.
  pub silent_client_released :
      (c : C) (start : ℕ) (calls : List (Call C)) (last : Call C) (s : Server C W)
      → AreSilent start calls
      → last.readable ≡ false
      → start + max_data_wait < last.checked_at
      → last.checked_at < start + 2 ^ 32
      → let taken = take_client c start s in
        (handle_clients calls taken ≡ taken)
        × (handle_client serve last (handle_clients calls taken) ≡ release taken)
  unfolding take_client
  silent_client_released c start calls last s a r h k =
      let taken = take_client c start s in
      let e = all_stay start calls taken refl refl a in
      (e, ap (handle_client serve last) e ∙ goes start last taken refl refl r h k)

  -- Between requests, or a client is waited for.
  abbrev pub IsWf : Server C W → Type 0
  IsWf s =
      (s.current_status ≡ hc_none)
      ⊎ ((s.current_status ≡ hc_wait_read) × ((c : C) × (s.current_client ≡ some c)))

  attended :
      (call : Call C) (s : Server C W)
      → s.current_status ≡ hc_wait_read
      → ((attend_current serve call s).current_status ≡ hc_none) ⊎ (attend_current serve call s ≡ s)
  unfolding attend release
  attended call s e =
      let q = leb (since (millis call.checked_at) s.status_change) max_data_wait in
      elim (Bool-cases call.connected) [
        | inr x ↦ inl (ground (arith, x, e))
        | inl x ↦ elim (Bool-cases call.readable) [
          | inl y ↦ inl (ground (arith, x, y, e))
          | inr y ↦ elim (Bool-cases q) [
            | inl z ↦ inr (ground (arith, x, y, z, e))
            | inr z ↦ inl (ground (arith, x, y, z, e))
          ]
        ]
      ]

  attend_current-IsWf :
      (call : Call C) (c : C) (s : Server C W)
      → s.current_status ≡ hc_wait_read
      → s.current_client ≡ some c
      → IsWf (attend_current serve call s)
  attend_current-IsWf call c s e f = elim (attended call s e) [
    | inl x ↦ inl x
    | inr x ↦ inr (
      ap (λ (t : Server C W). t.current_status) x ∙ e,
      (c, ap (λ (t : Server C W). t.current_client) x ∙ f),
    )
  ]

  handle_client-IsWf : (call : Call C) (s : Server C W) → IsWf s → IsWf (handle_client serve call s)
  unfolding handle_client take_client
  handle_client-IsWf call s w = elim w [
    | inr (e, (c, f)) ↦
        let same : handle_client serve call s ≡ attend_current serve call s =
          ap
            (λ st. elim st [
              | hc_none ↦ elim call.available [
                | none ↦ s
                | some c ↦ attend_current serve call (take_client c call.taken_at s)
              ]
              | hc_wait_read ↦ attend_current serve call s
              | hc_wait_close ↦ attend_current serve call s
            ])
            e in
        subst IsWf (sym same) (attend_current-IsWf call c s e f)
    | inl e ↦ elim (Option-cases call.available) [
      | inl a ↦
          let same : handle_client serve call s ≡ s = ground (arith, e, a) in
          subst IsWf (sym same) (inl e)
      | inr (c, a) ↦
          let taken = take_client c call.taken_at s in
          let same : handle_client serve call s ≡ attend_current serve call taken =
            ground (arith, e, a) in
          subst IsWf (sym same) (attend_current-IsWf call c taken refl refl)
    ]
  ]

  -- What happens to a server.
  pub data Event : Type 0 where
    called : Call C → Event
    closed : Event

  abbrev pub run : List Event → Server C W → Server C W
  run [] s = s
  run (called call ∷ events) s = run events (handle_client serve call s)
  run (closed ∷ events) s = run events (close s)

  -- After any series of calls of handleClient and close, the server is between requests or waits
  -- for the request of a client that it has; it never waits for a client to close.
  pub run-IsWf : (events : List Event) (s : Server C W) → IsWf s → IsWf (run events s)
  unfolding close
  run-IsWf [] s w = w
  run-IsWf (called call ∷ events) s w =
      run-IsWf events (handle_client serve call s) (handle_client-IsWf call s w)
  run-IsWf (closed ∷ events) s w = run-IsWf events (close s) (inl refl)

-- ===== src/WebServer/Client/Tests.antt =====
-- A client that is taken shortly before the clock wraps around and sends nothing; instances of the
-- theorems.
use idf_custom_arduino.Base.{
  ℕ, ◌+◌, ◌-◌, ◌^◌, ◌≡◌, refl, inl, arith, true, false, none, some, List, [], ◌∷◌,
}
use idf_custom_arduino.WebServer.Client.{hc_none, Server, Call, release, take_client, handle_client}
use idf_custom_arduino.WebServer.Client.Timeout.{
  handle_clients, IsWf, called, closed, run, silent_client_released, run-IsWf,
}

abbrev serve : ℕ → List ℕ → List ℕ
serve c w = c ∷ w

abbrev idle : Server ℕ (List ℕ)
idle = record {
  current_client = none;
  current_status = hc_none;
  status_change = 0;
  upload = false;
  world = [];
}

abbrev silent : ℕ → Call ℕ
silent t = record {
  available = some 7;
  connected = true;
  readable = false;
  taken_at = t;
  checked_at = t;
}

-- 1000 ms before the clock wraps around.
abbrev start : ℕ
start = 2 ^ 32 - 1000

silent_client_released_example :
    let taken = take_client 7 start idle in
    (handle_clients serve (silent (start + 2000) ∷ silent (start + 5000) ∷ []) taken ≡ taken)
    × (handle_client serve
          (silent (start + 5001))
          (handle_clients serve (silent (start + 2000) ∷ silent (start + 5000) ∷ []) taken)
        ≡ release taken)
silent_client_released_example =
    silent_client_released serve 7 start (silent (start + 2000) ∷ silent (start + 5000) ∷ [])
      (silent (start + 5001)) idle
      (refl, refl, omega arith, omega arith, (refl, refl, omega arith, omega arith, tt)) refl
      (omega arith) (omega arith)

run-IsWf_example : IsWf serve (run serve (called (silent 5) ∷ closed ∷ called (silent 9) ∷ []) idle)
run-IsWf_example =
    run-IsWf serve (called (silent 5) ∷ closed ∷ called (silent 9) ∷ []) idle (inl refl)

-- ===== src/Wifi/Multi/Choice.antt =====
-- libraries/WiFi/src/WiFiMulti.cpp: `addAP`, and the part of `run` that looks through the scanned
-- networks. A string has no zero byte; a null pointer is none. A signal strength is an `int32_t`: it is
-- the number that is 2^31 more, so that INT_MIN is 0.
use idf_custom_arduino.Base.{
  ℕ, ◌%◌, ◌^◌, Bool, true, false, ◌&&◌, ◌||◌, Option, none, some, List, [], ◌∷◌, ◌++◌, ltb, ◌==◌,
  bytes_eq, length, take, if◌then◌else◌,
}

-- `WifiAPlist_t`
pub record Ap : Type 0 where
  pub ssid : List ℕ
  pub passphrase : List ℕ

-- The end of `addAP`.
abbrev pub push : List Ap → List ℕ → Option (List ℕ) → List Ap
push aps ssid none = aps ++ record { ssid = ssid; passphrase = [] } ∷ []
push aps ssid (some phrase) = aps ++ record { ssid = ssid; passphrase = phrase } ∷ []

-- Whether the passphrase is too long.
abbrev pub too_long : Option (List ℕ) → Bool
too_long none = false
too_long (some phrase) = ltb 64 (length phrase)

unfoldable pub add_ap : List Ap → Option (List ℕ) → Option (List ℕ) → Bool × List Ap
add_ap aps none passphrase = (false, aps)
add_ap aps (some ssid) passphrase =
    if (length ssid == 0) || ltb 31 (length ssid)
    then (false, aps)
    else (if too_long passphrase then (false, aps) else (true, push aps ssid passphrase))

-- What `getNetworkInfo` gives.
pub record Network : Type 0 where
  pub ssid : List ℕ
  pub is_open : Bool
  pub rssi : ℕ
  pub bssid : List ℕ
  pub channel : ℕ

-- The loop over the access points: from the last one back.
unfoldable pub known_ap : List Ap → List ℕ → Option Ap
known_ap [] ssid = none
known_ap (a ∷ aps) ssid = elim (known_ap aps ssid) [
  | some e ↦ some e
  | none ↦ if bytes_eq ssid a.ssid then some a else none
]

pub record Best : Type 0 where
  pub network : Ap
  pub db : ℕ
  pub bssid : List ℕ
  pub channel : ℕ

unfoldable pub no_best : Best
no_best = record {
  network = record { ssid = []; passphrase = [] };
  db = 0;
  bssid = [];
  channel = 0;
}

-- A body of the loop over the scanned networks.
unfoldable pub consider : List Ap → Best → Network → Best
consider aps best n = elim (known_ap aps n.ssid) [
  | none ↦ best
  | some e ↦
      if ltb best.db n.rssi && (n.is_open || ltb 1 (length e.passphrase))
      then record { network = e; db = n.rssi; bssid = n.bssid; channel = n.channel }
      else best
]

unfoldable pub look_through : List Ap → Best → List Network → Best
look_through aps best [] = best
look_through aps best (n ∷ ns) = look_through aps (consider aps best n) ns

-- How many of the networks found the loop looks at: `scanResult` is an `int8_t`, and a negative one
-- ends `run` without a choice.
unfoldable pub scan_result : ℕ → ℕ
scan_result found = let n = found % 2 ^ 8 in if ltb n (2 ^ 7) then n else 0

-- The network that `run` connects to, of those that the scan found.
unfoldable pub target : List Ap → List Network → Option Best
target aps ns =
    let best = look_through aps no_best (take (scan_result (length ns)) ns) in
    if ltb 1 (length best.network.ssid) then some best else none

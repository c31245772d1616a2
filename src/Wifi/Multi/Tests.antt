-- ===== src/Wifi/Multi/Tests.antt =====
-- Two known access points and three networks; instances of the theorems.
use idf_custom_arduino.Base.{ℕ, ◌≡◌, refl, true, false, none, some, List, [], ◌∷◌, arith, replicate}
use idf_custom_arduino.Wifi.Multi.Choice.{
  Ap, Network, Best, no_best, known_ap, consider, look_through, scan_result, target, add_ap,
}
use idf_custom_arduino.Wifi.Multi.Strongest.{
  NoneStronger, IsFrom, target_strongest, crowd_ignored, short_ssid_ignored,
}

abbrev home : List ℕ
home = 1 ∷ 2 ∷ []

abbrev aps : List Ap
aps =
    record { ssid = home; passphrase = 7 ∷ 8 ∷ [] }
    ∷ record { ssid = 3 ∷ 4 ∷ []; passphrase = [] }
    ∷ []

abbrev networks : List Network
networks =
    record { ssid = home; is_open = false; rssi = 50; bssid = 5 ∷ []; channel = 1 }
    ∷ record { ssid = home; is_open = false; rssi = 70; bssid = 6 ∷ []; channel = 2 }
    ∷ record { ssid = 3 ∷ 4 ∷ []; is_open = false; rssi = 90; bssid = 7 ∷ []; channel = 3 }
    ∷ []

abbrev second : Best
second = record {
  network = record { ssid = home; passphrase = 7 ∷ 8 ∷ [] };
  db = 70;
  bssid = 6 ∷ [];
  channel = 2;
}

second_chosen : target aps networks ≡ some second
unfolding target scan_result look_through consider known_ap no_best
second_chosen = refl

target_strongest_example : NoneStronger aps networks 70 × IsFrom aps second networks
target_strongest_example = target_strongest aps networks second (omega arith) second_chosen

short_ssid_ignored_example :
    ((add_ap [] (some (9 ∷ [])) none).0 ≡ true)
    × (target (add_ap [] (some (9 ∷ [])) none).1 networks ≡ none)
short_ssid_ignored_example = short_ssid_ignored 9 none networks refl

abbrev crowd : List Network
crowd =
    replicate 130 (record { ssid = home; is_open = true; rssi = 50; bssid = 5 ∷ []; channel = 1 })

crowd_ignored_example : target aps crowd ≡ none
crowd_ignored_example = crowd_ignored aps crowd (omega arith) (omega arith)

-- ===== src/Wifi/Multi/Strongest.antt =====
-- The choice is the strongest network that can be used.
use idf_custom_arduino.Base.{
  ℕ, ◌≤◌, ◌<◌, ◌≡◌, ◌⊎◌, refl, sym, ap, subst, ◌∙◌, inl, inr, Bool, true, false, Option, none, some,
  List, [], ◌∷◌, arith, length, take, take_all, Option-cases,
}
use idf_custom_arduino.Wifi.Multi.Choice.{
  Ap, too_long, add_ap, Network, known_ap, Best, no_best, consider, look_through, scan_result,
  target,
}

-- The access point, if there is one, gives access to the network.
abbrev pub UsableBy : Option Ap → Bool → Type 0
UsableBy none is_open = true ≡ false
UsableBy (some e) is_open = (is_open ≡ true) ⊎ (1 < length e.passphrase)

module _ (aps : List Ap) where
  -- An access point for the network is known, and its passphrase is, if it has one.
  abbrev pub IsUsable : Network → Type 0
  IsUsable n = UsableBy (known_ap aps n.ssid) n.is_open

  -- None of the networks that can be used is stronger.
  abbrev pub NoneStronger : List Network → ℕ → Type 0
  NoneStronger [] db = Unit
  NoneStronger (n ∷ ns) db = (IsUsable n → n.rssi ≤ db) × NoneStronger ns db

  -- The choice is one of the networks, and can be used.
  abbrev pub IsFrom : Best → List Network → Type 0
  IsFrom b [] = true ≡ false
  IsFrom b (n ∷ ns) =
      (IsUsable n
        × (b.db ≡ n.rssi)
        × (b.bssid ≡ n.bssid)
        × (b.channel ≡ n.channel)
        × (known_ap aps n.ssid ≡ some b.network))
      ⊎ IsFrom b ns

  considered :
      (best : Best) (n : Network)
      → let c = consider aps best n in
        (best.db ≤ c.db)
        × (IsUsable n → n.rssi ≤ c.db)
        × ((c ≡ best)
            ⊎ (IsUsable n
                × (c.db ≡ n.rssi)
                × (c.bssid ≡ n.bssid)
                × (c.channel ≡ n.channel)
                × (known_ap aps n.ssid ≡ some c.network)))
  unfolding consider
  considered best n = elim (Option-cases (known_ap aps n.ssid)) [
    | inl e ↦ ground (arith, e)
    | inr (a, e) ↦ ground (arith, e)
  ]

  looked_through :
      (best : Best) (ns : List Network)
      → let b = look_through aps best ns in
        (best.db ≤ b.db) × NoneStronger ns b.db × ((b ≡ best) ⊎ IsFrom b ns)
  unfolding look_through
  looked_through best [] = (omega arith, tt, inl refl)
  looked_through best (n ∷ ns) =
      let c = considered best n in
      let l = looked_through (consider aps best n) ns in
      (
        omega (arith, c.0, l.0),
        ((λ u. omega (arith, c.1 u, l.0)), l.1),
        elim l.2 [
          | inr f ↦ inr (inr f)
          | inl q ↦ elim c.2 [
            | inl r ↦ inl (q ∙ r)
            | inr u ↦ inr (
                inl (
                  subst
                    (λ (x : Best).
                      IsUsable n
                      × (x.db ≡ n.rssi)
                      × (x.bssid ≡ n.bssid)
                      × (x.channel ≡ n.channel)
                      × (known_ap aps n.ssid ≡ some x.network))
                    (sym q) u))
          ]
        ],
      )

  -- The loop sees all networks, if there are no more than an int8_t counts.
  all_seen : (ns : List Network) → length ns < 128 → take (scan_result (length ns)) ns ≡ ns
  unfolding scan_result
  all_seen ns h = take_all (scan_result (length ns)) ns (ground (arith, h))

  -- If at most 127 networks are found, the network that run connects to is one of them, with its
  -- address, channel and strength; its known access point gives access to it, since it is open or
  -- a passphrase of more than one byte is known; and no other network found that can be used is
  -- stronger.
  pub target_strongest :
      (ns : List Network) (b : Best)
      → length ns < 128
      → target aps ns ≡ some b
      → NoneStronger ns b.db × IsFrom b ns
  unfolding target no_best
  target_strongest ns b few e = subst (λ x. NoneStronger ns x.db × IsFrom x ns) same (l.1, chosen)
    where
      best : Best
      best = look_through aps no_best ns

      l : (no_best.db ≤ best.db) × NoneStronger ns best.db × ((best ≡ no_best) ⊎ IsFrom best ns)
      l = looked_through no_best ns

      seen : look_through aps no_best (take (scan_result (length ns)) ns) ≡ best
      seen = ap (look_through aps no_best) (all_seen ns few)

      named : 1 < length best.network.ssid
      named = ground (arith, e, seen)

      same : best ≡ b
      same = ground (arith, e, seen)

      chosen : IsFrom best ns
      chosen = elim l.2 [
        | inl q ↦ absurd (ground (arith, named, ap (λ (x : Best). length x.network.ssid) q))
        | inr f ↦ f
      ]

  -- If 128 to 256 networks are found, run chooses none of them.
  pub crowd_ignored : (ns : List Network) → 128 ≤ length ns → length ns ≤ 256 → target aps ns ≡ none
  unfolding target scan_result look_through no_best
  crowd_ignored ns h k =
      let none_seen : scan_result (length ns) ≡ 0 = ground (arith, h, k) in
      ground (arith, none_seen)

-- With a single known access point, whose name has one byte, no other name is chosen.
one_byte :
    (a : Ap) (best : Best) (ns : List Network)
    → length a.ssid ≤ 1
    → length best.network.ssid ≤ 1
    → length (look_through (a ∷ []) best ns).network.ssid ≤ 1
unfolding look_through consider known_ap
one_byte a best [] h k = k
one_byte a best (n ∷ ns) h k = one_byte a (consider (a ∷ []) best n) ns h (ground (arith, h, k))

-- An access point whose name has one byte is added with success, and then, as the only one, is
-- never connected to, whatever networks are found.
pub short_ssid_ignored :
    (c : ℕ) (phrase : Option (List ℕ)) (ns : List Network)
    → too_long phrase ≡ false
    → ((add_ap [] (some (c ∷ [])) phrase).0 ≡ true)
      × (target (add_ap [] (some (c ∷ [])) phrase).1 ns ≡ none)
unfolding add_ap target no_best
short_ssid_ignored c none ns h = (
  refl,
  ground (
    arith,
    one_byte (record { ssid = c ∷ []; passphrase = [] }) no_best (take (scan_result (length ns)) ns)
        (omega arith) (omega arith),
  ),
)
short_ssid_ignored c (some phrase) ns h = (
  ground (arith, h),
  ground (
    arith,
    h,
    one_byte (record { ssid = c ∷ []; passphrase = phrase }) no_best
        (take (scan_result (length ns)) ns) (omega arith) (omega arith),
  ),
)

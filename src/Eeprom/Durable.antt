-- ===== src/Eeprom/Durable.antt =====
-- What is committed is what a later `begin` loads.
use idf_custom_arduino.Base.{
  ℕ, ◌≡◌, ◌≢◌, ◌∙◌, inl, inr, true, false, Option, some, List, arith, length, copy_into_all,
  Option-cases,
}
use idf_custom_arduino.Base.Int.{ℤ, pos, negsuc}
use idf_custom_arduino.Eeprom.Nvs.{Nvs, IsNvs}
use idf_custom_arduino.Eeprom.State.{Eeprom, write}
use idf_custom_arduino.Eeprom.Begin.{load}

module _ {W : Type 0} {n : Nvs W} {stored : W → List ℕ → Option (List ℕ)}
    (law : IsNvs n stored) where
  -- A clean array is the stored one.
  abbrev pub IsSynced : Eeprom → W → Type 0
  IsSynced e w =
      e.dirty ≡ false
      → (xs : List ℕ) → e.data_block ≡ some xs
      → e.size ≢ 0
      → stored w e.name ≡ some xs

  write-IsSynced : (e : Eeprom) (a : ℤ) (v : ℕ) (w : W) → IsSynced e w → IsSynced (write e a v) w
  unfolding write
  write-IsSynced e (pos a) v w s = λ c xs q z. elim (Option-cases e.data_block) [
    | inl empty ↦ ground (arith, empty, s)
    | inr (ys, q') ↦ let clean = λ (c' : e.dirty ≡ false). s c' ys q' in ground (arith, q', clean)
  ]
  write-IsSynced e (negsuc a) v w s = s

  pub load_loads :
      (e : Eeprom) (size : ℕ) (xs : List ℕ) (e' : Eeprom) (w w' : W)
      → length xs ≡ size
      → stored w e.name ≡ some xs
      → load n e size w ≡ (true, e', w')
      → (e'.data_block ≡ some xs)
        × (e'.size ≡ size)
        × (e'.name ≡ e.name)
        × (stored w' e.name ≡ some xs)
  unfolding load
  load_loads e size xs e' w w' len s h = elim (Option-cases (n.malloc size w).0) [
    | inl z ↦ absurd (ground (arith, z))
    | inr (b, q) ↦
        let s1 = law.malloc_keeps size w e.name ∙ s in
        let got = law.get_gets e.handle size e.name xs (n.malloc size w).1 s1 (omega arith) in
        let all = copy_into_all b xs (omega (arith, law.malloc_length size w b q)) in
        (
          ground (arith, q, got, all),
          ground (arith, q, got),
          ground (arith, q, got),
          ground (arith, q, got, s1),
        )
  ]

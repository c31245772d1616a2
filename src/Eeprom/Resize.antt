-- ===== src/Eeprom/Resize.antt =====
-- A `begin` with a new size.
use idf_custom_arduino.Base.{
  ℕ, zero, suc, ◌-◌, ◌≤◌, ◌<◌, ◌≡◌, ◌≢◌, refl, ap, ◌∙◌, inl, inr, true, Option, some, List, [], ◌∷◌,
  ◌++◌, arith, length, length-take, length-append, Bool-cases, take, copy_into, copy_into_all,
  take_all, replicate, length-replicate, Option-cases, leb, if◌then◌else◌,
}
use idf_custom_arduino.Eeprom.Nvs.{Nvs, IsNvs}
use idf_custom_arduino.Eeprom.State.{Eeprom}
use idf_custom_arduino.Eeprom.Durable.{load_loads}
use idf_custom_arduino.Eeprom.Begin.{
  begin, resize, load, load_resized, truncate, expand, grow, expand_key,
}

copy_into-replicate :
    (size v : ℕ) (xs : List ℕ)
    → length xs ≤ size
    → copy_into (replicate size v) 0 xs ≡ xs ++ replicate (size - length xs) v
copy_into-replicate zero v [] h = refl
copy_into-replicate zero v (x ∷ xs) h = absurd (omega arith)
copy_into-replicate (suc size) v [] h = ap (λ k. replicate k v) {x = suc size} (omega arith)
copy_into-replicate (suc size) v (x ∷ xs) h =
    ap (◌∷◌ x)
      (copy_into-replicate size v xs (omega arith) ∙ ap (λ k. xs ++ replicate k v) (omega arith))

module _ {W : Type 0} {n : Nvs W} {stored : W → List ℕ → Option (List ℕ)}
    (law : IsNvs n stored) where
  -- The array that the stored one becomes.
  abbrev pub resized : List ℕ → ℕ → List ℕ
  resized xs size =
      if leb size (length xs) then take size xs else xs ++ replicate (size - length xs) 0xff

  module _ (room : (h : ℕ) (key xs : List ℕ) (w : W) → (n.set_blob h key xs w).0 ≡ true)
      (e : Eeprom) (other : expand_key ≢ e.name) where
    truncate_stores :
        (size : ℕ) (xs : List ℕ) (w w' : W)
        → stored w e.name ≡ some xs
        → truncate n e size (length xs) w ≡ (true, w')
        → stored w' e.name ≡ some (take size xs)
    unfolding truncate
    truncate_stores size xs w w' s h = elim (Option-cases (n.malloc (length xs) w).0) [
      | inl z ↦ ground (arith, z)
      | inr (b, q) ↦
          let len = law.malloc_length (length xs) w b q in
          let s1 = law.malloc_keeps (length xs) w e.name ∙ s in
          let got =
            law.get_gets e.handle (length b) e.name xs (n.malloc (length xs) w).1 s1
              (omega arith) in
          let all = copy_into_all b xs (omega arith) in
          let put =
            law.set_sets e.handle e.name (take size xs) (n.malloc (length xs) w).1 (room _ _ _ _) in
          let kept =
            law.commit_keeps e.handle
              (n.set_blob e.handle e.name (take size xs) (n.malloc (length xs) w).1).1 e.name in
          ground (arith, q, got, all, put, kept)
    ]

    grow_stores :
        (size : ℕ) (xs : List ℕ) (w w' : W)
        → length xs ≤ size
        → 0 < length xs
        → stored w e.name ≡ some xs
        → grow n e size (length xs) w ≡ (true, w')
        → stored w' e.name ≡ some (xs ++ replicate (size - length xs) 0xff)
    unfolding grow
    grow_stores size xs w w' le nonempty s h = elim (Option-cases (n.malloc size w).0) [
      | inl z ↦ ground (arith, z)
      | inr (b, q) ↦
          let filled : List ℕ = replicate size 0xff in
          let s1 = law.malloc_keeps size w e.name ∙ s in
          let w1 = (n.malloc size w).1 in
          let got =
            law.get_gets e.handle (length filled) e.name xs w1 s1
              (omega (arith, length-replicate {A = ℕ} size 0xff)) in
          let all = copy_into-replicate size 0xff xs le in
          let new : List ℕ = xs ++ replicate (size - length xs) 0xff in
          let w3 = n.commit_nvs e.handle (n.erase_key e.handle e.name w1) in
          let put = law.set_sets e.handle e.name new w3 (room _ _ _ _) in
          let kept = law.commit_keeps e.handle (n.set_blob e.handle e.name new w3).1 e.name in
          ground (arith, q, got, all, put, kept)
    ]

    expand_stores :
        (size : ℕ) (xs : List ℕ) (w w' : W)
        → length xs ≤ size
        → 0 < length xs
        → stored w e.name ≡ some xs
        → expand n e size (length xs) w ≡ (true, w')
        → stored w' e.name ≡ some (xs ++ replicate (size - length xs) 0xff)
    unfolding expand
    expand_stores size xs w w' le nonempty s h =
        elim (Option-cases (n.malloc (size - length xs) w).0) [
          | inl z ↦ ground (arith, z)
          | inr (b, q) ↦
              let w1 = (n.malloc (size - length xs) w).1 in
              let w2 = (n.set_blob e.handle expand_key b w1).1 in
              let w3 = n.erase_key e.handle expand_key w2 in
              let s3 : stored w3 e.name ≡ some xs =
                law.erase_keeps e.handle expand_key e.name w2 other
                ∙ law.set_keeps e.handle expand_key e.name b w1 other
                ∙ law.malloc_keeps (size - length xs) w e.name
                ∙ s in
              ground
                (arith, q, room e.handle expand_key b w1, grow_stores size xs w3 w' le nonempty s3)
        ]

    resize_stores :
        (size : ℕ) (xs : List ℕ) (w w' : W)
        → 0 < length xs
        → stored w e.name ≡ some xs
        → resize n e size (length xs) w ≡ (true, w')
        → stored w' e.name ≡ some (resized xs size)
    unfolding resize
    resize_stores size xs w w' nonempty s h =
        ground (arith, truncate_stores size xs w w' s, expand_stores size xs w w', take_all size xs)

    length-resized : (xs : List ℕ) (size : ℕ) → length (resized xs size) ≡ size
    length-resized xs size = ground (
      arith,
      length-take size xs,
      length-append xs (replicate (size - length xs) 0xff),
      length-replicate {A = ℕ} (size - length xs) 0xff,
    )

    load_resized_loads :
        (size : ℕ) (xs : List ℕ) (e' : Eeprom) (w w' : W)
        → 0 < length xs
        → stored w e.name ≡ some xs
        → load_resized n e size (length xs) w ≡ (true, e', w')
        → (e'.data_block ≡ some (resized xs size))
          × (e'.size ≡ size)
          × (e'.name ≡ e.name)
          × (stored w' e.name ≡ some (resized xs size))
    unfolding load_resized
    load_resized_loads size xs e' w w' nonempty s h =
        elim (Bool-cases (resize n e size (length xs) w).0) [
          | inr z ↦ absurd (ground (arith, z))
          | inl ok ↦
              let w1 = (resize n e size (length xs) w).1 in
              let pair : resize n e size (length xs) w ≡ (true, w1) = ap (λ b. (b, w1)) ok in
              let eq : load n e size w1 ≡ (true, e', w') = ground (arith, ok) in
              load_loads law e size (resized xs size) e' w1 w' (length-resized xs size)
                (resize_stores size xs w w1 nonempty s pair) eq
        ]

  -- On an NVS with room that behaves as documented, for an object that is not named "expand" and
  -- whose stored blob is not empty, a begin with a size other than 0 that reports success loads
  -- the stored blob cut, or padded with 0xFF, to that size, and leaves the same bytes in the
  -- store.
  pub begin_resizes :
      (room : (h : ℕ) (key xs : List ℕ) (w : W) → (n.set_blob h key xs w).0 ≡ true) (e : Eeprom)
      (size : ℕ) (xs : List ℕ) (e' : Eeprom) (w w' : W)
      → expand_key ≢ e.name
      → 0 < size
      → 0 < length xs
      → stored w e.name ≡ some xs
      → begin n e size w ≡ (true, e', w')
      → (e'.data_block ≡ some (resized xs size))
        × (e'.size ≡ size)
        × (e'.name ≡ e.name)
        × (stored w' e.name ≡ some (resized xs size))
  unfolding begin
  begin_resizes room e size xs e' w w' other pos_size nonempty s h =
      elim (Option-cases (n.open_nvs e.name w).0) [
        | inl z ↦ absurd (ground (arith, z))
        | inr (k, q) ↦
            let w1 = (n.open_nvs e.name w).1 in
            let s1 = law.open_keeps e.name w e.name ∙ s in
            let found_it = law.size_found k e.name xs w1 s1 in
            let eq : load_resized n (record e { handle = k }) size (length xs) w1 ≡ (true, e', w') =
              ground (arith, q, found_it) in
            load_resized_loads room (record e { handle = k }) other size xs e' w1 w' nonempty s1 eq
      ]

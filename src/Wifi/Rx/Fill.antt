-- ===== src/Wifi/Rx/Fill.antt =====
-- Filling the block moves bytes from the stream behind those that are unread, and loses none.
use idf_custom_arduino.Base.{
  ℕ, zero, suc, ◌+◌, ◌-◌, ◌≤◌, ◌≡◌, ◌⊎◌, refl, sym, ap, subst, ◌∙◌, inl, inr, not, ◌&&◌, ◌==◌, leb,
  true, none, some, List, [], ◌∷◌, ◌++◌, arith, append-nil, length, take, drop, slice, copy_into,
  take-copy_into, length-copy_into, Option-cases, Bool-cases,
}
use idf_custom_arduino.Wifi.Rx.State.{
  Received, received, would_block, broken, Socket, IsSocket, RxBuffer, block, rewind, r_available,
  receive_more, fill_block, fill_buffer,
}

-- The indices lie in the block, and the block, if there is one, has the size asked for.
abbrev pub IsWf : RxBuffer → Type 0
IsWf r =
    (r.pos ≤ r.fill)
    × (r.fill ≤ length (block r))
    × ((r.buffer ≡ none) ⊎ (length (block r) ≡ r.size))

abbrev pub unread : RxBuffer → List ℕ
unread r = slice r.pos (r.fill - r.pos) (block r)

extend :
    (b new : List ℕ) (at k n m : ℕ)
    → at + k + length new ≤ length b
    → m ≡ k + length new
    → n ≡ at + k
    → slice at m (copy_into b n new) ≡ slice at k b ++ new
extend b new zero k n m h e q =
    take-copy_into m b n new (omega arith) (omega arith) ∙ ap (λ j. take j b ++ new) (omega arith)
extend [] new (suc at) k n m h e q = absurd (omega arith)
extend (x ∷ b) new (suc at) k zero m h e q = absurd (omega arith)
extend (x ∷ b) new (suc at) k (suc n) m h e q = extend b new at k n m (omega arith) e (omega arith)

module _ {W : Type 0} {s : Socket W} {incoming : W → List ℕ} (law : IsSocket s incoming) where
  -- What filling does: `k` bytes are new.
  abbrev pub Filled : RxBuffer → W → ℕ → RxBuffer → W → Type 0
  Filled r w k r' w' =
      (new : List ℕ) × (length new ≡ k)
      × (unread r' ≡ unread r ++ new)
      × (incoming w ≡ new ++ incoming w')
      × IsWf r'

  by_result :
      (r : RxBuffer) (w : W) (f g : ℕ × RxBuffer × W)
      → f ≡ g
      → Filled r w g.0 g.1 g.2
      → Filled r w f.0 f.1 f.2
  by_result r w f g e t = subst (λ (x : ℕ × RxBuffer × W). Filled r w x.0 x.1 x.2) (sym e) t

  unchanged :
      (r r' : RxBuffer) (w w' : W)
      → unread r' ≡ unread r
      → incoming w ≡ incoming w'
      → IsWf r'
      → Filled r w 0 r' w'
  unchanged r r' w w' u i wf = ([], refl, u ∙ sym (append-nil (unread r)), i, wf)

  rewind_keeps :
      (r : RxBuffer)
      → IsWf r
      → IsWf (rewind r) × (unread (rewind r) ≡ unread r) × ((rewind r).buffer ≡ r.buffer)
  rewind_keeps r wf = elim (Bool-cases (not (r.fill == 0) && (r.pos == r.fill))) [
    | inl e ↦ rw e (
      (omega arith, omega arith, wf.2),
      sym (ap (λ k. take k (drop r.pos (block r))) (drained e)),
      refl,
    )
    | inr e ↦ rw e (wf, refl, refl)
  ]
    where
      drained : not (r.fill == 0) && (r.pos == r.fill) ≡ true → r.fill - r.pos ≡ 0
      drained e = ground (arith, e)

  block_size : (r : RxBuffer) (b : List ℕ) → IsWf r → r.buffer ≡ some b → length (block r) ≡ r.size
  block_size r b wf e = ground (arith, wf, e)

  received_fills :
      (r : RxBuffer) (b xs : List ℕ)
      → IsWf r
      → r.buffer ≡ some b
      → length xs ≤ r.size - r.fill
      → let r' = record r {
        buffer = some (copy_into (block r) r.fill xs);
        fill = r.fill + length xs;
      } in
        (unread r' ≡ unread r ++ xs) × IsWf r'
  received_fills r b xs wf e h = (
    extend (block r) xs r.pos (r.fill - r.pos) r.fill (r.fill + length xs - r.pos)
        (omega (arith, wf, block_size r b wf e)) (omega (arith, wf)) (omega (arith, wf)),
    ground (arith, wf, block_size r b wf e, length-copy_into (block r) r.fill xs),
  )

  receive_more-Filled :
      (r : RxBuffer) (b : List ℕ) (fd : ℕ) (w : W)
      → IsWf r
      → r.buffer ≡ some b
      → let f = receive_more s r fd w in Filled r w f.0 f.1 f.2
  unfolding receive_more
  receive_more-Filled r b fd w wf e = go (s.receive fd (r.size - r.fill) w).0 refl
    where
      go :
          (g : Received)
          → (s.receive fd (r.size - r.fill) w).0 ≡ g
          → let f = receive_more s r fd w in Filled r w f.0 f.1 f.2
      go (received xs) q =
          let l = law.bytes_received fd (r.size - r.fill) w xs q in
          let t = received_fills r b xs wf e l.0 in rw (receive_more, q) (xs, refl, t.0, l.1, t.1)
      go would_block q =
          rw (receive_more, q)
            (unchanged r r w _ refl (sym (law.nothing_received fd (r.size - r.fill) w (inl q))) wf)
      go broken q =
          rw (receive_more, q)
            (unchanged r (record r { failed = true }) w _ refl
              (sym (law.nothing_received fd (r.size - r.fill) w (inr q))) wf)

  fill_block-Filled :
      (r : RxBuffer) (b : List ℕ) (w : W)
      → IsWf r
      → r.buffer ≡ some b
      → let f = fill_block s r w in Filled r w f.0 f.1 f.2
  unfolding fill_block r_available
  fill_block-Filled r b w wf e = elim (Bool-cases (leb r.size r.fill)) [
    | inl full ↦
        by_result r w (fill_block s r w) (0, r, w) (ground (arith, full))
          (unchanged r r w w refl refl wf)
    | inr room ↦ elim (Option-cases r.fd) [
      | inl q ↦
          by_result r w (fill_block s r w) (0, r, w) (ground (arith, room, q))
            (unchanged r r w w refl refl wf)
      | inr (fd, q) ↦ elim (Option-cases (s.pending fd w)) [
        | inl p ↦
            let t = record r { failed = true } in
            by_result r w (fill_block s r w) (0, t, w) (ground (arith, room, q, p))
              (unchanged r t w w refl refl wf)
        | inr (k, p) ↦ elim (Bool-cases (k == 0)) [
          | inl z ↦
              by_result r w (fill_block s r w) (0, r, w) (ground (arith, room, q, p, z))
                (unchanged r r w w refl refl wf)
          | inr z ↦
              by_result r w (fill_block s r w) (receive_more s r fd w)
                (ground (arith, room, q, p, z)) (receive_more-Filled r b fd w wf e)
        ]
      ]
    ]
  ]

  from_rewound :
      (r t : RxBuffer) (w v : W) (f : ℕ × RxBuffer × W)
      → unread t ≡ unread r
      → incoming w ≡ incoming v
      → Filled t v f.0 f.1 f.2
      → Filled r w f.0 f.1 f.2
  from_rewound r t w v f u i (new, l, e, c, wf) = (new, l, e ∙ ap (λ x. x ++ new) u, i ∙ c, wf)

  none_unread :
      (r t : RxBuffer) → IsWf r → r.fill ≡ 0 → t.pos ≡ r.pos → t.fill ≡ r.fill → unread t ≡ unread r
  none_unread r t wf z p f =
      let zero_left : (q : RxBuffer) → q.fill ≡ 0 → unread q ≡ [] =
        λ q e. ap (λ k. take k (drop q.pos (block q))) {y = 0} (omega arith) in
      zero_left t (f ∙ z) ∙ sym (zero_left r z)

  empty_block : (r : RxBuffer) → IsWf r → r.buffer ≡ none → r.fill ≡ 0
  empty_block r wf e = ground (arith, wf, e)

  -- Filling appends what it takes from the stream to the unread bytes.
  pub fill_buffer-Filled :
      (r : RxBuffer) (w : W) → IsWf r → let f = fill_buffer s r w in Filled r w f.0 f.1 f.2
  unfolding fill_buffer
  fill_buffer-Filled r w wf = elim (Option-cases r.buffer) [
    | inr (b, e) ↦
        let k = rewind_keeps r wf in
        let f = fill_block s (rewind r) w in
        by_result r w (fill_buffer s r w) f (ground (arith, e)) (
          from_rewound r (rewind r) w w f k.1 refl (fill_block-Filled (rewind r) b w k.0 (k.2 ∙ e)))
    | inl e ↦ elim (Option-cases (s.malloc r.size w).0) [
      | inl q ↦
          let t = record r { failed = true } in
          by_result r w (fill_buffer s r w) (0, t, (s.malloc r.size w).1) (ground (arith, e, q))
            (unchanged r t w _ refl (sym (law.malloc_keeps r.size w)) wf)
      | inr (b, q) ↦
          let t = record r { buffer = some b } in
          let v = (s.malloc r.size w).1 in
          let f = fill_block s (rewind t) v in
          let n = law.malloc_length r.size w b q in
          let z = empty_block r wf e in
          let k = rewind_keeps t (wf.0, omega (arith, n, z), inr n) in
          by_result r w (fill_buffer s r w) f (ground (arith, e, q)) (
            from_rewound r t w v f (none_unread r t wf z refl refl)
              (sym (law.malloc_keeps r.size w))
              (from_rewound t (rewind t) v v f k.1 refl (fill_block-Filled (rewind t) b v k.0 k.2)))
    ]
  ]

-- ===== src/Wifi/Rx/Stream.antt =====
-- Reading takes bytes from the front of the stream, in order, and loses none.
use idf_custom_arduino.Base.{
  ℕ, zero, suc, ◌+◌, ◌-◌, ◌≤◌, ◌<◌, ◌≡◌, refl, sym, ap, ap₂, subst, ◌∙◌, inl, inr, Bool, not, ◌||◌,
  ◌==◌, ltb, leb, true, false, List, [], ◌++◌, arith, append_assoc, append-nil, length,
  length-append, take, take-append_length, if◌then◌else◌, Bool-cases,
}
use idf_custom_arduino.Wifi.Rx.State.{Socket, IsSocket, RxBuffer, fill_buffer}
use idf_custom_arduino.Wifi.Rx.Read.{
  next_bytes, skip, Outcome, error, copied, no_fuel, nothing, read_loop, read_long, read_block,
  read,
}
use idf_custom_arduino.Wifi.Rx.Fill.{IsWf, unread, Filled, fill_buffer-Filled}
use idf_custom_arduino.Wifi.Rx.Window.{length-unread, length-next_bytes, skip-IsWf, unread-skip}

module _ {W : Type 0} {s : Socket W} {incoming : W → List ℕ} (law : IsSocket s incoming) where
  -- The bytes `out` are the next of the stream, and the others are still to come.
  abbrev pub Conserves : RxBuffer → W → List ℕ → RxBuffer → W → Type 0
  Conserves r w out r' w' = unread r ++ incoming w ≡ out ++ (unread r' ++ incoming w')

  Conserves-fill :
      (r r' : RxBuffer) (w w' : W) (k : ℕ) → Filled law r w k r' w' → Conserves r w [] r' w'
  Conserves-fill r r' w w' k (new, l, u, i, wf) =
      ap (◌++◌ (unread r)) i
      ∙ sym (append_assoc (unread r) new (incoming w'))
      ∙ sym (ap (λ t. t ++ incoming w') u)

  Conserves-skip :
      (r : RxBuffer) (w : W) (n : ℕ)
      → IsWf r
      → n ≤ r.fill - r.pos
      → Conserves r w (next_bytes r n) (skip r n) w
  Conserves-skip r w n wf h =
      ap (λ t. t ++ incoming w) (unread-skip r n wf h)
      ∙ append_assoc (next_bytes r n) (unread (skip r n)) (incoming w)

  Conserves-trans :
      (r t q : RxBuffer) (w v x : W) (a b : List ℕ)
      → Conserves r w a t v
      → Conserves t v b q x
      → Conserves r w (a ++ b) q x
  Conserves-trans r t q w v x a b c d =
      c ∙ ap (◌++◌ a) d ∙ sym (append_assoc a b (unread q ++ incoming x))

  -- The outcome of a part of a read that has `out` already, and copies at most `left` more.
  abbrev Copies : RxBuffer → W → List ℕ → ℕ → Outcome W → Type 0
  Copies r w out left (error r' w') = true ≡ false
  Copies r w out left no_fuel = true ≡ false
  Copies r w out left (copied all r' w') =
      (more : List ℕ) × (all ≡ out ++ more)
      × (length more ≤ left)
      × Conserves r w more r' w'
      × IsWf r'

  after :
      (r t : RxBuffer) (w v : W) (out a : List ℕ) (left later : ℕ) (o : Outcome W)
      → Conserves r w a t v
      → length a + later ≤ left
      → Copies t v (out ++ a) later o
      → Copies r w out left o
  after r t w v out a left later (error r' w') c h k = k
  after r t w v out a left later no_fuel c h k = k
  after r t w v out a left later (copied all r' w') c h (more, e, l, d, wf) = (
    a ++ more,
    e ∙ append_assoc out a more,
    omega (arith, length-append a more),
    Conserves-trans r t r' w v w' a more c d,
    wf,
  )

  stopped :
      (r t : RxBuffer) (w v : W) (out : List ℕ) (left : ℕ)
      → Conserves r w [] t v
      → IsWf t
      → Copies r w out left (copied out t v)
  stopped r t w v out left c wf = ([], sym (append-nil out), omega arith, c, wf)

  by_outcome :
      (r : RxBuffer) (w : W) (out : List ℕ) (left : ℕ) (o q : Outcome W)
      → o ≡ q
      → Copies r w out left q
      → Copies r w out left o
  by_outcome r w out left o q e k = subst (λ x. Copies r w out left x) (sym e) k

  read_loop-Copies :
      (fuel : ℕ) (out : List ℕ) (left : ℕ) (r : RxBuffer) (w : W)
      → IsWf r
      → left < fuel
      → Copies r w out left (read_loop s fuel out left r w)
  unfolding read_loop
  read_loop-Copies zero out left r w wf h = absurd (omega arith)
  read_loop-Copies (suc fuel) out left r w wf h = elim (Bool-cases (left == 0)) [
    | inl z ↦
        by_outcome r w out left whole (copied out r w) (ground (arith, z))
          (stopped r r w w out left refl wf)
    | inr z ↦ elim (Bool-cases (f.0 == 0)) [
      | inl e ↦
          by_outcome r w out left whole (copied out f.1 f.2) (ground (arith, z, e))
            (stopped r f.1 w f.2 out left kept filled.4)
      | inr e ↦ by_outcome r w out left whole rest (ground (arith, z, e)) (
          after r (skip f.1 n) w f.2 out (next_bytes f.1 n) left (left - n) rest
            (Conserves-trans r f.1 (skip f.1 n) w f.2 f.2 [] (next_bytes f.1 n) kept
              (Conserves-skip f.1 f.2 n filled.4 le))
            (omega (arith, length-next_bytes f.1 n filled.4 le, small))
            (read_loop-Copies fuel (out ++ next_bytes f.1 n) (left - n) (skip f.1 n) f.2
              (skip-IsWf f.1 n filled.4 le) (ground (arith, z, some_read z e))))
    ]
  ]
    where
      whole : Outcome W
      whole = read_loop s (suc fuel) out left r w

      f : ℕ × RxBuffer × W
      f = fill_buffer s r w

      n : ℕ
      n = if ltb left (f.1.fill - f.1.pos) then left else f.1.fill - f.1.pos

      rest : Outcome W
      rest = read_loop s fuel (out ++ next_bytes f.1 n) (left - n) (skip f.1 n) f.2

      filled : Filled law r w f.0 f.1 f.2
      filled = fill_buffer-Filled law r w wf

      kept : Conserves r w [] f.1 f.2
      kept = Conserves-fill r f.1 w f.2 f.0 filled

      le : n ≤ f.1.fill - f.1.pos
      le = ground arith

      small : n ≤ left
      small = ground arith

      some_read : (left == 0) ≡ false → (f.0 == 0) ≡ false → 0 < n
      some_read z e =
          let l = length-unread f.1 filled.4 in
          let g : length (unread f.1) ≡ length (unread r) + f.0 =
            omega (arith, ap length filled.2, length-append (unread r) filled.0, filled.1) in
          ground (arith, z, e, l, g)

  read_long-Copies :
      (r t : RxBuffer) (a len : ℕ) (w v : W)
      → Conserves r w [] t v
      → IsWf t
      → a ≤ t.fill - t.pos
      → a ≤ len
      → Copies r w [] len (read_long s t a len v)
  unfolding read_long
  read_long-Copies r t a len w v c wf h k =
      let n = length-next_bytes t a wf h in
      after r (skip t a) w v [] (next_bytes t a) len (len - a) (read_long s t a len v)
        (Conserves-trans r t (skip t a) w v v [] (next_bytes t a) c (Conserves-skip t v a wf h))
        (omega arith)
        (read_loop-Copies (suc (len - a)) (next_bytes t a) (len - a) (skip t a) v
          (skip-IsWf t a wf h) (omega arith))

  read_once :
      (r t : RxBuffer) (len : ℕ) (w v : W)
      → Conserves r w [] t v
      → IsWf t
      → len ≤ t.fill - t.pos
      → Copies r w [] len (copied (next_bytes t len) (skip t len) v)
  read_once r t len w v c wf h = (
    next_bytes t len,
    refl,
    omega (arith, length-next_bytes t len wf h),
    Conserves-trans r t (skip t len) w v v [] (next_bytes t len) c (Conserves-skip t v len wf h),
    skip-IsWf t len wf h,
  )

  read_block-Copies :
      (r : RxBuffer) (len : ℕ) (w : W) → IsWf r → Copies r w [] len (read_block s r len w)
  unfolding read_block
  read_block-Copies r len w wf = elim (Bool-cases (leb len a)) [
    | inl e ↦
        by_outcome r w [] len whole (copied (next_bytes r len) (skip r len) w) (ground (arith, e))
          (read_once r r len w w refl wf (ground (arith, e)))
    | inr e ↦ elim (Bool-cases (leb (len - a) (r.size - r.fill))) [
      | inr k ↦
          by_outcome r w [] len whole (read_long s r a len w) (ground (arith, e, k))
            (read_long-Copies r r a len w w refl wf (omega arith) (ground (arith, e)))
      | inl k ↦ elim (Bool-cases (leb (len - a) f.0)) [
        | inl g ↦
            by_outcome r w [] len whole (copied (next_bytes f.1 len) (skip f.1 len) f.2)
              (ground (arith, e, k, g))
              (read_once r f.1 len w f.2 kept filled.4 (ground (arith, g, grown)))
        | inr g ↦
            by_outcome r w [] len whole (read_long s f.1 a len f.2) (ground (arith, e, k, g)) (
              read_long-Copies r f.1 a len w f.2 kept filled.4 (omega (arith, grown))
                (ground (arith, e)))
      ]
    ]
  ]
    where
      a : ℕ
      a = r.fill - r.pos

      whole : Outcome W
      whole = read_block s r len w

      f : ℕ × RxBuffer × W
      f = fill_buffer s r w

      filled : Filled law r w f.0 f.1 f.2
      filled = fill_buffer-Filled law r w wf

      kept : Conserves r w [] f.1 f.2
      kept = Conserves-fill r f.1 w f.2 f.0 filled

      grown : f.1.fill - f.1.pos ≡ a + f.0
      grown = omega (
        arith,
        length-unread f.1 filled.4,
        length-unread r wf,
        ap length filled.2,
        length-append (unread r) filled.0,
        filled.1,
      )

  -- What a read may end with: bytes from the front of the stream, or an error and no byte.
  abbrev pub Reads : RxBuffer → W → ℕ → Outcome W → Type 0
  Reads r w len (error r' w') = (r'.failed ≡ true) × Conserves r w [] r' w' × IsWf r'
  Reads r w len (copied out r' w') = (length out ≤ len) × Conserves r w out r' w' × IsWf r'
  Reads r w len no_fuel = true ≡ false

  -- On a well-formed receive buffer over a socket that behaves as documented, a read ends within
  -- its fuel; it copies at most as many bytes as asked for, they are the next of the stream, those
  -- it leaves are the ones that follow, and the buffer stays well-formed; or it reports an error,
  -- and no byte of the stream is lost.
  pub read_in_order :
      (r : RxBuffer) (present : Bool) (len : ℕ) (w : W)
      → IsWf r
      → Reads r w len (read s r present len w)
  unfolding read
  read_in_order r present len w wf = elim (Bool-cases (not present || (len == 0))) [
    | inl e ↦ by_read whole (nothing s r w) (ground (arith, e)) (nothing-Reads r w refl wf)
    | inr e ↦ elim (Bool-cases (r.pos == r.fill)) [
      | inr k ↦
          by_read whole (read_block s r len w) (ground (arith, e, k))
            (as_read r w (read_block s r len w) refl (read_block-Copies r len w wf))
      | inl k ↦ elim (Bool-cases (f.0 == 0)) [
        | inl g ↦
            by_read whole (nothing s f.1 f.2) (ground (arith, e, k, g))
              (nothing-Reads f.1 f.2 kept filled.4)
        | inr g ↦ by_read whole (read_block s f.1 len f.2) (ground (arith, e, k, g)) (
            as_read f.1 f.2 (read_block s f.1 len f.2) kept
              (read_block-Copies f.1 len f.2 filled.4))
      ]
    ]
  ]
    where
      whole : Outcome W
      whole = read s r present len w

      f : ℕ × RxBuffer × W
      f = fill_buffer s r w

      filled : Filled law r w f.0 f.1 f.2
      filled = fill_buffer-Filled law r w wf

      kept : Conserves r w [] f.1 f.2
      kept = Conserves-fill r f.1 w f.2 f.0 filled

      by_read : (o q : Outcome W) → o ≡ q → Reads r w len q → Reads r w len o
      by_read o q e k = subst (λ x. Reads r w len x) (sym e) k

      nothing-Reads :
          (t : RxBuffer) (v : W) → Conserves r w [] t v → IsWf t → Reads r w len (nothing s t v)
      nothing-Reads t v c k = elim (Bool-cases t.failed) [
        | inl e ↦ by_read (nothing s t v) (error t v) (ground (arith, e)) (e, c, k)
        | inr e ↦ by_read (nothing s t v) (copied [] t v) (ground (arith, e)) (omega arith, c, k)
      ]

      as_read :
          (t : RxBuffer) (v : W) (o : Outcome W)
          → Conserves r w [] t v
          → Copies t v [] len o
          → Reads r w len o
      as_read t v (error r' w') c k = absurd cc
      as_read t v no_fuel c k = k
      as_read t v (copied out r' w') c (more, e, l, d, k) = (
        omega (arith, ap length e),
        Conserves-trans r t r' w v w' [] out c
            (d ∙ ap (λ x. x ++ (unread r' ++ incoming w')) (sym e)),
        k,
      )

  pub read_unread :
      (r : RxBuffer) (len : ℕ) (w : W)
      → IsWf r
      → 0 < len
      → len ≤ length (unread r)
      → read s r true len w ≡ copied (take len (unread r)) (skip r len) w
  unfolding read read_block
  read_unread r len w wf h k =
      let l = length-unread r wf in
      let n = length-next_bytes r len wf (omega arith) in
      let front : take len (unread r) ≡ next_bytes r len =
        ap₂ take (sym n) (unread-skip r len wf (omega arith))
        ∙ take-append_length (next_bytes r len) (unread (skip r len)) in
      let go : read s r true len w ≡ copied (next_bytes r len) (skip r len) w =
        ground (arith, l, h, k) in
      go ∙ ap (λ t. copied t (skip r len) w) (sym front)

-- ===== src/Wifi/Rx/Window.antt =====
-- The unread part of the block, and what skipping its first bytes leaves.
use idf_custom_arduino.Base.{
  ℕ, zero, suc, ◌+◌, ◌-◌, ◌≤◌, ◌≡◌, refl, ap, ◌∙◌, List, [], ◌∷◌, ◌++◌, arith, length, length-drop,
  length-take, take, drop,
}
use idf_custom_arduino.Wifi.Rx.State.{RxBuffer, block}
use idf_custom_arduino.Wifi.Rx.Read.{next_bytes, skip}
use idf_custom_arduino.Wifi.Rx.Fill.{IsWf, unread}

take_split : (n m k : ℕ) (b : List ℕ) → k ≡ n + m → take k b ≡ take n b ++ take m (drop n b)
take_split zero m k b e = ap (λ j. take j b) (omega arith)
take_split (suc n) m zero b e = absurd (omega arith)
take_split (suc n) zero (suc k) [] e = refl
take_split (suc n) (suc m) (suc k) [] e = refl
take_split (suc n) m (suc k) (x ∷ b) e = ap (◌∷◌ x) (take_split n m k b (omega arith))

drop_more : (p n q : ℕ) (b : List ℕ) → q ≡ p + n → drop n (drop p b) ≡ drop q b
drop_more zero n q b e = ap (λ j. drop j b) (omega arith)
drop_more (suc p) zero zero [] e = refl
drop_more (suc p) zero (suc q) [] e = refl
drop_more (suc p) (suc n) zero [] e = refl
drop_more (suc p) (suc n) (suc q) [] e = refl
drop_more (suc p) n zero (x ∷ b) e = absurd (omega arith)
drop_more (suc p) n (suc q) (x ∷ b) e = drop_more p n q b (omega arith)

pub length-unread : (r : RxBuffer) → IsWf r → length (unread r) ≡ r.fill - r.pos
length-unread r wf =
    omega
      (arith, wf, length-take (r.fill - r.pos) (drop r.pos (block r)), length-drop r.pos (block r))

pub length-next_bytes :
    (r : RxBuffer) (n : ℕ) → IsWf r → n ≤ r.fill - r.pos → length (next_bytes r n) ≡ n
length-next_bytes r n wf h =
    omega (arith, wf, h, length-take n (drop r.pos (block r)), length-drop r.pos (block r))

pub skip-IsWf : (r : RxBuffer) (n : ℕ) → IsWf r → n ≤ r.fill - r.pos → IsWf (skip r n)
skip-IsWf r n wf h = (omega (arith, wf), wf.1, wf.2)

pub unread-skip :
    (r : RxBuffer) (n : ℕ)
    → IsWf r
    → n ≤ r.fill - r.pos
    → unread r ≡ next_bytes r n ++ unread (skip r n)
unread-skip r n wf h =
    take_split n (r.fill - (r.pos + n)) (r.fill - r.pos) (drop r.pos (block r)) (omega (arith, wf))
    ∙ ap (λ t. next_bytes r n ++ take (r.fill - (r.pos + n)) t)
        (drop_more r.pos n (r.pos + n) (block r) refl)

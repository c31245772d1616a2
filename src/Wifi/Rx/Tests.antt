-- ===== src/Wifi/Rx/Tests.antt =====
-- A stream of which three bytes at most are received at a time; instances of the theorems.
use idf_custom_arduino.Base.{
  ℕ, zero, suc, ◌≡◌, ◌⊎◌, ◌∙◌, false, refl, sym, inl, inr, ap, true, Option, none, some, List, [],
  ◌∷◌, ◌++◌, arith, length, length-take, length-replicate, take, drop, replicate, min,
}
use idf_custom_arduino.Wifi.Rx.State.{
  Received, received, would_block, broken, Socket, IsSocket, RxBuffer,
}
use idf_custom_arduino.Wifi.Rx.Read.{read}
use idf_custom_arduino.Wifi.Rx.Stream.{Reads, read_in_order}

abbrev portion : ℕ → ℕ
portion cap = min cap 3

abbrev stream : Socket (List ℕ)
stream = record {
  malloc = λ k w. (some (replicate k 0), w);
  pending = λ fd w. some (length w);
  receive = λ fd cap w. (received (take (portion cap) w), drop (portion cap) w);
}

abbrev received_bytes : Received → List ℕ
received_bytes (received xs) = xs
received_bytes would_block = []
received_bytes broken = []

abbrev is_received : Received → ℕ
is_received (received xs) = 1
is_received would_block = 0
is_received broken = 0

abbrev block_bytes : Option (List ℕ) → List ℕ
block_bytes none = []
block_bytes (some b) = b

take-drop : (n : ℕ) (xs : List ℕ) → xs ≡ take n xs ++ drop n xs
take-drop zero xs = refl
take-drop (suc n) [] = refl
take-drop (suc n) (x ∷ xs) = ap (◌∷◌ x) (take-drop n xs)

stream-IsSocket : IsSocket stream (λ w. w)
stream-IsSocket = record {
  malloc_keeps = λ k w. refl;
  malloc_length = λ k w b e. sym (ap (λ o. length (block_bytes o)) e) ∙ length-replicate k 0;
  bytes_received = λ fd cap w xs e.
      let q : take (portion cap) w ≡ xs = ap received_bytes e in
      (
        omega (arith, ap length q, length-take (portion cap) w),
        take-drop (portion cap) w ∙ ap (λ t. t ++ drop (portion cap) w) q,
      );
  nothing_received = λ fd cap w e. absurd (not_received fd cap w e);
}
  where
    not_received :
        (fd cap : ℕ) (w : List ℕ)
        → ((stream.receive fd cap w).0 ≡ would_block) ⊎ ((stream.receive fd cap w).0 ≡ broken)
        → ⊥
    not_received fd cap w (inl e) = omega (arith, ap is_received e)
    not_received fd cap w (inr e) = omega (arith, ap is_received e)

abbrev new_buffer : RxBuffer
new_buffer = record { size = 4; buffer = none; pos = 0; fill = 0; fd = some 5; failed = false }

abbrev incoming : List ℕ
incoming = 1 ∷ 2 ∷ 3 ∷ 4 ∷ 5 ∷ 6 ∷ 7 ∷ []

read_in_order_example :
    Reads stream-IsSocket new_buffer incoming 6 (read stream new_buffer true 6 incoming)
read_in_order_example =
    read_in_order stream-IsSocket new_buffer true 6 incoming (omega arith, omega arith, inl refl)

abbrev half_read : RxBuffer
half_read = record {
  size = 4;
  buffer = some (9 ∷ 8 ∷ 7 ∷ 6 ∷ []);
  pos = 1;
  fill = 4;
  fd = some 5;
  failed = false;
}

-- ===== src/Wifi/Udp/Datagrams.antt =====
-- Which datagrams go out, and how an incoming one is read.
use idf_custom_arduino.Base.{
  ℕ, zero, suc, ◌+◌, ◌≤◌, ◌<◌, ◌≡◌, ◌≢◌, ◌⊎◌, refl, sym, ap, ◌∙◌, inl, inr, true, none, some, List,
  [], ◌∷◌, ◌++◌, arith, append_assoc, append-nil, length, length-append, take, drop, Option-cases,
}
use idf_custom_arduino.Base.Int.{pos}
use idf_custom_arduino.Wifi.Udp.Net.{Net, Cbuf, IsCbuf}
use idf_custom_arduino.Wifi.Udp.State.{WifiUdp}
use idf_custom_arduino.Wifi.Udp.Send.{
  open_for_sending, begin_packet, begin_packet_to, end_packet, write_byte, write,
}
use idf_custom_arduino.Wifi.Udp.Receive.{parse_packet, available, read_byte, read, peek}

module _ {W : Type 0} {B : Type 0} (net : Net W) where
  abbrev with_tx : WifiUdp B → List ℕ → WifiUdp B
  with_tx u t = record u { tx_buffer = some t }

  write_fits :
      (u : WifiUdp B) (t xs : List ℕ) (w : W)
      → length t + length xs ≤ 1460
      → write net (with_tx u t) xs w ≡ some (with_tx u (t ++ xs), w)
  unfolding write write_byte
  write_fits u t [] w h = ap (λ r. some (with_tx u r, w)) (sym (append-nil t))
  write_fits u t (x ∷ xs) w h =
      ground (
        arith,
        write_fits u (t ++ x ∷ []) xs w,
        length-append t (x ∷ []),
        append_assoc t (x ∷ []) xs,
      )

  write_append :
      (u : WifiUdp B) (s t ys : List ℕ) (w : W)
      → length s + length t ≤ 1460
      → write net (with_tx u s) (t ++ ys) w ≡ write net (with_tx u (s ++ t)) ys w
  unfolding write write_byte
  write_append u s [] ys w h = ap (λ r. write net (with_tx u r) ys w) (sym (append-nil s))
  write_append u s (x ∷ t) ys w h = ground (
    arith,
    write_append u (s ++ x ∷ []) t ys w,
    length-append s (x ∷ []),
    append_assoc s (x ∷ []) t,
  )

  write_empty :
      (u : WifiUdp B) (x : ℕ) (xs : List ℕ) (w : W)
      → write net (with_tx u []) (x ∷ xs) w ≡ write net (with_tx u (x ∷ [])) xs w
  unfolding write write_byte
  write_empty u x xs w = refl

  write_full :
      (u : WifiUdp B) (t : List ℕ) (x : ℕ) (xs : List ℕ) (w : W)
      → length t ≡ 1460
      → write net (with_tx u t) (x ∷ xs) w
        ≡ write net
            (with_tx u (x ∷ []))
            xs
            (net.send_to u.udp_server t u.remote_ip u.remote_port w).1
  unfolding write write_byte end_packet
  write_full u t x xs w h = ground (arith, h)

  begun :
      (u : WifiUdp B) (ip port : ℕ) (w : W)
      → let b = begin_packet_to net u ip port w in
        b.0 ≡ true
        → (b.1 ≡ with_tx b.1 [])
          × (b.1.remote_ip ≡ ip)
          × (b.1.remote_port ≡ port)
          × (b.1.udp_server ≢ none)
  unfolding begin_packet_to begin_packet open_for_sending
  begun u ip port w h = ground (arith, h)

  -- After a beginPacket that succeeds, bytes that fit a datagram are all taken without a send, and
  -- endPacket sends just these, as one datagram, to the receiver asked for, over an open socket.
  pub packet_sent :
      (u : WifiUdp B) (ip port : ℕ) (xs : List ℕ) (w : W)
      → (begin_packet_to net u ip port w).0 ≡ true
      → length xs ≤ 1460
      → let b = begin_packet_to net u ip port w in
        (v : WifiUdp B) × (write net b.1 xs b.2 ≡ some (v, b.2))
        × (v.udp_server ≢ none)
        × (end_packet net v b.2 ≡ net.send_to v.udp_server xs ip port b.2)
  unfolding end_packet
  packet_sent u ip port xs w h le =
      let b = begin_packet_to net u ip port w in
      let g = begun u ip port w h in
      (
        with_tx b.1 xs,
        ap (λ v. write net v xs b.2) g.0 ∙ write_fits b.1 [] xs b.2 (omega arith),
        g.3,
        ground (arith, g),
      )

  -- Writing more than 1460 bytes to an empty outgoing datagram sends the first 1460 as a datagram
  -- of their own, whether or not that succeeds, and goes on with the others.
  pub write_splits :
      (u : WifiUdp B) (t : List ℕ) (x : ℕ) (xs : List ℕ) (w : W)
      → u.tx_buffer ≡ some []
      → length t ≡ 1460
      → write net u (t ++ x ∷ xs) w
        ≡ write net u (x ∷ xs) (net.send_to u.udp_server t u.remote_ip u.remote_port w).1
  write_splits u t x xs w e h =
      let q : u ≡ with_tx u [] = ground (arith, e) in
      let sent = (net.send_to u.udp_server t u.remote_ip u.remote_port w).1 in
      ap (λ v. write net v (t ++ x ∷ xs) w) q
      ∙ write_append u [] t (x ∷ xs) w (omega arith)
      ∙ write_full u t x xs w h
      ∙ sym (write_empty u x xs sent)
      ∙ sym (ap (λ v. write net v (x ∷ xs) sent) q)

nothing_left : (n : ℕ) → (take {A = ℕ} n [] ≡ []) × (drop {A = ℕ} n [] ≡ [])
nothing_left zero = (refl, refl)
nothing_left (suc n) = (refl, refl)

module _ {B : Type 0} {cbuf : Cbuf B} {content : B → List ℕ} (law : IsCbuf cbuf content) where
  -- The bytes that can be read.
  abbrev pub unread : WifiUdp B → List ℕ
  unread u = elim u.rx_buffer [ none ↦ [] | some b ↦ content b ]

  -- There is no empty queue.
  abbrev pub IsTight : WifiUdp B → Type 0
  IsTight u = (u.rx_buffer ≡ none) ⊎ (0 < length (unread u))

  pub parse_packet_receives :
      {W : Type 0}
      → (net : Net W) (u : WifiUdp B) (w : W) (xs : List ℕ) (ip port : ℕ) → u.rx_buffer ≡ none
      → (net.allocate w).0 ≡ true
      → (net.receive_from u.udp_server 1460 (net.allocate w).1).0 ≡ some (xs, ip, port)
      → let r = parse_packet net cbuf u w in
        (r.0 ≡ length xs)
        × (unread r.1 ≡ xs)
        × IsTight r.1
        × (r.1.remote_ip ≡ ip)
        × (r.1.remote_port ≡ port)
  unfolding parse_packet
  parse_packet_receives net u w [] ip port e a g = ground (arith, e, a, g)
  parse_packet_receives net u w (x ∷ xs) ip port e a g =
      ground (arith, e, a, g, law.filled (x ∷ xs))

  -- A datagram that is being read is not replaced.
  pub packet_kept :
      {W : Type 0}
      → (net : Net W) (u : WifiUdp B) (w : W) → 0 < length (unread u)
      → parse_packet net cbuf u w ≡ (0, u, w)
  unfolding parse_packet
  packet_kept net u w h = ground (arith, h)

  -- On an object that keeps no empty queue, available is the number of unread bytes, read takes at
  -- most as many as asked for from their front and leaves the others, and again no empty queue is
  -- kept.
  pub read_refines :
      (u : WifiUdp B) (n : ℕ)
      → IsTight u
      → (available cbuf u ≡ length (unread u))
        × ((read cbuf u n).0 ≡ take n (unread u))
        × (unread (read cbuf u n).1 ≡ drop n (unread u))
        × IsTight (read cbuf u n).1
  unfolding available read
  read_refines u n t = elim (Option-cases u.rx_buffer) [
    | inl e ↦ ground (arith, e, nothing_left n)
    | inr (b, e) ↦
        ground (arith, e, law.counted b, law.bytes_read b n, law.counted (cbuf.read b n).1)
  ]

  -- Single bytes come from the front of the unread ones.
  pub read_byte_refines :
      (u : WifiUdp B) (x : ℕ) (xs : List ℕ)
      → unread u ≡ x ∷ xs
      → (peek cbuf u ≡ pos x)
        × ((read_byte cbuf u).0 ≡ pos x)
        × (unread (read_byte cbuf u).1 ≡ xs)
        × IsTight (read_byte cbuf u).1
  unfolding peek read_byte
  read_byte_refines u x xs e = elim (Option-cases u.rx_buffer) [
    | inl z ↦ absurd (ground (arith, e, z))
    | inr (b, z) ↦
        ground
          (arith, e, z, law.peeked b x xs, law.byte_read b x xs, law.counted (cbuf.read_byte b).1)
  ]

-- ===== src/Wifi/Udp/Tests.antt =====
-- A network that keeps the datagrams that are sent; instances of the theorems.
use idf_custom_arduino.Base.{
  ℕ, ◌≡◌, ◌≢◌, refl, inr, true, none, some, List, [], ◌∷◌, ◌++◌, arith, length, take, drop,
  replicate, length-replicate,
}
use idf_custom_arduino.Base.Int.{ℤ, pos, negsuc}
use idf_custom_arduino.Wifi.Udp.Net.{Net, Cbuf, IsCbuf}
use idf_custom_arduino.Wifi.Udp.State.{WifiUdp}
use idf_custom_arduino.Wifi.Udp.Send.{
  begin_packet_to, begin_packet, open_for_sending, end_packet, write,
}
use idf_custom_arduino.Wifi.Udp.Receive.{available, read}
use idf_custom_arduino.Wifi.Udp.Datagrams.{packet_sent, write_splits, unread, IsTight, read_refines}

abbrev Sent : Type 0
Sent = List (List ℕ)

abbrev hello : List ℕ
hello = 104 ∷ 105 ∷ []

-- Every call succeeds, and "hi" is always there to be received.
abbrev net : Net Sent
net = record {
  allocate = λ w. (true, w);
  socket = λ w. (some 3, w);
  reuse_address = λ fd w. (true, w);
  bind = λ fd address port w. (true, w);
  set_nonblocking = λ fd w. w;
  add_membership = λ fd group w. (true, w);
  drop_membership = λ fd group w. w;
  close = λ fd w. w;
  send_to = λ fd xs ip port w. (true, xs ∷ w);
  receive_from = λ fd size w. (some (hello, 77, 53), w);
  get_host_by_name = λ host w. (none, w);
}

abbrev first : List ℕ → ℤ
first [] = negsuc 0
first (x ∷ xs) = pos x

abbrev rest : List ℕ → List ℕ
rest [] = []
rest (x ∷ xs) = xs

abbrev list_cbuf : Cbuf (List ℕ)
list_cbuf = record {
  new = λ size. [];
  write = λ b xs. b ++ xs;
  available = λ b. length b;
  read_byte = λ b. (first b, rest b);
  read = λ b n. (take n b, drop n b);
  peek = first;
}

list_cbuf-IsCbuf : IsCbuf list_cbuf (λ b. b)
list_cbuf-IsCbuf = record {
  filled = λ xs. refl;
  counted = λ b. refl;
  byte_read = λ b x xs e. rw e (refl, refl);
  bytes_read = λ b n. (refl, refl);
  peeked = λ b x xs e. rw e;
}

abbrev grouped : WifiUdp (List ℕ)
grouped = record {
  udp_server = some 3;
  multicast_ip = 9;
  remote_ip = 0;
  server_port = 5353;
  remote_port = 0;
  tx_buffer = some [];
  rx_buffer = none;
}

abbrev waiting : WifiUdp (List ℕ)
waiting = record grouped { rx_buffer = some hello }

packet_sent_example :
    let b = begin_packet_to net grouped 77 53 [] in
    (v : WifiUdp (List ℕ)) × (write net b.1 hello b.2 ≡ some (v, b.2))
    × (v.udp_server ≢ none)
    × (end_packet net v b.2 ≡ (true, hello ∷ b.2))
unfolding begin_packet_to begin_packet open_for_sending
packet_sent_example = packet_sent net grouped 77 53 hello [] refl (omega arith)

write_splits_example :
    write net grouped (replicate 1460 7 ++ 8 ∷ hello) []
    ≡ write net grouped (8 ∷ hello) (replicate 1460 7 ∷ [])
write_splits_example =
    write_splits net grouped (replicate 1460 7) 8 hello [] refl (length-replicate {A = ℕ} 1460 7)

read_refines_example :
    (available list_cbuf waiting ≡ 2)
    × ((read list_cbuf waiting 1).0 ≡ 104 ∷ [])
    × (unread list_cbuf-IsCbuf (read list_cbuf waiting 1).1 ≡ 105 ∷ [])
    × IsTight list_cbuf-IsCbuf (read list_cbuf waiting 1).1
read_refines_example = read_refines list_cbuf-IsCbuf waiting 1 (inr (omega arith))

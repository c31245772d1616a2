-- ===== src/Wifi/Udp/Life.antt =====
-- Opening and closing: which sockets the object is left with.
use idf_custom_arduino.Base.{
  ℕ, ◌≡◌, ◌≢◌, ◌⊎◌, refl, inl, inr, Bool, true, false, none, some, [], arith, Option-cases,
  Bool-cases,
}
use idf_custom_arduino.Wifi.Udp.Net.{Net}
use idf_custom_arduino.Wifi.Udp.State.{
  WifiUdp, stop, bind_socket, open_socket, begin, join_group, begin_multicast,
}
use idf_custom_arduino.Wifi.Udp.Send.{
  open_for_sending, begin_packet, begin_packet_to, begin_multicast_packet,
}

module _ {B : Type 0} where
  -- Only an open socket is in a group.
  abbrev pub IsWf : WifiUdp B → Type 0
  IsWf u = u.udp_server ≡ none → u.multicast_ip ≡ 0

  -- The object has been closed.
  abbrev pub IsStopped : WifiUdp B → Type 0
  IsStopped u =
      (u.udp_server ≡ none) × (u.multicast_ip ≡ 0) × (u.tx_buffer ≡ none) × (u.rx_buffer ≡ none)

  -- A failed opening: no socket; a good one: a socket and an empty outgoing datagram.
  abbrev pub Opened : Bool → ℕ → ℕ → WifiUdp B → Type 0
  Opened ok port group u =
      (u.rx_buffer ≡ none)
      × (u.server_port ≡ port)
      × (((ok ≡ true) × (u.udp_server ≢ none) × (u.tx_buffer ≡ some []) × (u.multicast_ip ≡ group))
          ⊎ ((ok ≡ false) × (u.udp_server ≡ none) × (u.multicast_ip ≡ 0)))

module _ {W : Type 0} {B : Type 0} (net : Net W) where
  stop-IsStopped : (u : WifiUdp B) (w : W) → IsWf u → IsStopped (stop net u w).0
  unfolding stop
  stop-IsStopped u w wf = ground (arith, wf)

  bind_socket-Opened :
      (u : WifiUdp B) (fd address : ℕ) (w : W)
      → u.rx_buffer ≡ none
      → u.multicast_ip ≡ 0
      → u.udp_server ≡ some fd
      → u.tx_buffer ≡ some []
      → let r = bind_socket net u fd address w in Opened r.0 u.server_port 0 r.1
  unfolding bind_socket stop
  bind_socket-Opened u fd address w r m s t = ground (arith, r, m, s, t)

  open_socket-Opened :
      (u : WifiUdp B) (address : ℕ) (w : W)
      → u.rx_buffer ≡ none
      → u.multicast_ip ≡ 0
      → u.tx_buffer ≡ some []
      → let r = open_socket net u address w in Opened r.0 u.server_port 0 r.1
  unfolding open_socket
  open_socket-Opened u address w r m t = elim (Option-cases (net.socket w).0) [
    | inl e ↦ rw (open_socket, e) (r, refl, inr (refl, refl, m))
    | inr (fd, e) ↦
        rw (open_socket, e)
          (bind_socket-Opened (record u { udp_server = some fd }) fd address (net.socket w).1 r m
            refl t)
  ]

  pub begin_opens :
      (u : WifiUdp B) (address port : ℕ) (w : W)
      → IsWf u
      → let r = begin net u address port w in Opened r.0 port 0 r.1
  unfolding begin
  begin_opens u address port w wf =
      let s = stop-IsStopped u w wf in
      let stopped = stop net u w in
      let opened =
        open_socket-Opened (record stopped.0 { server_port = port; tx_buffer = some [] }) address
          (net.allocate stopped.1).1 s.3 s.1 refl in
      elim (Bool-cases (net.allocate stopped.1).0) [
        | inl e ↦ rw e opened
        | inr e ↦ rw e (s.3, refl, inr (refl, s.0, s.1))
      ]

  join_group-Opened :
      (u : WifiUdp B) (address : ℕ) (w : W)
      → u.rx_buffer ≡ none
      → u.udp_server ≢ none
      → u.tx_buffer ≡ some []
      → u.multicast_ip ≡ 0
      → let r = join_group net u address w in Opened r.0 u.server_port address r.1
  unfolding join_group stop
  join_group-Opened u address w r s t m = ground (arith, r, s, t, m)

  pub begin_multicast_opens :
      (u : WifiUdp B) (address port : ℕ) (w : W)
      → IsWf u
      → let r = begin_multicast net u address port w in Opened r.0 port address r.1
  unfolding begin_multicast
  begin_multicast_opens u address port w wf =
      let b = begin_opens u 0 port w wf in
      let begun = begin net u 0 port w in
      let joined = join_group-Opened begun.1 address begun.2 in ground (arith, b, joined)

  -- A packet to the group goes to its address and the port of the object.
  pub multicast_packet_targets :
      (u : WifiUdp B) (group port : ℕ) (w : W)
      → Opened true port group u
      → port ≢ 0
      → group ≢ 0
      → begin_multicast_packet net u w
        ≡ (true, record u { remote_ip = group; remote_port = port }, w)
  unfolding begin_multicast_packet begin_packet_to begin_packet open_for_sending
  multicast_packet_targets u group port w o p g = ground (arith, o, p, g)

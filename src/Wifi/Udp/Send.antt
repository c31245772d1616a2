-- ===== src/Wifi/Udp/Send.antt =====
-- libraries/WiFi/src/WiFiUdp.cpp: the outgoing datagram.
use idf_custom_arduino.Base.{
  ℕ, Bool, true, false, ◌||◌, Option, none, some, List, [], ◌∷◌, ◌++◌, ◌==◌, length, if◌then◌else◌,
}
use idf_custom_arduino.Wifi.Udp.Net.{Net}
use idf_custom_arduino.Wifi.Udp.State.{WifiUdp, buffer_size}

module _ {W : Type 0} {B : Type 0} (net : Net W) where
  -- Open a socket, if there is none, for an object with an empty `tx_buffer`.
  unfoldable pub open_for_sending : WifiUdp B → W → Bool × WifiUdp B × W
  open_for_sending u w = elim u.udp_server [
    | some fd ↦ (true, u, w)
    | none ↦
        let made = net.socket w in
        elim made.0 [
          | none ↦ (false, u, made.1)
          | some fd ↦ (true, record u { udp_server = some fd }, net.set_nonblocking fd made.1)
        ]
  ]

  unfoldable pub begin_packet : WifiUdp B → W → Bool × WifiUdp B × W
  unfolding open_for_sending
  begin_packet u w =
      let block = net.allocate w in
      let v = record u { tx_buffer = some [] } in
      let started : Bool × WifiUdp B × W = elim u.tx_buffer [
        | some xs ↦ open_for_sending v w
        | none ↦ if block.0 then open_for_sending v block.1 else (false, u, block.1)
      ] in
      if u.remote_port == 0 then (false, u, w) else started

  unfoldable pub begin_packet_to : WifiUdp B → ℕ → ℕ → W → Bool × WifiUdp B × W
  unfolding begin_packet
  begin_packet_to u ip port w = begin_packet (record u { remote_ip = ip; remote_port = port }) w

  unfoldable pub begin_packet_to_host : WifiUdp B → List ℕ → ℕ → W → Bool × WifiUdp B × W
  unfolding begin_packet_to
  begin_packet_to_host u host port w =
      let found = net.get_host_by_name host w in
      elim found.0 [ none ↦ (false, u, found.1) | some ip ↦ begin_packet_to u ip port found.1 ]

  unfoldable pub begin_multicast_packet : WifiUdp B → W → Bool × WifiUdp B × W
  unfolding begin_packet_to
  begin_multicast_packet u w =
      if (u.server_port == 0) || (u.multicast_ip == 0)
      then (false, u, w)
      else begin_packet_to u u.multicast_ip u.server_port w

  -- The buffer is left as it is; a null buffer has no bytes.
  unfoldable pub end_packet : WifiUdp B → W → Bool × W
  end_packet u w =
      let xs : List ℕ = elim u.tx_buffer [ none ↦ [] | some xs ↦ xs ] in
      net.send_to u.udp_server xs u.remote_ip u.remote_port w

  -- `none`: a write through a null pointer.
  unfoldable pub write_byte : WifiUdp B → ℕ → W → Option (WifiUdp B × W)
  write_byte u byte w = elim u.tx_buffer [
    | none ↦ none
    | some xs ↦
        if length xs == buffer_size
        then some (record u { tx_buffer = some (byte ∷ []) }, (end_packet u w).1)
        else some (record u { tx_buffer = some (xs ++ byte ∷ []) }, w)
  ]

  unfoldable pub write : WifiUdp B → List ℕ → W → Option (WifiUdp B × W)
  unfolding write_byte
  write u [] w = some (u, w)
  write u (x ∷ xs) w = elim (write_byte u x w) [ none ↦ none | some r ↦ write r.0 xs r.1 ]

-- ===== src/Wifi/Udp/State.antt =====
-- libraries/WiFi/src/WiFiUdp.cpp: the object, `begin`, `beginMulticast` and `stop`.
use idf_custom_arduino.Base.{
  ℕ, Bool, true, false, Option, none, some, List, [], ◌==◌, if◌then◌else◌,
}
use idf_custom_arduino.Wifi.Udp.Net.{Net}

-- The size of `tx_buffer` and of the block that a datagram is received in.
abbrev pub buffer_size : ℕ
buffer_size = 1460

-- `tx_buffer` is none if it is NULL, and else its first `tx_buffer_len` bytes: the ones behind them
-- are never read. The address 0 is INADDR_ANY.
pub record WifiUdp (B : Type 0) : Type 0 where
  pub udp_server : Option ℕ
  pub multicast_ip : ℕ
  pub remote_ip : ℕ
  pub server_port : ℕ
  pub remote_port : ℕ
  pub tx_buffer : Option (List ℕ)
  pub rx_buffer : Option B

unfoldable pub init : {B : Type 0} → WifiUdp B
init = record {
  udp_server = none;
  multicast_ip = 0;
  remote_ip = 0;
  server_port = 0;
  remote_port = 0;
  tx_buffer = none;
  rx_buffer = none;
}

module _ {W : Type 0} {B : Type 0} (net : Net W) where
  unfoldable pub stop : WifiUdp B → W → WifiUdp B × W
  stop u w =
      let v = record u { tx_buffer = none; rx_buffer = none } in
      elim u.udp_server [
        | none ↦ (v, w)
        | some fd ↦ (
          record v { multicast_ip = 0; udp_server = none },
          net.close fd (if u.multicast_ip == 0 then w else net.drop_membership fd u.multicast_ip w),
        )
      ]

  -- From the new socket on.
  unfoldable pub bind_socket : WifiUdp B → ℕ → ℕ → W → Bool × WifiUdp B × W
  unfolding stop
  bind_socket u fd address w =
      let reuse = net.reuse_address fd w in
      let bound = net.bind fd address u.server_port reuse.1 in
      if reuse.0
      then (if bound.0
          then (true, u, net.set_nonblocking fd bound.1)
          else (false, (stop u bound.1).0, (stop u bound.1).1))
      else (false, (stop u reuse.1).0, (stop u reuse.1).1)

  unfoldable pub open_socket : WifiUdp B → ℕ → W → Bool × WifiUdp B × W
  unfolding bind_socket
  open_socket u address w =
      let made = net.socket w in
      elim made.0 [
        | none ↦ (false, record u { udp_server = none }, made.1)
        | some fd ↦ bind_socket (record u { udp_server = some fd }) fd address made.1
      ]

  unfoldable pub begin : WifiUdp B → ℕ → ℕ → W → Bool × WifiUdp B × W
  unfolding stop open_socket
  begin u address port w =
      let stopped = stop u w in
      let v = record stopped.0 { server_port = port } in
      let block = net.allocate stopped.1 in
      if block.0
      then open_socket (record v { tx_buffer = some [] }) address block.1
      else (false, v, block.1)

  -- Join the group on the socket that `begin` has opened.
  unfoldable pub join_group : WifiUdp B → ℕ → W → Bool × WifiUdp B × W
  unfolding stop
  join_group u address w = elim u.udp_server [
    | none ↦ (false, u, w)
    | some fd ↦
        let joined = net.add_membership fd address w in
        if joined.0
        then (true, record u { multicast_ip = address }, joined.1)
        else (false, (stop u joined.1).0, (stop u joined.1).1)
  ]

  unfoldable pub begin_multicast : WifiUdp B → ℕ → ℕ → W → Bool × WifiUdp B × W
  unfolding begin join_group
  begin_multicast u address port w =
      let begun = begin u 0 port w in
      if begun.0
      then (if address == 0 then begun else join_group begun.1 address begun.2)
      else (false, begun.1, begun.2)

-- ===== src/Wifi/Udp/Receive.antt =====
-- libraries/WiFi/src/WiFiUdp.cpp: the incoming datagram.
use idf_custom_arduino.Base.{ℕ, Option, none, some, List, [], ◌∷◌, ◌==◌, length, if◌then◌else◌}
use idf_custom_arduino.Base.Int.{ℤ, negsuc}
use idf_custom_arduino.Wifi.Udp.Net.{Net, Cbuf}
use idf_custom_arduino.Wifi.Udp.State.{WifiUdp, buffer_size}

module _ {W : Type 0} {B : Type 0} (net : Net W) (cbuf : Cbuf B) where
  -- `cbuf_of` is `new cbuf(len)` with the datagram written to it; none if the datagram is empty.
  abbrev pub cbuf_of : List ℕ → Option B
  cbuf_of [] = none
  cbuf_of (x ∷ xs) = some (cbuf.write (cbuf.new (length (x ∷ xs))) (x ∷ xs))

  unfoldable pub parse_packet : WifiUdp B → W → ℕ × WifiUdp B × W
  parse_packet u w = elim u.rx_buffer [
    | some b ↦ (0, u, w)
    | none ↦
        let block = net.allocate w in
        let got = net.receive_from u.udp_server buffer_size block.1 in
        let received : ℕ × WifiUdp B × W = elim got.0 [
          | none ↦ (0, u, got.1)
          | some (xs, ip, port) ↦ (
            length xs,
            record u { remote_ip = ip; remote_port = port; rx_buffer = cbuf_of xs },
            got.1,
          )
        ] in
        if block.0 then received else (0, u, block.1)
  ]

module _ {B : Type 0} (cbuf : Cbuf B) where
  unfoldable pub available : WifiUdp B → ℕ
  available u = elim u.rx_buffer [ none ↦ 0 | some b ↦ cbuf.available b ]

  -- The queue, or no queue if it is empty.
  abbrev pub kept : B → Option B
  kept b = if cbuf.available b == 0 then none else some b

  unfoldable pub read_byte : WifiUdp B → ℤ × WifiUdp B
  read_byte u = elim u.rx_buffer [
    | none ↦ (negsuc 0, u)
    | some b ↦ ((cbuf.read_byte b).0, record u { rx_buffer = kept (cbuf.read_byte b).1 })
  ]

  -- The bytes that are read; the code returns their number.
  unfoldable pub read : WifiUdp B → ℕ → List ℕ × WifiUdp B
  read u len = elim u.rx_buffer [
    | none ↦ ([], u)
    | some b ↦ ((cbuf.read b len).0, record u { rx_buffer = kept (cbuf.read b len).1 })
  ]

  unfoldable pub peek : WifiUdp B → ℤ
  peek u = elim u.rx_buffer [ none ↦ negsuc 0 | some b ↦ cbuf.peek b ]

  unfoldable pub flush : WifiUdp B → WifiUdp B
  flush u = record u { rx_buffer = none }

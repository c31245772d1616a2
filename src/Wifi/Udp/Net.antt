-- ===== src/Wifi/Udp/Net.antt =====
-- What libraries/WiFi/src/WiFiUdp.cpp calls of the platform: the sockets, whose state is `W`, and the
-- byte queue `cbuf` of the core, whose values are `B`. An address is its 32 bits as a number.
use idf_custom_arduino.Base.{ℕ, ◌≡◌, Bool, Option, List, ◌∷◌, length, take, drop}
use idf_custom_arduino.Base.Int.{ℤ, pos}

-- A Boolean is whether the call succeeds. No socket, `none`, is -1.
pub record Net (W : Type 0) : Type 0 where
  pub allocate : W → Bool × W
  pub socket : W → Option ℕ × W
  pub reuse_address : ℕ → W → Bool × W
  pub bind : ℕ → ℕ → ℕ → W → Bool × W
  pub set_nonblocking : ℕ → W → W
  pub add_membership : ℕ → ℕ → W → Bool × W
  pub drop_membership : ℕ → ℕ → W → W
  pub close : ℕ → W → W
  pub send_to : Option ℕ → List ℕ → ℕ → ℕ → W → Bool × W
  -- The datagram, of at most as many bytes as asked for, with its sender's address and port.
  pub receive_from : Option ℕ → ℕ → W → Option (List ℕ × ℕ × ℕ) × W
  pub get_host_by_name : List ℕ → W → Option ℕ × W

pub record Cbuf (B : Type 0) : Type 0 where
  pub new : ℕ → B
  pub write : B → List ℕ → B
  pub available : B → ℕ
  pub read_byte : B → ℤ × B
  pub read : B → ℕ → List ℕ × B
  pub peek : B → ℤ

-- The documented behaviour of the queue: `content b` are the bytes in it, the oldest first.
pub record IsCbuf {B : Type 0} (c : Cbuf B) (content : B → List ℕ) : Type 0 where
  pub filled : (xs : List ℕ) → content (c.write (c.new (length xs)) xs) ≡ xs
  pub counted : (b : B) → c.available b ≡ length (content b)
  pub byte_read :
      (b : B) (x : ℕ) (xs : List ℕ)
      → content b ≡ x ∷ xs
      → ((c.read_byte b).0 ≡ pos x) × (content (c.read_byte b).1 ≡ xs)
  pub bytes_read :
      (b : B) (n : ℕ)
      → ((c.read b n).0 ≡ take n (content b)) × (content (c.read b n).1 ≡ drop n (content b))
  pub peeked : (b : B) (x : ℕ) (xs : List ℕ) → content b ≡ x ∷ xs → c.peek b ≡ pos x

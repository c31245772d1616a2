-- ===== src/Http/Stalls.antt =====
-- What the transfer does when nothing more arrives.
use idf_custom_arduino.Base.{◌≡◌, true}
use idf_custom_arduino.Http.Transfer.{Connection}

-- States in which the connection is up and nothing arrives, and that waiting does not leave.
pub record IsSilent {W : Type 0} (conn : Connection W) (Silent : W → Type 0) : Type 0 where
  pub connected_lem : (w : W) → Silent w → conn.connected w ≡ true
  pub available_lem : (w : W) → Silent w → (conn.available w).0 ≡ 0
  pub stays : (w : W) → Silent w → Silent (conn.available w).1

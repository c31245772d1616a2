-- ===== src/Http/Url.antt =====
-- libraries/HTTPClient/src/HTTPClient.cpp: the parts of the URL in `beginInternal`. The functions of String
-- are parameters. `Address` is about a URL with all its parts.
use idf_custom_arduino.Base.{
  ℕ, ◌+◌, ◌%◌, ◌^◌, Bool, Option, none, some, List, [], ◌∷◌, ◌++◌, bytes_eq, length, if◌then◌else◌,
}
use idf_custom_arduino.WebServer.Arguments.{Strings}
pub mod Address
mod Tests

-- `remove(0, n)`, and `toInt`, whose `long` is the number of its 32 bits.
pub record Texts : Type 0 where
  pub strings : Strings
  pub remove_front : List ℕ → ℕ → List ℕ
  pub to_int : List ℕ → ℕ

-- The fields of HTTPClient that are set: the credentials before they are encoded, none if they are left
-- as they are, and the port, a `uint16_t`, likewise.
pub record Target : Type 0 where
  pub protocol : List ℕ
  pub authorization : Option (List ℕ)
  pub host : List ℕ
  pub port : Option ℕ
  pub uri : List ℕ

module _ (txt : Texts) where
  -- The part up to a character and the part behind it, if it is there.
  abbrev pub cut : List ℕ → ℕ → Option (List ℕ × List ℕ)
  cut s c = elim (txt.strings.index_of s c 0) [
    | none ↦ none
    | some i ↦ some (txt.strings.substring s 0 (some i), txt.remove_front s (i + 1))
  ]

  unfoldable pub host_and_port : List ℕ → List ℕ × Option ℕ
  host_and_port host = elim (cut host 58) [
    | none ↦ (host, none)
    | some p ↦ (p.0, some (txt.to_int p.1 % 2 ^ 16))
  ]

  -- The name before the host, and the rest.
  unfoldable pub credentials : List ℕ → Option (List ℕ) × List ℕ
  credentials host = elim (cut host 64) [ none ↦ (none, host) | some p ↦ (some p.0, p.1) ]

  -- The host with what belongs to it, and the address on it.
  unfoldable pub authority : List ℕ → List ℕ × List ℕ
  authority url = elim (txt.strings.index_of url 47 0) [
    | none ↦
        let whole = url ++ 47 ∷ [] in
        (txt.strings.substring whole 0 (some (length url)), txt.remove_front whole (length url))
    | some i ↦ (txt.strings.substring url 0 (some i), txt.remove_front url i)
  ]

  -- None is a failure; what it leaves in the fields is left out.
  unfoldable pub begin_internal : List ℕ → List ℕ → Option Target
  begin_internal url expected_protocol = elim (txt.strings.index_of url 58 0) [
    | none ↦ none
    | some i ↦
        let protocol = txt.strings.substring url 0 (some i) in
        let a = authority (txt.remove_front url (i + 3)) in
        let c = credentials a.0 in
        let h = host_and_port c.1 in
        if bytes_eq protocol expected_protocol
        then some
            (record { protocol = protocol; authorization = c.0; host = h.0; port = h.1; uri = a.1 })
        else none
  ]

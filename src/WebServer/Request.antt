-- ===== src/WebServer/Request.antt =====
-- libraries/WebServer/src/Parsing.cpp: `_parseRequest` with `readBytesWithTimeout` and `_collectHeader`. The
-- connection, the functions of String, the names of the methods and `_parseForm` are parameters. `Timed` has the body and `Parse` the whole, and `Plain`
-- is about requests without a body.
use idf_custom_arduino.Base.{
  ℕ, zero, suc, ◌+◌, ◌-◌, ◌*◌, ◌%◌, ◌^◌, Bool, true, false, not, ◌&&◌, ◌||◌, Option, none, some,
  List, [], ◌∷◌, ◌++◌, ltb, leb, ◌==◌, bytes_eq, length, text, if◌then◌else◌,
}
use idf_custom_arduino.WebServer.Arguments.{RequestArgument, Strings, parse_arguments}
use idf_custom_arduino.WebServer.Routes.{Handler, http_any, find_handler}
pub mod Timed
pub mod Parse
pub mod Lines
pub mod Plain
mod Tests

-- What the code uses of the client: `readStringUntil`, a poll of `available`, `delay(1)`, `readBytes`, and
-- whether there is memory for so many bytes.
pub record Reader (W : Type 0) : Type 0 where
  pub read_until : W → ℕ → List ℕ × W
  pub available : W → ℕ × W
  pub delay : W → W
  pub read_bytes : W → ℕ → List ℕ × W
  pub flush : W → W
  pub room : W → ℕ → Bool

-- What it uses of a String, beside the indices: `toInt` as a `uint32_t`.
pub record Texts : Type 0 where
  pub strings : Strings
  pub trim : List ℕ → List ℕ
  pub equals_ignore_case : List ℕ → List ℕ → Bool
  pub starts_with : List ℕ → List ℕ → Bool
  pub without_quotes : List ℕ → List ℕ
  pub to_int : List ℕ → ℕ

-- The names of `_http_method_str`, which come from the HTTP parser of the platform, and its numbers of
-- the methods that may have a body.
pub record Methods : Type 0 where
  pub names : List (List ℕ)
  pub http_post : ℕ
  pub http_put : ℕ
  pub http_patch : ℕ
  pub http_delete : ℕ

unfoldable pub with_body : Methods → ℕ → Bool
with_body m method =
    (method == m.http_post)
    || (method == m.http_put)
    || (method == m.http_patch)
    || (method == m.http_delete)

-- The fields of `WebServer` for a request.
pub record Request (W : Type 0) : Type 0 where
  pub current_version : ℕ
  pub current_uri : List ℕ
  pub current_method : ℕ
  pub chunked : Bool
  pub current_args : List RequestArgument
  pub current_headers : List RequestArgument
  pub host_header : List ℕ
  pub current_handler : Option Handler
  pub conn : W

abbrev pub clear_values : List RequestArgument → List RequestArgument
clear_values [] = []
clear_values (h ∷ hs) = record h { value = [] } ∷ clear_values hs

abbrev pub digits : ℕ → List ℕ → ℕ
digits acc [] = acc
digits acc (c ∷ cs) =
    let rest = digits (acc * 10 + (c - 48)) cs in if leb 48 c && leb c 57 then rest else acc

abbrev pub skip_spaces : List ℕ → List ℕ
skip_spaces [] = []
skip_spaces (c ∷ cs) =
    let rest = skip_spaces cs in if (c == 32) || (leb 9 c && leb c 13) then rest else c ∷ cs

abbrev pub signed_digits : List ℕ → ℕ
signed_digits [] = 0
signed_digits (c ∷ cs) =
    if c == 45
    then (2 ^ 8 - digits 0 cs % 2 ^ 8) % 2 ^ 8
    else if c == 43
    then digits 0 cs % 2 ^ 8
    else digits 0 (c ∷ cs) % 2 ^ 8

-- `atoi`, as a `uint8_t`.
abbrev pub atoi : List ℕ → ℕ
atoi s = signed_digits (skip_spaces s)

abbrev pub find_method : List (List ℕ) → List ℕ → ℕ → ℕ
find_method [] name i = http_any
find_method (n ∷ ns) name i =
    let rest = find_method ns name (i + 1) in if bytes_eq name n then i else rest

-- A C string ends at the first zero byte.
abbrev pub c_string : List ℕ → List ℕ
c_string [] = []
c_string (b ∷ bs) = let rest = c_string bs in if b == 0 then [] else b ∷ rest

-- What the headers say of a body.
pub record Body : Type 0 where
  pub boundary : List ℕ
  pub is_form : Bool
  pub is_encoded : Bool
  pub content_length : ℕ

abbrev pub no_body : Body
no_body = record { boundary = []; is_form = false; is_encoded = false; content_length = 0 }

abbrev pub max_post_wait : ℕ
max_post_wait = 5000

module _ (txt : Texts) where
  unfoldable pub collect_header : List ℕ → List ℕ → List RequestArgument → List RequestArgument
  collect_header name value [] = []
  collect_header name value (h ∷ hs) =
      let rest = collect_header name value hs in
      if txt.equals_ignore_case h.key name then record h { value = value } ∷ hs else h ∷ rest

  abbrev pub take_host : List ℕ → List ℕ → List ℕ → List ℕ
  take_host name value host = if txt.equals_ignore_case name (text "Host") then value else host

  abbrev pub body_host : List ℕ → List ℕ → List ℕ → List ℕ
  body_host name value host =
      if txt.equals_ignore_case name (text "Content-Type")
        || txt.equals_ignore_case name (text "Content-Length")
      then host
      else take_host name value host

  -- What a header says of the body.
  unfoldable pub body_header : List ℕ → List ℕ → Body → Body
  body_header name value b =
      if txt.equals_ignore_case name (text "Content-Type")
      then (if txt.starts_with value (text "text/plain")
          then record b { is_form = false }
          else if txt.starts_with value (text "application/x-www-form-urlencoded")
          then record b { is_form = false; is_encoded = true }
          else if txt.starts_with value (text "multipart/")
          then (let from : ℕ = elim (txt.strings.index_of value 61 0) [
            | none ↦ 0
            | some i ↦ i + 1
          ] in
              record b {
                boundary = txt.without_quotes (txt.strings.substring value from none);
                is_form = true;
              })
          else b)
      else if txt.equals_ignore_case name (text "Content-Length")
      then record b { content_length = txt.to_int value }
      else b

  module _ {W : Type 0} (reader : Reader W) where
    abbrev pub next_line : W → List ℕ × W
    next_line w = let r = reader.read_until w 13 in (r.0, (reader.read_until r.1 10).1)

    abbrev pub with_header : List ℕ → List ℕ → List ℕ → W → Request W → Request W
    with_header name value host w q = record q {
      current_headers = collect_header (c_string name) (c_string value) q.current_headers;
      host_header = host;
      conn = w;
    }

    -- The loop for requests without a body. It is none when the rounds given first do not suffice, and so
    -- below.
    unfoldable pub read_headers : ℕ → Request W → Option (Request W)
    read_headers zero q = none
    read_headers (suc k) q =
        let l = next_line q.conn in
        if length l.0 == 0
        then some (record q { conn = l.1 })
        else elim (txt.strings.index_of l.0 58 0) [
          | none ↦ some (record q { conn = l.1 })
          | some d ↦
              let name = txt.strings.substring l.0 0 (some d) in
              let value = txt.strings.substring l.0 (d + 2) none in
              read_headers k (with_header name value (take_host name value q.host_header) l.1 q)
        ]

    -- The loop for those that may have one.
    unfoldable pub read_body_headers : ℕ → Body → Request W → Option (Body × Request W)
    read_body_headers zero b q = none
    read_body_headers (suc k) b q =
        let l = next_line q.conn in
        if length l.0 == 0
        then some (b, record q { conn = l.1 })
        else elim (txt.strings.index_of l.0 58 0) [
          | none ↦ some (b, record q { conn = l.1 })
          | some d ↦
              let name = txt.strings.substring l.0 0 (some d) in
              let value = txt.trim (txt.strings.substring l.0 (d + 1) none) in
              read_body_headers k (body_header name value b)
                (with_header name value (body_host name value q.host_header) l.1 q)
        ]

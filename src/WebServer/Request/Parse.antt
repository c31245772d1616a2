-- ===== src/WebServer/Request/Parse.antt =====
-- libraries/WebServer/src/Parsing.cpp: `_parseRequest`, with `_parseForm` given.
use idf_custom_arduino.Base.{
  ℕ, ◌+◌, Bool, true, false, Option, none, some, List, [], ◌==◌, if◌then◌else◌,
}
use idf_custom_arduino.WebServer.Routes.{Handler, http_any, find_handler}
use idf_custom_arduino.WebServer.Request.{
  Reader, Texts, Methods, with_body, Request, clear_values, atoi, find_method, no_body, next_line,
  read_headers, read_body_headers,
}
use idf_custom_arduino.WebServer.Request.Timed.{with_args, plain_body}

module _ (txt : Texts) (methods : Methods) {W : Type 0} (reader : Reader W) where
  abbrev pub flushed : Bool × Request W → Bool × Request W
  flushed r = if r.0 then (true, record r.1 { conn = reader.flush r.1.conn }) else r

  -- Behind the request line: the headers, the arguments and the body, with `_parseForm` given.
  unfoldable pub read_rest :
      (List ℕ → ℕ → Request W → Option (Bool × Request W))
      → ℕ
      → List ℕ
      → Request W
      → Option (Bool × Request W)
  read_rest parse_form k search q =
      if with_body methods q.current_method
      then elim (read_body_headers txt reader k no_body q) [
        | none ↦ none
        | some h ↦
            if h.0.is_form
            then elim (with_args txt methods reader search h.1) [
              | none ↦ none
              | some q1 ↦ parse_form h.0.boundary h.0.content_length q1
            ]
            else plain_body txt methods reader h.0 search h.1
      ]
      else elim (read_headers txt reader k q) [
        | none ↦ none
        | some q1 ↦ elim (with_args txt methods reader search q1) [
          | none ↦ none
          | some q2 ↦ some (true, q2)
        ]
      ]

  -- The address without what follows the first question mark, and that.
  abbrev pub split_url : List ℕ → List ℕ × List ℕ
  split_url url = elim (txt.strings.index_of url 63 0) [
    | none ↦ (url, [])
    | some i ↦ (txt.strings.substring url 0 (some i), txt.strings.substring url (i + 1) none)
  ]

  abbrev pub after_flush : Option (Bool × Request W) → Option (Bool × Request W)
  after_flush none = none
  after_flush (some r) = some (flushed r)

  -- With the three parts of the request line.
  unfoldable pub dispatch :
      (List ℕ → ℕ → Request W → Option (Bool × Request W))
      → List Handler
      → ℕ
      → List ℕ
      → List ℕ
      → List ℕ
      → Request W
      → Option (Bool × Request W)
  dispatch parse_form handlers k name target version_end q =
      let url = split_url target in
      let method = find_method methods.names name 0 in
      let q1 : Request W = record q {
        current_version = atoi version_end;
        current_uri = url.0;
        chunked = false;
      } in
      let q2 : Request W = record q1 {
        current_method = method;
        current_handler = find_handler handlers method url.0;
      } in
      if method == http_any then some (false, q1) else after_flush (read_rest parse_form k url.1 q2)

  unfoldable pub parse_request :
      (List ℕ → ℕ → Request W → Option (Bool × Request W))
      → List Handler
      → ℕ
      → Request W
      → Option (Bool × Request W)
  parse_request parse_form handlers k q =
      let l = next_line txt reader q.conn in
      let q0 : Request W = record q {
        current_headers = clear_values q.current_headers;
        conn = l.1;
      } in
      elim (txt.strings.index_of l.0 32 0) [
        | none ↦ some (false, q0)
        | some start ↦ elim (txt.strings.index_of l.0 32 (start + 1)) [
          | none ↦ some (false, q0)
          | some end ↦
              dispatch parse_form handlers k (txt.strings.substring l.0 0 (some start))
                (txt.strings.substring l.0 (start + 1) (some end))
                (txt.strings.substring l.0 (end + 8) none) q0
        ]
      ]

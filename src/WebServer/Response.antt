-- ===== src/WebServer/Response.antt =====
-- libraries/WebServer/src/WebServer.cpp: the headers and the contents of a response. `Coding` and `Chunks` are about a
-- response whose length is not known in advance.
use Prim.Native.String.{String}
use idf_custom_arduino.Base.{
  ℕ, zero, suc, ◌+◌, ◌-◌, ◌/◌, ◌%◌, ◌^◌, Bool, true, false, not, ◌&&◌, List, [], ◌∷◌, ◌++◌, ltb,
  ◌==◌, length, text, if◌then◌else◌,
}
pub mod Coding
pub mod Chunks

-- A digit as `printf` writes it, and a number of so many digits at most, before what stands there.
unfoldable pub digit : ℕ → ℕ
digit d = if ltb d 10 then 48 + d else 87 + d

unfoldable pub numeral : ℕ → ℕ → ℕ → List ℕ → List ℕ
numeral base zero n acc = acc
numeral base (suc k) n acc =
    let here = digit (n % base) ∷ acc in
    let rest = numeral base k (n / base) here in if ltb n base then here else rest

-- The numbers have 32 bits.
abbrev pub decimal : ℕ → List ℕ
decimal n = numeral 10 10 n []

abbrev pub hex : ℕ → List ℕ
hex n = numeral 16 8 n []

abbrev pub crlf : List ℕ
crlf = 13 ∷ 10 ∷ []

-- `CONTENT_LENGTH_UNKNOWN` and `CONTENT_LENGTH_NOT_SET`
abbrev pub length_unknown : ℕ
length_unknown = 2 ^ 32 - 1

abbrev pub length_not_set : ℕ
length_not_set = 2 ^ 32 - 2

-- What the functions use of the client, and of malloc: whether it has 11 bytes.
pub record Client (W : Type 0) : Type 0 where
  pub write : W → List ℕ → W
  pub memory : W → Bool

-- The fields of `WebServer` for a response.
pub record Server (W : Type 0) : Type 0 where
  pub current_version : ℕ
  pub content_length : ℕ
  pub chunked : Bool
  pub cors_enabled : Bool
  pub response_headers : List ℕ
  pub client : W

-- `_responseCodeToString`
unfoldable pub reason : ℕ → String
reason code =
    if code == 100
    then "Continue"
    else if code == 101
    then "Switching Protocols"
    else if code == 200
    then "OK"
    else if code == 201
    then "Created"
    else if code == 202
    then "Accepted"
    else if code == 203
    then "Non-Authoritative Information"
    else if code == 204
    then "No Content"
    else if code == 205
    then "Reset Content"
    else if code == 206
    then "Partial Content"
    else if code == 300
    then "Multiple Choices"
    else if code == 301
    then "Moved Permanently"
    else if code == 302
    then "Found"
    else if code == 303
    then "See Other"
    else if code == 304
    then "Not Modified"
    else if code == 305
    then "Use Proxy"
    else if code == 307
    then "Temporary Redirect"
    else if code == 400
    then "Bad Request"
    else if code == 401
    then "Unauthorized"
    else if code == 402
    then "Payment Required"
    else if code == 403
    then "Forbidden"
    else if code == 404
    then "Not Found"
    else if code == 405
    then "Method Not Allowed"
    else if code == 406
    then "Not Acceptable"
    else if code == 407
    then "Proxy Authentication Required"
    else if code == 408
    then "Request Time-out"
    else if code == 409
    then "Conflict"
    else if code == 410
    then "Gone"
    else if code == 411
    then "Length Required"
    else if code == 412
    then "Precondition Failed"
    else if code == 413
    then "Request Entity Too Large"
    else if code == 414
    then "Request-URI Too Large"
    else if code == 415
    then "Unsupported Media Type"
    else if code == 416
    then "Requested range not satisfiable"
    else if code == 417
    then "Expectation Failed"
    else if code == 500
    then "Internal Server Error"
    else if code == 501
    then "Not Implemented"
    else if code == 502
    then "Bad Gateway"
    else if code == 503
    then "Service Unavailable"
    else if code == 504
    then "Gateway Time-out"
    else if code == 505
    then "HTTP Version not supported"
    else ""

module _ {W : Type 0} where
  unfoldable pub send_header : List ℕ → List ℕ → Bool → Server W → Server W
  send_header name value first s =
      let line = name ++ text ": " ++ value ++ crlf in
      record s {
        response_headers = if first then line ++ s.response_headers else s.response_headers ++ line;
      }

  unfoldable pub set_content_length : ℕ → Server W → Server W
  set_content_length n s = record s { content_length = n }

  abbrev pub plain_header : String → String → Server W → Server W
  plain_header name value s = send_header (text name) (text value) false s

  -- The headers for the length, with a flag for chunks.
  unfoldable pub length_headers : ℕ → Server W → Server W
  length_headers n s =
      if s.content_length == length_not_set
      then send_header (text "Content-Length") (decimal n) false s
      else if not (s.content_length == length_unknown)
      then send_header (text "Content-Length") (decimal s.content_length) false s
      else if not (s.current_version == 0)
      then plain_header "Transfer-Encoding" "chunked"
          (plain_header "Accept-Ranges" "none" (record s { chunked = true }))
      else s

  unfoldable pub cors_headers : Server W → Server W
  cors_headers s =
      if s.cors_enabled
      then plain_header "Access-Control-Allow-Headers" "*" (
          plain_header "Access-Control-Allow-Methods" "*"
            (plain_header "Access-Control-Allow-Origin" "*" s))
      else s

  -- The text of the header, and the object without headers to be sent. The content type is not null.
  unfoldable pub prepare_header : ℕ → List ℕ → ℕ → Server W → List ℕ × Server W
  prepare_header code content_type n s =
      let status =
        text "HTTP/1."
        ++ decimal s.current_version
        ++ text " "
        ++ decimal code
        ++ text " "
        ++ text (reason code)
        ++ crlf in
      let typed = send_header (text "Content-Type") content_type true s in
      let all = plain_header "Connection" "close" (cors_headers (length_headers n typed)) in
      (status ++ all.response_headers ++ crlf, record all { response_headers = [] })

module _ {W : Type 0} (client : Client W) where
  abbrev pub write : List ℕ → Server W → Server W
  write bs s = record s { client = client.write s.client bs }

  -- The size of a chunk, if there is memory for its text.
  unfoldable pub write_size : ℕ → Server W → Server W
  write_size n s = if client.memory s.client then write (hex n ++ crlf) s else s

  unfoldable pub send_content : List ℕ → Server W → Server W
  send_content content s =
      if s.chunked
      then (let e = write crlf (write content (write_size (length content) s)) in
          if length content == 0 then record e { chunked = false } else e)
      else write content s

  unfoldable pub send : ℕ → List ℕ → List ℕ → Server W → Server W
  send code content_type content s =
      let h = prepare_header code content_type (length content) s in
      let e = write h.0 h.1 in if length content == 0 then e else send_content content e

  unfoldable pub finalize_response : Server W → Server W
  finalize_response s = if s.chunked then send_content [] s else s

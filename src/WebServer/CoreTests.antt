-- ===== src/WebServer/CoreTests.antt =====
-- A response in two chunks, a text with arguments, and a client that sends nothing; instances of the
-- theorems.
use idf_custom_arduino.Base.{
  ℕ, ◌-◌, ◌≡◌, refl, arith, true, false, Option, none, some, List, [], ◌∷◌, ◌++◌, take, drop, text,
}
use idf_custom_arduino.WebServer.Response.{
  Client, Server, length_not_set, length_unknown, set_content_length, prepare_header, send,
  finalize_response,
}
use idf_custom_arduino.WebServer.Response.Coding.{decode}
use idf_custom_arduino.WebServer.Response.Chunks.{IsLog, send_pieces, response_decodes}
use idf_custom_arduino.WebServer.Arguments.{Strings, parse_arguments}
use idf_custom_arduino.WebServer.Arguments.Fields.{plus, find, IsStrings, fields, parsed_fields}
use idf_custom_arduino.WebServer.Url.{url_decode}
use idf_custom_arduino.WebServer.Arguments.Parsed.{parse_arguments-fields}

abbrev log : Client (List ℕ)
log = record { write = λ w bs. w ++ bs; memory = λ w. true }

abbrev log-IsLog : IsLog log (λ w. w)
log-IsLog = record { sent-write = λ w bs. refl; has_memory = λ w. refl }

abbrev server : Server (List ℕ)
server = record {
  current_version = 1;
  content_length = length_not_set;
  chunked = false;
  cors_enabled = false;
  response_headers = [];
  client = [];
}

abbrev pieces : List (List ℕ)
pieces = text "hello, " ∷ text "world" ∷ []

response_decodes_example :
    let s1 = set_content_length length_unknown server in
    let e =
      finalize_response log (send_pieces log pieces (send log 200 (text "text/plain") [] s1)) in
    (body : List ℕ) × (e.client ≡ [] ++ (prepare_header 200 (text "text/plain") 0 s1).0 ++ body)
    × (decode body ≡ some (text "hello, world"))
response_decodes_example =
    response_decodes log (λ w. w) log-IsLog 200 (text "text/plain") pieces server
      (λ e. absurd (omega (arith, e))) (omega arith, omega arith, (omega arith, omega arith, tt))

-- The functions of String.
abbrev text_index_of : List ℕ → ℕ → ℕ → Option ℕ
text_index_of s c i = plus i (find c (drop i s))

abbrev text_substring : List ℕ → ℕ → Option ℕ → List ℕ
text_substring s i none = drop i s
text_substring s i (some j) = take (j - i) (drop i s)

abbrev strings : Strings
strings = record { index_of = text_index_of; substring = text_substring }

abbrev strings-IsStrings : IsStrings strings
strings-IsStrings = record {
  index_of_lem = λ s c i. refl;
  substring_lem = λ s i j h. refl;
  substring_rest = λ s i. refl;
}

parse_arguments-fields_example :
    parse_arguments strings (text "a=1&b&c=%41=")
    ≡ some (parsed_fields (fields (text "a=1&b&c=%41=")))
parse_arguments-fields_example =
    parse_arguments-fields strings strings-IsStrings (text "a=1&b&c=%41=")

-- It has two arguments: the name b has no value.
arguments_test :
    parsed_fields (fields (text "a=1&b&c=%41="))
    ≡ record { key = text "a"; value = text "1" }
      ∷ record { key = text "c"; value = text "A=" }
      ∷ []
unfolding url_decode
arguments_test = refl

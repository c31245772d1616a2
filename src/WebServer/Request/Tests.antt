-- ===== src/WebServer/Request/Tests.antt =====
-- A request with an argument and two headers, one of which is collected; an instance of the theorem.
use idf_custom_arduino.Base.{
  ℕ, ◌+◌, ◌-◌, ◌≡◌, refl, ap, ◌∙◌, inl, inr, arith, Bool, true, false, ◌&&◌, Option, none, some,
  List, [], ◌∷◌, ◌++◌, leb, ◌==◌, bytes_eq, map, take, drop, text, if◌then◌else◌, Option-cases,
}
use idf_custom_arduino.WebServer.Arguments.{Strings}
use idf_custom_arduino.WebServer.Arguments.Fields.{plus, find, IsStrings}
use idf_custom_arduino.WebServer.Routes.{Handler, http_any, function_handler}
use idf_custom_arduino.WebServer.Request.{Reader, Texts, Methods, Request}
use idf_custom_arduino.WebServer.Request.Lines.{IsReader, Header, header_lines, request_line}

-- Up to the first such character, and behind it.
abbrev until : List ℕ → ℕ → List ℕ × List ℕ
until [] c = ([], [])
until (x ∷ xs) c = let r = until xs c in if x == c then ([], xs) else (x ∷ r.0, r.1)

until_lem :
    (c : ℕ) (line rest : List ℕ) → find c line ≡ none → until (line ++ c ∷ rest) c ≡ (line, rest)
until_lem c [] rest h = ground arith
until_lem c (x ∷ xs) rest h = elim (Option-cases (find c xs)) [
  | inl e ↦ ground (arith, h, e, until_lem c xs rest e)
  | inr (j, e) ↦ absurd (ground (arith, h, e))
]

abbrev reader : Reader (List ℕ)
reader = record {
  read_until = until;
  available = λ w. (1, w);
  delay = λ w. w;
  read_bytes = λ w n. (take n w, drop n w);
  flush = λ w. [];
  room = λ w n. true;
}

abbrev reader-IsReader : IsReader reader (λ w. w)
reader-IsReader = record {
  read_until_lem = λ w c line rest h e. (
    ap (λ x. (until x c).0) e ∙ ap (λ r. r.0) (until_lem c line rest h),
    ap (λ x. (until x c).1) e ∙ ap (λ r. r.1) (until_lem c line rest h),
  );
}

abbrev text_substring : List ℕ → ℕ → Option ℕ → List ℕ
text_substring s i none = drop i s
text_substring s i (some j) = take (j - i) (drop i s)

abbrev strings : Strings
strings = record { index_of = λ s c i. plus i (find c (drop i s)); substring = text_substring }

abbrev strings-IsStrings : IsStrings strings
strings-IsStrings = record {
  index_of_lem = λ s c i. refl;
  substring_lem = λ s i j h. refl;
  substring_rest = λ s i. refl;
}

abbrev lower : ℕ → ℕ
lower c = if leb 65 c && leb c 90 then c + 32 else c

abbrev prefix : List ℕ → List ℕ → Bool
prefix s [] = true
prefix [] (y ∷ ys) = false
prefix (x ∷ xs) (y ∷ ys) = x == y && prefix xs ys

abbrev texts : Texts
texts = record {
  strings = strings;
  trim = λ s. s;
  equals_ignore_case = λ a b. bytes_eq (map lower a) (map lower b);
  starts_with = prefix;
  without_quotes = λ s. s;
  to_int = λ s. 0;
}

abbrev methods : Methods
methods = record {
  names = text "DELETE" ∷ text "GET" ∷ text "HEAD" ∷ text "POST" ∷ text "PUT" ∷ [];
  http_post = 3;
  http_put = 4;
  http_patch = 28;
  http_delete = 0;
}

abbrev handlers : List Handler
handlers = function_handler (text "/led") http_any ∷ []

abbrev headers : List Header
headers =
    record { name = text "Host"; value = text "esp32" }
    ∷ record { name = text "x-key"; value = text "7" }
    ∷ []

abbrev arriving : Request (List ℕ)
arriving = record {
  current_version = 0;
  current_uri = [];
  current_method = http_any;
  chunked = true;
  current_args = [];
  current_headers = record { key = text "X-Key"; value = text "old" } ∷ [];
  host_header = [];
  current_handler = none;
  conn =
      request_line (text "GET") (text "/led?on=1") (text "1")
      ++ 13 ∷ 10 ∷ (header_lines headers ++ []);
}

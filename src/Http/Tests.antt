-- ===== src/Http/Tests.antt =====
-- A connection with the rest of a response, and one on which nothing arrives; instances of the theorems.
use idf_custom_arduino.Base.{
  ℕ, suc, ◌<◌, ◌≡◌, ◌≢◌, refl, ap, ◌∙◌, inl, inr, arith, true, false, ◌&&◌, none, some, List, [],
  ◌∷◌, ◌++◌, length, length-replicate, take, drop, leb, ◌==◌, replicate, text, if◌then◌else◌,
  Option-cases,
}
use idf_custom_arduino.WebServer.Response.{
  Client, Server, length_not_set, length_unknown, set_content_length, prepare_header, send,
  finalize_response,
}
use idf_custom_arduino.WebServer.Response.Chunks.{IsLog, send_pieces}
use idf_custom_arduino.WebServer.Arguments.Fields.{find}
use idf_custom_arduino.Http.Transfer.{
  written, te_chunked, Connection, Stream, Link, minus_one, write_to_stream,
}
use idf_custom_arduino.Http.Blocks.{ArePrinted, IsResponse, IsSink}
use idf_custom_arduino.Http.Composed.{response_arrives}
use idf_custom_arduino.Http.Stalls.{IsSilent}

abbrev log : Client (List ℕ)
log = record { write = λ w bs. w ++ bs; memory = λ w. true }

abbrev log-IsLog : IsLog log (λ w. w)
log-IsLog = record { sent-write = λ w bs. refl; has_memory = λ w. refl }

-- Up to the first line feed, and behind it.
abbrev line_of : List ℕ → List ℕ × List ℕ
line_of [] = ([], [])
line_of (x ∷ xs) = let r = line_of xs in if x == 10 then ([], xs) else (x ∷ r.0, r.1)

line_of_lem :
    (line rest : List ℕ) → find 10 line ≡ none → line_of (line ++ 10 ∷ rest) ≡ (line, rest)
line_of_lem [] rest h = refl
line_of_lem (x ∷ xs) rest h = elim (Option-cases (find 10 xs)) [
  | inl e ↦ ground (arith, h, e, line_of_lem xs rest e)
  | inr (j, e) ↦ absurd (ground (arith, h, e))
]

-- Without the white space at the end.
abbrev trimmed : List ℕ → List ℕ
trimmed [] = []
trimmed (x ∷ xs) = let r = trimmed xs in if leb x 32 && length r == 0 then [] else x ∷ r

trimmed_lem : (xs : List ℕ) → ArePrinted xs → trimmed (xs ++ 13 ∷ []) ≡ xs
trimmed_lem [] a = refl
trimmed_lem (x ∷ xs) a = ground (arith, a.0, trimmed_lem xs a.1)

abbrev connection : Connection (List ℕ)
connection = record {
  connected = λ w. true;
  available = λ w. (length w, w);
  read_bytes = λ w n. (take n w, drop n w);
  read_line = line_of;
  malloc = λ w n. some (replicate n 0);
  trim = trimmed;
}

not_empty : (w : List ℕ) → w ≢ [] → 0 < length w
not_empty [] h = absurd (h refl)
not_empty (x ∷ xs) h = omega arith

abbrev connection-IsResponse : IsResponse connection (λ w. w)
connection-IsResponse = record {
  connected_lem = λ w h. refl;
  available_some = not_empty;
  available_most = λ w. omega arith;
  available_keeps = λ w. refl;
  read_bytes_lem = λ w n h. refl;
  read_bytes_rest = λ w n h. refl;
  read_line_lem = λ w line rest h e. (
    ap (λ x. (line_of x).0) e ∙ ap (λ r. r.0) (line_of_lem line rest h),
    ap (λ x. (line_of x).1) e ∙ ap (λ r. r.1) (line_of_lem line rest h),
  );
  malloc_lem = λ w n. (replicate n 0, refl, length-replicate n 0);
  trim_lem = trimmed_lem;
}

abbrev sink : Stream (List ℕ)
sink = record {
  write = λ s bs. (length bs, s ++ bs);
  write_error = λ s. false;
  clear_write_error = λ s. s;
}

abbrev sink-IsSink : IsSink sink (λ s. s)
sink-IsSink = record { write_all = λ s bs. refl; sent_lem = λ s bs. refl; no_error = λ s bs. refl }

abbrev server : Server (List ℕ)
server = record {
  current_version = 1;
  content_length = length_not_set;
  chunked = false;
  cors_enabled = false;
  response_headers = [];
  client = [];
}

abbrev pieces : List (List ℕ)
pieces = text "hello, " ∷ text "world" ∷ []

-- What arrives behind the header.
abbrev body : List ℕ
body =
    let started = set_content_length length_unknown server in
    let finished =
      finalize_response log
        (send_pieces log pieces (send log 200 (text "text/plain") [] started)) in
    drop (length ([] ++ (prepare_header 200 (text "text/plain") 0 started).0)) finished.client

abbrev waiting : Link (List ℕ) (List ℕ)
waiting = record { conn = body; out = [] }

response_arrives_example :
    (s1 : Link (List ℕ) (List ℕ)) × (write_to_stream connection sink 3 20 te_chunked minus_one
        waiting
      ≡ some (written 12, s1))
    × (s1.out ≡ [] ++ text "hello, world")
response_arrives_example =
    response_arrives log (λ w. w) log-IsLog connection sink (λ w. w) (λ s. s) connection-IsResponse
      sink-IsSink 200 (text "text/plain") pieces server 3 20 waiting
      (λ e. absurd (omega (arith, e))) (omega arith, omega arith, (omega arith, omega arith, tt))
      (omega arith) (omega arith) (omega arith) refl

-- A connection that is up and has nothing to read.
abbrev quiet : Connection ℕ
quiet = record {
  connected = λ w. true;
  available = λ w. (0, suc w);
  read_bytes = λ w n. ([], w);
  read_line = λ w. ([], w);
  malloc = λ w n. some (0 ∷ []);
  trim = λ xs. xs;
}

abbrev Any : ℕ → Type 0
Any w = Unit

abbrev quiet-IsSilent : IsSilent quiet Any
quiet-IsSilent = record {
  connected_lem = λ w h. refl;
  available_lem = λ w h. refl;
  stays = λ w h. tt;
}

-- ===== src/Http/Composed.antt =====
-- HTTPClient reads what WebServer sends in chunks.
use idf_custom_arduino.Base.{
  ℕ, zero, suc, ◌+◌, ◌-◌, ◌*◌, ◌/◌, ◌%◌, ◌^◌, ◌≤◌, ◌<◌, min, ◌≡◌, ◌≢◌, refl, sym, ap, ◌∙◌, arith,
  Bool, true, false, Option, none, some, List, [], ◌∷◌, ◌++◌, append_assoc, append-nil, inl, inr,
  ltb, ◌==◌, length, length-append, take, drop, take-append_length, drop-append_length,
  if◌then◌else◌, Bool-cases,
}
use idf_custom_arduino.WebServer.Response.{
  digit, numeral, hex, crlf, length_unknown, Client, Server, set_content_length, prepare_header,
  send, finalize_response,
}
use idf_custom_arduino.WebServer.Response.Coding.{chunk, encoded, join, ArePieces, fewer_chunks}
use idf_custom_arduino.WebServer.Response.Chunks.{IsLog, send_pieces, response_encoded}
use idf_custom_arduino.WebServer.Arguments.Fields.{find}
use idf_custom_arduino.Http.Transfer.{
  written, te_chunked, Connection, Stream, Link, positive, minus_one, digit_value, digits, strtol16,
  write_to_stream_data_block, chunk_rounds, write_to_stream, trailing,
}
use idf_custom_arduino.Http.Blocks.{ArePrinted, IsResponse, IsSink, data_block_moved}

-- The characters of a number as it is written.
AreHex : List ℕ → Type 0
AreHex [] = Unit
AreHex (x ∷ xs) = (48 ≤ x) × (x ≤ 102) × (x ≢ 88) × AreHex xs

digit-AreHex : (d : ℕ) (xs : List ℕ) → d < 16 → AreHex xs → AreHex (digit d ∷ xs)
unfolding AreHex digit
digit-AreHex d xs h a = elim (Bool-cases (ltb d 10)) [
  | inl e ↦ (ground (arith, e), ground (arith, e), (λ q. ground (arith, e, q)), a)
  | inr e ↦ (ground (arith, e, h), ground (arith, e, h), (λ q. ground (arith, e, q, h)), a)
]

numeral-AreHex : (k n : ℕ) (xs : List ℕ) → AreHex xs → AreHex (numeral 16 k n xs)
unfolding numeral
numeral-AreHex zero n xs a = a
numeral-AreHex (suc k) n xs a =
    let here = digit-AreHex (n % 16) xs (omega arith) a in
    let rest = numeral-AreHex k (n / 16) (digit (n % 16) ∷ xs) here in either (ltb n 16) here rest
  where
    either :
        (b : Bool)
        → AreHex (digit (n % 16) ∷ xs)
        → AreHex (numeral 16 k (n / 16) (digit (n % 16) ∷ xs))
        → AreHex (if b then digit (n % 16) ∷ xs else numeral 16 k (n / 16) (digit (n % 16) ∷ xs))
    either true x y = x
    either false x y = y

one_digit : (a d : ℕ) (t : List ℕ) → d < 16 → digits a (digit d ∷ t) ≡ digits (a * 16 + d) t
unfolding digit
one_digit a d t h =
    let e : digit_value (digit d) ≡ some d = ground (arith, h) in
    ap (λ (o : Option ℕ). elim o [ none ↦ a | some v ↦ digits (a * 16 + v) t ]) e

digits-numeral : (k n : ℕ) (t : List ℕ) → n < 16 ^ k → digits 0 (numeral 16 k n t) ≡ digits n t
unfolding numeral
digits-numeral zero n t h = let e : 0 ≡ n = omega arith in ap (λ m. digits m t) e
digits-numeral (suc k) n t h =
    let d = digit (n % 16) ∷ t in
    let both = λ (b : Bool). digits 0 (if b then d else numeral 16 k (n / 16) d) in
    elim (Bool-cases (ltb n 16)) [
      | inl q ↦
          let e : 0 * 16 + n % 16 ≡ n = ground (arith, q) in
          ap both q ∙ one_digit 0 (n % 16) t (omega arith) ∙ ap (λ m. digits m t) e
      | inr q ↦
          let e : n / 16 * 16 + n % 16 ≡ n = omega arith in
          ap both q
          ∙ digits-numeral k (n / 16) d (omega (arith, h))
          ∙ one_digit (n / 16) (n % 16) t (omega arith)
          ∙ ap (λ m. digits m t) e
    ]

strtol16-AreHex : (xs : List ℕ) → AreHex xs → strtol16 xs ≡ min (digits 0 xs) (2 ^ 31 - 1)
unfolding strtol16 AreHex
strtol16-AreHex [] a = refl
strtol16-AreHex (c ∷ []) a = ground (arith, a)
strtol16-AreHex (c ∷ d ∷ cs) a = ground (arith, a)

strtol16-hex : (n : ℕ) → n < 2 ^ 31 → strtol16 (hex n) ≡ n
unfolding AreHex
strtol16-hex n h =
    strtol16-AreHex (hex n) (numeral-AreHex 8 n [] tt)
    ∙ omega (arith, digits-numeral 8 n [] (omega arith), h)

AreHex-ArePrinted : (xs : List ℕ) → AreHex xs → ArePrinted xs
unfolding AreHex
AreHex-ArePrinted [] a = tt
AreHex-ArePrinted (x ∷ xs) a = (omega (arith, a.0), AreHex-ArePrinted xs a.3)

no_line_feed : (xs : List ℕ) → AreHex xs → find 10 (xs ++ 13 ∷ []) ≡ none
unfolding AreHex
no_line_feed [] a = refl
no_line_feed (x ∷ xs) a = ground (arith, a.0, no_line_feed xs a.3)

-- The line with the size of a chunk, the chunk, and what follows, in the order of the reader.
chunk_lines : (p t : List ℕ) → chunk p ++ t ≡ (hex (length p) ++ 13 ∷ []) ++ 10 ∷ (p ++ (crlf ++ t))
chunk_lines p t =
    let h = hex (length p) in
    append_assoc (h ++ crlf) (p ++ crlf) t
    ∙ append_assoc h crlf ((p ++ crlf) ++ t)
    ∙ ap (λ x. h ++ 13 ∷ 10 ∷ x) (append_assoc p crlf t)
    ∙ sym (append_assoc h (13 ∷ []) (10 ∷ (p ++ (crlf ++ t))))

nothing : AreHex []
unfolding AreHex
nothing = tt

positive_size : (n : ℕ) → 0 < n → n < 2 ^ 31 → positive n ≡ true
positive_size n h k = ground arith

not_empty : (xs ys : List ℕ) (y : ℕ) → xs ++ y ∷ ys ≢ []
not_empty xs ys y e = omega (arith, ap length e, length-append xs (y ∷ ys))

some_encoded : (ps : List (List ℕ)) → encoded ps ≢ []
some_encoded ps e = omega (arith, ap length e, fewer_chunks ps)

module _ {W S : Type 0} (conn : Connection W) (stream : Stream S) (pending : W → List ℕ)
    (sent : S → List ℕ) (serves : IsResponse conn pending) (sinks : IsSink stream sent) where
  -- The header of a chunk is read: its line is not empty and gives the size.
  header_read :
      (p t : List ℕ) (w : W)
      → length p < 2 ^ 31
      → pending w ≡ chunk p ++ t
      → let line = conn.read_line w in
        (conn.connected w ≡ true)
        × ((length line.0 == 0) ≡ false)
        × (strtol16 (conn.trim line.0) ≡ length p)
        × (pending line.1 ≡ p ++ (crlf ++ t))
  header_read p t w h e =
      let line = hex (length p) ++ 13 ∷ [] in
      let hexed = numeral-AreHex 8 (length p) [] nothing in
      let whole = e ∙ chunk_lines p t in
      let r =
        serves.read_line_lem w line (p ++ (crlf ++ t)) (no_line_feed (hex (length p)) hexed)
          whole in
      (
        serves.connected_lem w (λ q. not_empty line (p ++ (crlf ++ t)) 10 (sym whole ∙ q)),
        ground (arith, ap length r.0, length-append (hex (length p)) (13 ∷ [])),
        ap (λ x. strtol16 (conn.trim x)) r.0
            ∙ ap strtol16
                (serves.trim_lem (hex (length p)) (AreHex-ArePrinted (hex (length p)) hexed))
            ∙ strtol16-hex (length p) h,
        r.1,
      )

  chunks_moved :
      (ps : List (List ℕ)) (k fuel ret : ℕ) (after : List ℕ) (s : Link W S)
      → length ps < k
      → length (join ps) < fuel
      → ret + length (join ps) < 2 ^ 31
      → ArePieces ps
      → pending s.conn ≡ encoded ps ++ after
      → (s1 : Link W S) × (chunk_rounds conn stream k fuel minus_one ret ret s
          ≡ some (written (ret + length (join ps)), s1))
        × (sent s1.out ≡ sent s.out ++ join ps)
  unfolding chunk_rounds
  chunks_moved ps zero fuel ret after s h f b a e = absurd (omega arith)
  chunks_moved [] (suc k) fuel ret after s h f b a e =
      let l = header_read [] after s.conn (omega arith) e in
      let line = conn.read_line s.conn in
      let s1 : Link W S = record s { conn = line.1 } in
      (s1, ground (arith, l.0, l.1, l.2, b), sym (append-nil (sent s.out)))
  chunks_moved (p ∷ ps) (suc k) fuel ret after s h f b a e =
      let t = encoded ps ++ after in
      let size = length-append p (join ps) in
      let l =
        header_read p t s.conn (omega (arith, b, size))
          (e ∙ append_assoc (chunk p) (encoded ps) after) in
      let line = conn.read_line s.conn in
      let s1 : Link W S = record s { conn = line.1 } in
      let b1 =
        data_block_moved conn stream pending sent serves sinks fuel (length p) s1 a.0
          (omega (arith, b, size)) (omega (arith, ap length l.3, length-append p (crlf ++ t)))
          (omega (arith, f, size)) in
      let len = strtol16 (conn.trim line.0) in
      let block : write_to_stream_data_block conn stream fuel len s1
          ≡ some (written (length p), b1.0) =
        ap (λ n. write_to_stream_data_block conn stream fuel n s1) l.2 ∙ b1.1 in
      let left : pending b1.0.conn ≡ crlf ++ t =
        b1.2.0 ∙ ap (drop (length p)) l.3 ∙ drop-append_length p (crlf ++ t) in
      let out : sent b1.0.out ≡ sent s.out ++ p =
        b1.2.1
        ∙ ap (λ x. sent s.out ++ take (length p) x) l.3
        ∙ ap (λ x. sent s.out ++ x) (take-append_length p (crlf ++ t)) in
      let r = conn.read_bytes b1.0.conn 2 in
      let two : 2 ≤ length (pending b1.0.conn) = omega (arith, ap length left) in
      let marks : trailing r.0 ≡ true =
        ap trailing (serves.read_bytes_lem b1.0.conn 2 two ∙ ap (take 2) left) in
      let s2 : Link W S = record b1.0 { conn = r.1 } in
      let pos : positive len ≡ true =
        ap positive l.2 ∙ positive_size (length p) a.0 (omega (arith, b, size)) in
      let sum : (ret + len) % 2 ^ 32 ≡ ret + length p =
        ap (λ n. (ret + n) % 2 ^ 32) l.2 ∙ omega (arith, b, size) in
      let ih =
        chunks_moved ps k fuel (ret + length p) after s2 (omega arith) (omega (arith, f, size))
          (omega (arith, b, size)) a.2
          (serves.read_bytes_rest b1.0.conn 2 two ∙ ap (drop 2) left) in
      let rest : chunk_rounds conn stream k fuel minus_one ((ret + len) % 2 ^ 32) (ret + length p)
            s2
          ≡ some (written (ret + length p + length (join ps)), ih.0) =
        ap (λ n. chunk_rounds conn stream k fuel minus_one n (ret + length p) s2) sum ∙ ih.1 in
      let all : ret + length p + length (join ps) ≡ ret + length (p ++ join ps) =
        omega (arith, size) in
      (
        ih.0,
        ground (arith, l.0, l.1, pos, block, marks, rest, all),
        ih.2 ∙ ap (λ x. x ++ join ps) out ∙ append_assoc (sent s.out) p (join ps),
      )

module _ {C W S : Type 0} (client : Client C) (arrived : C → List ℕ) (logs : IsLog client arrived)
    (conn : Connection W) (stream : Stream S) (pending : W → List ℕ) (sent : S → List ℕ)
    (serves : IsResponse conn pending) (sinks : IsSink stream sent) where
  -- What a WebServer sends in non-empty pieces of less than 2^31 bytes in all, as a response of
  -- unknown length, is what HTTPClient::writeToStream, behind the header, writes to a stream that
  -- takes all, and it returns its length; it ends within one round more than there are pieces,
  -- each with one more than there are bytes. The client of the server, the connection and the
  -- stream behave as documented, and the response has arrived.
  pub response_arrives :
      (code : ℕ) (content_type : List ℕ) (ps : List (List ℕ)) (server : Server C) (k fuel : ℕ)
      (s : Link W S)
      → server.current_version ≢ 0
      → ArePieces ps
      → length (join ps) < 2 ^ 31
      → length ps < k
      → length (join ps) < fuel
      → let started = set_content_length length_unknown server in
        let done =
          finalize_response client
            (send_pieces client ps (send client code content_type [] started)) in
        let head = arrived server.client ++ (prepare_header code content_type 0 started).0 in
        pending s.conn ≡ drop (length head) (arrived done.client)
        → (s1 : Link W S) × (write_to_stream conn stream k fuel te_chunked minus_one s
            ≡ some (written (length (join ps)), s1))
          × (sent s1.out ≡ sent s.out ++ join ps)
  unfolding write_to_stream
  response_arrives code content_type ps server k fuel s v a b h f e =
      let started = set_content_length length_unknown server in
      let head = arrived server.client ++ (prepare_header code content_type 0 started).0 in
      let body : pending s.conn ≡ encoded ps =
        e
        ∙ ap (drop (length head))
            (response_encoded client arrived logs code content_type ps server v a)
        ∙ drop-append_length head (encoded ps) in
      let m =
        chunks_moved conn stream pending sent serves sinks ps k fuel 0 [] s h f (omega (arith, b)) a
          (body ∙ sym (append-nil (encoded ps))) in
      let here = serves.connected_lem s.conn (λ q. some_encoded ps (sym body ∙ q)) in
      let plus : 0 + length (join ps) ≡ length (join ps) = omega arith in
      (m.0, ground (arith, here, m.1, plus), m.2)

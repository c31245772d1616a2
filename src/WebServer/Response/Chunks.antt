-- ===== src/WebServer/Response/Chunks.antt =====
-- A response in chunks, as a client receives it.
use idf_custom_arduino.Base.{
  ℕ, ◌<◌, ◌≡◌, ◌≢◌, refl, ap, ◌∙◌, arith, Bool, true, false, some, List, [], ◌∷◌, ◌++◌,
  append_assoc, ◌==◌, length, text, if◌then◌else◌, Bool-cases,
}
use idf_custom_arduino.WebServer.Response.{
  hex, crlf, length_unknown, Client, Server, length_headers, set_content_length, cors_headers,
  send_header, prepare_header, write, write_size, send_content, send, finalize_response,
}
use idf_custom_arduino.WebServer.Response.Coding.{
  decode, chunk, encoded, join, ArePieces, decode-encoded, fewer_chunks,
}

module _ {W : Type 0} (client : Client W) where
  -- What a handler sends, piece by piece.
  abbrev pub send_pieces : List (List ℕ) → Server W → Server W
  send_pieces [] s = s
  send_pieces (p ∷ ps) s = send_pieces ps (send_content client p s)

  -- A client takes all that is written, and there is memory.
  pub record IsLog (sent : W → List ℕ) : Type 0 where
    pub sent-write : (w : W) (bs : List ℕ) → sent (client.write w bs) ≡ sent w ++ bs
    pub has_memory : (w : W) → client.memory w ≡ true

  module _ (sent : W → List ℕ) (law : IsLog sent) where
    size_written : (n : ℕ) (s : Server W) → write_size client n s ≡ write client (hex n ++ crlf) s
    unfolding write_size
    size_written n s =
        ap (λ (b : Bool). if b then write client (hex n ++ crlf) s else s) (law.has_memory s.client)

    content_written :
        (p : List ℕ) (s : Server W)
        → s.chunked ≡ true
        → let e = write client crlf (write client p (write client (hex (length p) ++ crlf) s)) in
          send_content client p s ≡ (if length p == 0 then record e { chunked = false } else e)
    unfolding send_content
    content_written p s h =
        ap
          (λ (b : Bool).
            let e = write client crlf (write client p (write_size client (length p) s)) in
            if b
            then (if length p == 0 then record e { chunked = false } else e)
            else write client p s)
          h
        ∙ ap
            (λ (w : Server W).
              let e = write client crlf (write client p w) in
              if length p == 0 then record e { chunked = false } else e)
            (size_written (length p) s)

    sent-send_content :
        (p : List ℕ) (s : Server W)
        → s.chunked ≡ true
        → sent (send_content client p s).client ≡ sent s.client ++ chunk p
    sent-send_content p s h =
        let w1 = client.write s.client (hex (length p) ++ crlf) in
        let w2 = client.write w1 p in
        ap (λ (e : Server W). sent e.client) (content_written p s h)
        ∙ either_client (length p == 0)
        ∙ law.sent-write w2 crlf
        ∙ ap (λ x. x ++ crlf) (law.sent-write w1 p)
        ∙ append_assoc (sent w1) p crlf
        ∙ ap (λ x. x ++ (p ++ crlf)) (law.sent-write s.client (hex (length p) ++ crlf))
        ∙ append_assoc (sent s.client) (hex (length p) ++ crlf) (p ++ crlf)
      where
        either_client :
            (b : Bool)
            → let e =
                write client crlf (write client p (write client (hex (length p) ++ crlf) s)) in
              sent (if b then record e { chunked = false } else e).client
              ≡ sent (
                  client.write
                    (client.write (client.write s.client (hex (length p) ++ crlf)) p)
                    crlf)
        either_client true = refl
        either_client false = refl

    stays_chunked :
        (p : List ℕ) (s : Server W)
        → s.chunked ≡ true
        → 0 < length p
        → (send_content client p s).chunked ≡ true
    stays_chunked p s h l =
        let e = write client crlf (write client p (write client (hex (length p) ++ crlf) s)) in
        let z : (length p == 0) ≡ false = ground (arith, l) in
        ap (λ (x : Server W). x.chunked) (content_written p s h)
        ∙ ap (λ (b : Bool). (if b then record e { chunked = false } else e).chunked) z
        ∙ h

    sent_pieces :
        (ps : List (List ℕ)) (s : Server W)
        → s.chunked ≡ true
        → ArePieces ps
        → sent (finalize_response client (send_pieces ps s)).client ≡ sent s.client ++ encoded ps
    unfolding finalize_response
    sent_pieces [] s h a =
        ap (λ (b : Bool). sent (if b then send_content client [] s else s).client) h
        ∙ sent-send_content [] s h
    sent_pieces (p ∷ ps) s h a =
        sent_pieces ps (send_content client p s) (stays_chunked p s h a.0) a.2
        ∙ ap (λ x. x ++ encoded ps) (sent-send_content p s h)
        ∙ append_assoc (sent s.client) (chunk p) (encoded ps)

module _ {W : Type 0} where
  -- The headers leave what the others depend on.
  kept-plain_headers :
      (code n : ℕ) (content_type : List ℕ) (s : Server W)
      → let h = prepare_header code content_type n s in
        let e = length_headers n (send_header (text "Content-Type") content_type true s) in
        (h.1.chunked ≡ e.chunked) × (h.1.client ≡ e.client)
  unfolding prepare_header cors_headers send_header
  kept-plain_headers code n content_type s =
      let e = length_headers n (send_header (text "Content-Type") content_type true s) in
      ground (arith, Bool-cases e.cors_enabled)

  in_chunks :
      (n : ℕ) (s : Server W)
      → s.content_length ≡ length_unknown
      → s.current_version ≢ 0
      → ((length_headers n s).chunked ≡ true) × ((length_headers n s).client ≡ s.client)
  unfolding length_headers send_header
  in_chunks n s h v = ground (arith, h, v)

  prepared :
      (code : ℕ) (content_type : List ℕ) (s : Server W)
      → s.current_version ≢ 0
      → let h = prepare_header code content_type 0 (set_content_length length_unknown s) in
        (h.1.chunked ≡ true) × (h.1.client ≡ s.client)
  unfolding set_content_length send_header
  prepared code content_type s v =
      let s1 = set_content_length length_unknown s in
      let k = kept-plain_headers code 0 content_type s1 in
      let l = in_chunks 0 (send_header (text "Content-Type") content_type true s1) refl v in
      (k.0 ∙ l.0, k.1 ∙ l.1)

module _ {W : Type 0} (client : Client W) (sent : W → List ℕ) (law : IsLog client sent) where
  -- What a response of unknown length to a client of HTTP/1.1 is.
  pub response_encoded :
      (code : ℕ) (content_type : List ℕ) (ps : List (List ℕ)) (s : Server W)
      → s.current_version ≢ 0
      → ArePieces ps
      → let s1 = set_content_length length_unknown s in
        let e =
          finalize_response client (send_pieces client ps (send client code content_type [] s1)) in
        sent e.client ≡ sent s.client ++ (prepare_header code content_type 0 s1).0 ++ encoded ps
  unfolding send
  response_encoded code content_type ps s v a =
      let h = prepare_header code content_type 0 (set_content_length length_unknown s) in
      let k = prepared code content_type s v in
      sent_pieces client sent law ps (write client h.0 h.1) k.0 a
      ∙ ap (λ x. x ++ encoded ps) (law.sent-write h.1.client h.0)
      ∙ ap (λ (w : W). sent w ++ h.0 ++ encoded ps) k.1

  -- A response of unknown length to a client of HTTP/1.1, sent in pieces none of which is empty
  -- and then finished, is its header followed by bytes that a reader of the chunked coding decodes
  -- to the pieces joined, if the client takes what is written and the memory for the size lines is
  -- there.
  pub response_decodes :
      (code : ℕ) (content_type : List ℕ) (ps : List (List ℕ)) (s : Server W)
      → s.current_version ≢ 0
      → ArePieces ps
      → let s1 = set_content_length length_unknown s in
        let e =
          finalize_response client (send_pieces client ps (send client code content_type [] s1)) in
        (body : List ℕ) × (sent e.client
          ≡ sent s.client ++ (prepare_header code content_type 0 s1).0 ++ body)
        × (decode body ≡ some (join ps))
  response_decodes code content_type ps s v a = (
    encoded ps,
    response_encoded code content_type ps s v a,
    decode-encoded (length (encoded ps)) ps (fewer_chunks ps) a,
  )

-- ===== src/Dns/Replies.antt =====
-- What the server sends.
use idf_custom_arduino.Base.{
  ℕ, ◌+◌, ◌≤◌, ◌<◌, ◌≡◌, ◌⊎◌, refl, sym, ap, subst, ◌∙◌, inl, inr, Bool, true, false, some, List,
  [], ◌∷◌, ◌++◌, arith, append_assoc, length, length-append, length-take, take, slice,
  take-append_length, bytes_eq, bytes_eq_refl,
}
use idf_custom_arduino.Dns.Message.{
  done, place, parsed_domain_name, qr, op_code, request_includes_only_one_question, set_qr_response,
  set_r_code, set_qd_count_zero,
}
use idf_custom_arduino.Dns.Server.{
  StringOps, Server, handled, crashed, answer_header, network_bytes, reply_with_ip,
  reply_with_custom_code, downcase_and_remove_www_prefix, name_matches, choose_reply, read_question,
  process_next_request,
}
use idf_custom_arduino.Dns.Names.{
  encode, joined, IsName, query, slice-behind, read_qname-encode, read_qname_long,
  parsed_domain_name-encode,
}

qr_response :
    (h : List ℕ) (code : ℕ)
    → 3 ≤ length h
    → qr (set_qd_count_zero (set_r_code code (set_qr_response h))) ≡ 1
qr_response [] code l = absurd (omega arith)
qr_response (a ∷ []) code l = absurd (omega arith)
qr_response (a ∷ b ∷ []) code l = absurd (omega arith)
qr_response (a ∷ b ∷ c ∷ r) code l = omega arith

qr_answer : (h : List ℕ) → 3 ≤ length h → qr (answer_header h) ≡ 1
qr_answer [] l = absurd (omega arith)
qr_answer (a ∷ []) l = absurd (omega arith)
qr_answer (a ∷ b ∷ []) l = absurd (omega arith)
qr_answer (a ∷ b ∷ c ∷ r) l = omega arith

slice_at :
    (pre xs ys buf : List ℕ) (n m : ℕ)
    → buf ≡ pre ++ (xs ++ ys)
    → n ≡ length pre
    → m ≡ length xs
    → slice n m buf ≡ xs
slice_at pre xs ys buf n m e q r = rw (e, q, r) (slice-behind pre xs ys)

module _ (ops : StringOps) where
  pub silent_on_response :
      (s s' : Server) (buf packet : List ℕ) (allocated : Bool)
      → 0 < qr (take 12 buf)
      → ¬ (process_next_request ops s buf allocated ≡ handled s' (some packet))
  unfolding process_next_request read_question choose_reply
  silent_on_response s s' buf packet allocated h e = ground arith

  -- A query that does not have just one question is answered with its own first 12 bytes,
  -- unchanged and so still marked as a query, while the response bit is set in the object alone.
  pub error_reply_echoes :
      (s : Server) (buf : List ℕ)
      → 12 ≤ length buf
      → qr (take 12 buf) ≡ 0
      → request_includes_only_one_question (take 12 buf) ≡ false
      → (s' : Server) × (process_next_request ops s buf true ≡ handled s' (some (take 12 buf)))
        × (qr s'.header ≡ 1)
  unfolding process_next_request read_question choose_reply reply_with_custom_code
  error_reply_echoes s buf len q one = (
    record s {
      header = set_qd_count_zero (set_r_code s.error_reply_code (set_qr_response (take 12 buf)));
    },
    ground (arith, q, one),
    qr_response (take 12 buf) s.error_reply_code (omega (arith, length-take 12 buf)),
  )

  -- Whether the server answers for the name of the query.
  abbrev pub Serves : Server → List ℕ → Type 0
  Serves s name =
      (s.domain_name ≡ 0x2a ∷ [])
      ⊎ ((0 < length name) × (downcase_and_remove_www_prefix ops name ≡ s.domain_name))

  served :
      (s : Server) (buf name : List ℕ)
      → parsed_domain_name buf ≡ done name
      → Serves s name
      → name_matches ops s buf ≡ some true
  unfolding name_matches
  served s buf name e (inl star) =
      rw (ap (λ n. bytes_eq n (0x2a ∷ [])) star ∙ bytes_eq_refl (0x2a ∷ []), name_matches)
  served s buf [] e (inr m) = absurd (omega arith)
  served s buf (c ∷ cs) e (inr m) =
      ground (arith, e, ap (λ n. bytes_eq n s.domain_name) m.1 ∙ bytes_eq_refl s.domain_name)

  abbrev with_question : Server → List ℕ → List ℕ → List ℕ → Server
  with_question s name qtype qclass = record s { qname = name; qtype = qtype; qclass = qclass }

  question_read :
      (s : Server) (ls : List (List ℕ)) (qtype qclass extra : List ℕ)
      → length s.header ≡ 12
      → IsName ls
      → length (encode ls) ≤ 127
      → length qtype ≡ 2
      → length qclass ≡ 2
      → request_includes_only_one_question s.header ≡ true
      → let buf = query s.header ls (qtype ++ (qclass ++ extra)) in
        read_question ops s buf ≡ choose_reply ops (with_question s (encode ls) qtype qclass) buf
  unfolding read_question
  question_read s ls qtype qclass extra h i small lt lc one =
      rw
        (
          one,
          read_question,
          read_qname-encode s.header ls (qtype ++ (qclass ++ extra)) h i small,
          here,
          type_read,
          class_read,
        )
        (ground (arith, size))
    where
      buf : List ℕ
      buf = query s.header ls (qtype ++ (qclass ++ extra))

      here : place 12 (length (encode ls)) ≡ some (12 + length (encode ls))
      here = ground (arith, small)

      type_read : slice (12 + length (encode ls)) 2 buf ≡ qtype
      type_read =
          slice_at (s.header ++ encode ls) qtype (qclass ++ extra) buf _ 2
            (sym (append_assoc s.header (encode ls) _))
            (omega (arith, length-append s.header (encode ls))) (sym lt)

      class_read : slice (12 + length (encode ls) + 2) 2 buf ≡ qclass
      class_read =
          slice_at (s.header ++ encode ls ++ qtype) qclass extra buf _ 2
            (sym
              (append_assoc (s.header ++ encode ls) qtype _ ∙ append_assoc s.header (encode ls) _))
            (omega (
              arith,
              length-append (s.header ++ encode ls) qtype,
              length-append s.header (encode ls),
            ))
            (sym lc)

      size : length buf ≡ 16 + length (encode ls) + length extra
      size = omega (
        arith,
        length-append s.header (encode ls ++ (qtype ++ (qclass ++ extra))),
        length-append (encode ls) (qtype ++ (qclass ++ extra)),
        length-append qtype (qclass ++ extra),
        length-append qclass extra,
      )

  long_question :
      (s : Server) (ls : List (List ℕ)) (rest : List ℕ)
      → length s.header ≡ 12
      → IsName ls
      → 127 < length (encode ls)
      → request_includes_only_one_question s.header ≡ true
      → read_question ops s (query s.header ls rest) ≡ crashed
  unfolding read_question
  long_question s ls rest h i big one = elim (read_qname_long s.header ls rest h i big) [
    | inl e ↦ ground (arith, e, one)
    | inr (e, len) ↦ rw (one, read_question, e, len) refl
  ]

  -- A packet with one question whose encoded name has more than 127 bytes makes the server access
  -- memory outside its arrays.
  pub long_name_crashes :
      (s : Server) (header : List ℕ) (ls : List (List ℕ)) (rest : List ℕ)
      → length header ≡ 12
      → IsName ls
      → 127 < length (encode ls)
      → request_includes_only_one_question header ≡ true
      → process_next_request ops s (query header ls rest) true ≡ crashed
  unfolding process_next_request
  long_name_crashes s header ls rest h i big one =
      let head_read : take 12 (query header ls rest) ≡ header =
        subst (λ n. take n (query header ls rest) ≡ header) {x = length header} h
          (take-append_length header _) in
      ground (
        arith,
        length-append header (encode ls ++ rest),
        ap (λ r. read_question ops (record s { header = r }) (query header ls rest)) head_read
            ∙ long_question (record s { header = header }) ls rest h i big one,
      )

  -- A standard query with one question, whose encoded name has at most 127 bytes and is the served
  -- one, or any if the domain is "*", is answered with its header marked as a response, its
  -- question, and the address of the server; whatever follows the question in the packet is
  -- ignored.
  pub answers_query :
      (s : Server) (header : List ℕ) (ls : List (List ℕ)) (qtype qclass extra : List ℕ)
      → length header ≡ 12
      → IsName ls
      → length (encode ls) ≤ 127
      → length qtype ≡ 2
      → length qclass ≡ 2
      → qr header ≡ 0
      → op_code header ≡ 0
      → request_includes_only_one_question header ≡ true
      → Serves s (joined ls)
      → (s' : Server) × (process_next_request ops s
            (query header ls (qtype ++ (qclass ++ extra)))
            true
          ≡ handled s' (
              some (
                answer_header header
                ++ encode ls
                ++ qtype
                ++ qclass
                ++ 0xc0 ∷ 12 ∷ []
                ++ 0 ∷ 1 ∷ 0 ∷ 1 ∷ []
                ++ network_bytes s.ttl
                ++ 0 ∷ 4 ∷ []
                ++ s.resolved_ip)))
        × (qr s'.header ≡ 1)
  unfolding process_next_request choose_reply reply_with_ip
  answers_query s header ls qtype qclass extra h i small lt lc q o one m =
      (record t { header = answer_header header }, reply, qr_answer header (omega arith))
    where
      t : Server
      t = record s { header = header; qname = encode ls; qtype = qtype; qclass = qclass }

      buf : List ℕ
      buf = query header ls (qtype ++ (qclass ++ extra))

      head_read : take 12 buf ≡ header
      head_read =
          subst (λ n. take n buf ≡ header) {x = length header} h (take-append_length header _)

      size : 12 ≤ length buf
      size = omega (arith, length-append header (encode ls ++ (qtype ++ (qclass ++ extra))))

      chosen : choose_reply ops t buf ≡ reply_with_ip t
      chosen = ground (
        arith,
        q,
        o,
        one,
        served t buf (joined ls)
            (parsed_domain_name-encode header ls (qtype ++ (qclass ++ extra)) h i) m,
      )

      reply : process_next_request ops s buf true ≡ reply_with_ip t
      reply = ground (
        arith,
        size,
        ap (λ r. read_question ops (record s { header = r }) buf) head_read
            ∙ question_read (record s { header = header }) ls qtype qclass extra h i small lt lc one
            ∙ chosen,
      )

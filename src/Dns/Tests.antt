-- ===== src/Dns/Tests.antt =====
-- The name server on a query for "a.bc".
use idf_custom_arduino.Base.{
  ℕ, ◌++◌, ◌≡◌, inr, refl, arith, true, false, some, List, [], ◌∷◌, replicate,
}
use idf_custom_arduino.Dns.Message.{done, read_qname, qr, request_includes_only_one_question}
use idf_custom_arduino.Dns.Server.{
  StringOps, Server, handled, crashed, init, answer_header, network_bytes, process_next_request,
  downcase_and_remove_www_prefix,
}
use idf_custom_arduino.Dns.Names.{encode, joined, query, read_qname-encode}
use idf_custom_arduino.Dns.Replies.{long_name_crashes, error_reply_echoes, answers_query}

-- String functions that change nothing.
abbrev plain : StringOps
plain = record { to_lower = λ s. s; replace = λ s from to. s }

abbrev labels : List (List ℕ)
labels = (0x61 ∷ []) ∷ (0x62 ∷ 0x63 ∷ []) ∷ []

abbrev header : List ℕ
header = 7 ∷ 9 ∷ 1 ∷ 0 ∷ 0 ∷ 1 ∷ 0 ∷ 0 ∷ 0 ∷ 0 ∷ 0 ∷ 0 ∷ []

abbrev question_tail : List ℕ
question_tail = 0 ∷ 1 ∷ 0 ∷ 1 ∷ []

abbrev server : Server
server = record init { domain_name = joined labels; resolved_ip = 10 ∷ 0 ∷ 0 ∷ 1 ∷ [] }

-- Two questions in one query, and a message that is a response.
abbrev two_questions : List ℕ
two_questions = 7 ∷ 9 ∷ 1 ∷ 0 ∷ 0 ∷ 2 ∷ 0 ∷ 0 ∷ 0 ∷ 0 ∷ 0 ∷ 0 ∷ []

abbrev response : List ℕ
response = 7 ∷ 9 ∷ 128 ∷ 0 ∷ 0 ∷ 1 ∷ 0 ∷ 0 ∷ 0 ∷ 0 ∷ 0 ∷ 0 ∷ []

-- A label of 63 bytes, the most that a name may have, and two such labels are a legal name.
abbrev long_label : List ℕ
long_label = replicate 63 0x61

question_seen : request_includes_only_one_question header ≡ true
unfolding request_includes_only_one_question
question_seen = refl

two_questions_seen : request_includes_only_one_question two_questions ≡ false
unfolding request_includes_only_one_question
two_questions_seen = refl

error_reply_echoes_example :
    (s' : Server) × (process_next_request plain server two_questions true
      ≡ handled s' (some two_questions))
    × (qr s'.header ≡ 1)
error_reply_echoes_example =
    error_reply_echoes plain server two_questions (omega arith) refl two_questions_seen

read_qname-encode_example : read_qname (query header labels question_tail) ≡ done (encode labels)
read_qname-encode_example =
    read_qname-encode header labels question_tail refl (omega arith, (omega arith, tt))
      (omega arith)

long_name_crashes_example :
    process_next_request plain server
      (query header (long_label ∷ long_label ∷ []) question_tail)
      true
    ≡ crashed
long_name_crashes_example =
    long_name_crashes plain server header (long_label ∷ long_label ∷ []) question_tail refl
      (omega arith, (omega arith, tt)) (omega arith) question_seen

answers_query_example :
    (s' : Server) × (process_next_request plain server
        (query header labels ((0 ∷ 1 ∷ []) ++ ((0 ∷ 1 ∷ []) ++ [])))
        true
      ≡ handled s' (
          some (
            answer_header header
            ++ encode labels
            ++ 0 ∷ 1 ∷ []
            ++ 0 ∷ 1 ∷ []
            ++ 0xc0 ∷ 12 ∷ []
            ++ 0 ∷ 1 ∷ 0 ∷ 1 ∷ []
            ++ network_bytes 60
            ++ 0 ∷ 4 ∷ []
            ++ 10 ∷ 0 ∷ 0 ∷ 1 ∷ [])))
    × (qr s'.header ≡ 1)
unfolding init downcase_and_remove_www_prefix
answers_query_example =
    answers_query plain server header labels (0 ∷ 1 ∷ []) (0 ∷ 1 ∷ []) [] refl
      (omega arith, (omega arith, tt)) (omega arith) refl refl refl refl question_seen
      (inr (omega arith, refl))

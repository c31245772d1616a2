-- ===== src/Dns/Server.antt =====
-- libraries/DNSServer/src/DNSServer.cpp: the server object, `start`, the settings, the replies and
-- `processNextRequest`. Between two requests `_buffer` is NULL.
use idf_custom_arduino.Base.{
  ℕ, ◌+◌, ◌/◌, ◌%◌, ◌^◌, Bool, true, false, not, ◌&&◌, ◌||◌, Option, none, some, List, [], ◌∷◌,
  ◌++◌, ltb, ◌==◌, bytes_eq, if◌then◌else◌, length, take, slice, replicate,
}
use idf_custom_arduino.Dns.Message.{
  done, fault, no_fuel, place, dns_header_size, dns_offset_domain_name, qr, op_code,
  set_qr_response, set_r_code, set_an_count, set_qd_count_zero, request_includes_only_one_question,
  read_qname, parsed_domain_name,
}

-- The string functions that the code takes from elsewhere.
pub record StringOps : Type 0 where
  pub to_lower : List ℕ → List ℕ
  pub replace : List ℕ → List ℕ → List ℕ → List ℕ

-- `DNSReplyCode::NonExistentDomain`
abbrev pub non_existent_domain : ℕ
non_existent_domain = 3

pub record Server : Type 0 where
  pub port : ℕ
  pub domain_name : List ℕ
  pub resolved_ip : List ℕ
  pub header : List ℕ
  pub ttl : ℕ
  pub error_reply_code : ℕ
  pub qname : List ℕ
  pub qtype : List ℕ
  pub qclass : List ℕ

-- The constructor: a time to live of 60 seconds. The blocks of header and question are not
-- initialised; their bytes are never read before they are written.
unfoldable pub init : Server
init = record {
  port = 0;
  domain_name = [];
  resolved_ip = 0 ∷ 0 ∷ 0 ∷ 0 ∷ [];
  header = replicate 12 0;
  ttl = 60;
  error_reply_code = non_existent_domain;
  qname = [];
  qtype = [];
  qclass = [];
}

unfoldable pub set_error_reply_code : Server → ℕ → Server
set_error_reply_code s code = record s { error_reply_code = code }

unfoldable pub set_ttl : Server → ℕ → Server
set_ttl s ttl = record s { ttl = ttl }

-- The four bytes of a number, the highest first: what `htonl` leaves in memory.
abbrev pub network_bytes : ℕ → List ℕ
network_bytes v = (v / 2 ^ 24 % 256) ∷ (v / 2 ^ 16 % 256) ∷ (v / 2 ^ 8 % 256) ∷ (v % 256) ∷ []

-- What a request leads to: no access outside the arrays, and at most one packet is sent.
pub data Outcome : Type 0 where
  handled : Server → Option (List ℕ) → Outcome
  crashed : Outcome
  exhausted : Outcome

-- The header with which the address is sent.
abbrev pub answer_header : List ℕ → List ℕ
answer_header h = set_an_count (set_qr_response h)

unfoldable pub reply_with_ip : Server → Outcome
reply_with_ip s =
    handled (record s { header = answer_header s.header })
      (some (
        answer_header s.header
        ++ s.qname
        ++ s.qtype
        ++ s.qclass
        ++ 0xc0 ∷ dns_offset_domain_name ∷ []
        ++ 0 ∷ 1 ∷ 0 ∷ 1 ∷ []
        ++ network_bytes s.ttl
        ++ 0 ∷ 4 ∷ []
        ++ s.resolved_ip))

-- The header object is changed, and the bytes of the packet are sent.
unfoldable pub reply_with_custom_code : Server → List ℕ → Outcome
reply_with_custom_code s buf =
    handled
      (record s {
        header = set_qd_count_zero (set_r_code s.error_reply_code (set_qr_response s.header));
      })
      (some (take dns_header_size buf))

module _ (ops : StringOps) where
  -- "www." is removed.
  unfoldable pub downcase_and_remove_www_prefix : List ℕ → List ℕ
  downcase_and_remove_www_prefix name =
      ops.replace (ops.to_lower name) (0x77 ∷ 0x77 ∷ 0x77 ∷ 0x2e ∷ []) []

  -- `listening` is the result of `_udp.begin(port)`.
  unfoldable pub start : Server → ℕ → List ℕ → List ℕ → Bool → Bool × Server
  unfolding downcase_and_remove_www_prefix
  start s port domain_name ip listening = (
    listening,
    record s {
      port = port;
      domain_name = downcase_and_remove_www_prefix domain_name;
      resolved_ip = ip;
    },
  )

  -- Whether the name of the query is the server's. The domain "*" is every name.
  unfoldable pub name_matches : Server → List ℕ → Option Bool
  name_matches s buf =
      if bytes_eq s.domain_name (0x2a ∷ []) then some true else elim (parsed_domain_name buf) [
        | done [] ↦ some (bytes_eq [] s.domain_name)
        | done (c ∷ cs) ↦ some (bytes_eq (downcase_and_remove_www_prefix (c ∷ cs)) s.domain_name)
        | fault ↦ none
        | no_fuel ↦ none
      ]

  unfoldable pub choose_reply : Server → List ℕ → Outcome
  choose_reply s buf =
      let refused = if qr s.header == 0 then reply_with_custom_code s buf else handled s none in
      let answered : Outcome = elim (name_matches s buf) [
        | none ↦ crashed
        | some true ↦ reply_with_ip s
        | some false ↦ refused
      ] in
      if (qr s.header == 0)
        && (op_code s.header == 0)
        && request_includes_only_one_question s.header
      then answered
      else refused

  -- Copy the question out of the packet, if there is just one. The type and the class stand behind the
  -- name, at an index with the same `int8_t`.
  unfoldable pub read_question : Server → List ℕ → Outcome
  read_question s buf =
      if request_includes_only_one_question s.header
      then elim (read_qname buf) [
        | fault ↦ crashed
        | no_fuel ↦ exhausted
        | done name ↦ elim (place dns_header_size (length name)) [
          | none ↦ crashed
          | some at ↦
              if ltb (length buf) (at + 4)
              then crashed
              else choose_reply
                  (record s { qname = name; qtype = slice at 2 buf; qclass = slice (at + 2) 2 buf })
                  buf
        ]
      ]
      else choose_reply s buf

  -- `buf` is the packet that `parsePacket` found, empty if there is none; `allocated` says whether
  -- there was memory for it.
  unfoldable pub process_next_request : Server → List ℕ → Bool → Outcome
  process_next_request s buf allocated =
      if (length buf == 0) || not allocated
      then handled s none
      else if ltb (length buf) dns_header_size
      then crashed
      else read_question (record s { header = take dns_header_size buf }) buf

-- ===== src/WebServer/Request/Timed.antt =====
-- libraries/WebServer/src/Parsing.cpp: the body of a request that is no form, with `readBytesWithTimeout`.
use idf_custom_arduino.Base.{
  ℕ, zero, suc, ◌+◌, Bool, true, false, Option, none, some, List, [], ◌∷◌, ◌++◌, ltb, ◌==◌, length,
  text, if◌then◌else◌,
}
use idf_custom_arduino.WebServer.Arguments.{RequestArgument, parse_arguments}
use idf_custom_arduino.WebServer.Request.{
  Reader, Texts, Methods, Request, c_string, Body, max_post_wait,
}

module _ {W : Type 0} (reader : Reader W) where
  -- The wait for bytes: a poll for each try, and one more.
  unfoldable pub wait_bytes : ℕ → W → ℕ × W
  wait_bytes zero w = reader.available w
  wait_bytes (suc n) w =
      let a = reader.available w in
      let rest = wait_bytes n (reader.delay a.1) in if a.0 == 0 then rest else a

  -- The loop of readBytesWithTimeout, a round for each byte that is missing; none is a null pointer
  -- for want of memory.
  unfoldable pub read_rounds : ℕ → ℕ → List ℕ → W → Option (List ℕ) × W
  read_rounds zero max_length got w = (some got, w)
  read_rounds (suc k) max_length got w =
      let a = wait_bytes max_post_wait w in
      let r = reader.read_bytes a.1 a.0 in
      let rest = read_rounds k max_length (got ++ r.0) r.1 in
      if ltb (length got) max_length
      then (if a.0 == 0
          then (some got, a.1)
          else (if reader.room a.1 (length got + a.0 + 1) then rest else (none, a.1)))
      else (some got, w)

  unfoldable pub read_bytes_with_timeout : ℕ → W → Option (List ℕ) × W
  read_bytes_with_timeout max_length w = read_rounds max_length max_length [] w

module _ (txt : Texts) (methods : Methods) {W : Type 0} (reader : Reader W) where
  abbrev pub with_args : List ℕ → Request W → Option (Request W)
  with_args search q = elim (parse_arguments txt.strings search) [
    | none ↦ none
    | some args ↦ some (record q { current_args = args })
  ]

  -- The arguments of a body that is no form, behind those of the address.
  abbrev pub plain_search : Bool → List ℕ → List ℕ → List ℕ
  plain_search is_encoded search body =
      if is_encoded
      then (if length search == 0 then c_string body else search ++ text "&" ++ c_string body)
      else search

  abbrev pub plain_args : Bool → List ℕ → List RequestArgument → List RequestArgument
  plain_args is_encoded body args =
      if is_encoded then args else args ++ record { key = text "plain"; value = c_string body } ∷ []

  unfoldable pub plain_body : Body → List ℕ → Request W → Option (Bool × Request W)
  plain_body b search q =
      let r = read_bytes_with_timeout reader b.content_length q.conn in
      let q1 : Request W = record q { conn = r.1 } in
      elim r.0 [
        | none ↦ some (false, q1)
        | some body ↦
            if ltb (length body) b.content_length
            then some (false, q1)
            else elim (with_args
                (if ltb 0 b.content_length then plain_search b.is_encoded search body else search)
                q1) [
                  | none ↦ none
                  | some q2 ↦ some (
                    true,
                    record q2 {
                      current_args =
                          if ltb 0 b.content_length
                          then plain_args b.is_encoded body q2.current_args
                          else q2.current_args;
                    },
                  )
                ]
      ]

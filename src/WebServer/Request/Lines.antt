-- ===== src/WebServer/Request/Lines.antt =====
-- The lines of a request: their parts, and the headers that they give.
use idf_custom_arduino.Base.{
  ℕ, zero, suc, ◌+◌, ◌-◌, ◌<◌, ◌≡◌, refl, sym, ap, ap₂, ◌∙◌, arith, false, none, some, List, [],
  ◌∷◌, ◌++◌, append_assoc, ◌==◌, length, length-append, take, drop, take-append_length,
  drop-append_length, text,
}
use idf_custom_arduino.WebServer.Arguments.{RequestArgument, Strings}
use idf_custom_arduino.WebServer.Arguments.Fields.{plus, find, IsStrings}
use idf_custom_arduino.WebServer.Arguments.Parsed.{drop-drop}
use idf_custom_arduino.WebServer.Routes.Braces.{find-append}
use idf_custom_arduino.WebServer.Request.{
  Reader, Texts, Request, c_string, collect_header, take_host, next_line, with_header, read_headers,
}

-- A connection on which the bytes have arrived.
pub record IsReader {W : Type 0} (reader : Reader W) (pending : W → List ℕ) : Type 0 where
  pub read_until_lem :
      (w : W) (c : ℕ) (line rest : List ℕ)
      → find c line ≡ none
      → pending w ≡ line ++ c ∷ rest
      → ((reader.read_until w c).0 ≡ line) × (pending (reader.read_until w c).1 ≡ rest)

pub record Header : Type 0 where
  pub name : List ℕ
  pub value : List ℕ

abbrev pub header_line : Header → List ℕ
header_line h = h.name ++ 58 ∷ 32 ∷ h.value

abbrev pub header_lines : List Header → List ℕ
header_lines [] = 13 ∷ 10 ∷ []
header_lines (h ∷ hs) = header_line h ++ 13 ∷ 10 ∷ header_lines hs

-- No name has a colon, and no line a carriage return.
abbrev pub AreHeaders : List Header → Type 0
AreHeaders [] = Unit
AreHeaders (h ∷ hs) = (find 58 h.name ≡ none) × (find 13 (header_line h) ≡ none) × AreHeaders hs

-- A substring in the middle, and one at the end.
module _ (str : Strings) (law : IsStrings str) where
  pub first_index :
      (c : ℕ) (a r : List ℕ) → find c a ≡ none → str.index_of (a ++ c ∷ r) c 0 ≡ some (length a)
  first_index c a r h =
      law.index_of_lem (a ++ c ∷ r) c 0
      ∙ ap (plus 0) (find-append c a r h)
      ∙ ap some (zero_plus (length a))
    where
      zero_plus : (n : ℕ) → 0 + n ≡ n
      zero_plus n = omega arith

  pub front_part : (a r : List ℕ) → str.substring (a ++ r) 0 (some (length a)) ≡ a
  front_part a r =
      law.substring_lem (a ++ r) 0 (length a) (omega arith)
      ∙ ap (λ n. take n (a ++ r)) (minus_zero (length a))
      ∙ take-append_length a r
    where
      minus_zero : (n : ℕ) → n - 0 ≡ n
      minus_zero n = omega arith

  pub back_part : (a b r : List ℕ) → str.substring (a ++ (b ++ r)) (length a + length b) none ≡ r
  back_part a b r =
      law.substring_rest (a ++ (b ++ r)) (length a + length b)
      ∙ sym (drop-drop (length b) (length a) (a ++ (b ++ r)))
      ∙ ap (drop (length b)) (drop-append_length a (b ++ r))
      ∙ drop-append_length b r

module _ (txt : Texts) (law : IsStrings txt.strings) {W : Type 0} (reader : Reader W)
    (pending : W → List ℕ) (reads : IsReader reader pending) where
  pub line_read :
      (w : W) (line rest : List ℕ)
      → find 13 line ≡ none
      → pending w ≡ line ++ 13 ∷ 10 ∷ rest
      → let l = next_line txt reader w in (l.0 ≡ line) × (pending l.1 ≡ rest)
  line_read w line rest h e =
      let r = reads.read_until_lem w 13 line (10 ∷ rest) h e in
      let n = reads.read_until_lem (reader.read_until w 13).1 10 [] rest refl r.1 in (r.0, n.1)

  -- The values that are collected, one header after the other, and the host.
  abbrev pub collected : List Header → List RequestArgument → List RequestArgument
  collected [] as_were = as_were
  collected (h ∷ hs) as_were =
      collected hs (collect_header txt (c_string h.name) (c_string h.value) as_were)

  abbrev pub host_of : List Header → List ℕ → List ℕ
  host_of [] host = host
  host_of (h ∷ hs) host = host_of hs (take_host txt h.name h.value host)

  abbrev pub with_headers : List Header → W → Request W → Request W
  with_headers hs w q = record q {
    current_headers = collected hs q.current_headers;
    host_header = host_of hs q.host_header;
    conn = w;
  }

  pub headers_read :
      (hs : List Header) (k : ℕ) (after : List ℕ) (q : Request W)
      → length hs < k
      → AreHeaders hs
      → pending q.conn ≡ header_lines hs ++ after
      → (w : W) × (read_headers txt reader k q ≡ some (with_headers hs w q)) × (pending w ≡ after)
  unfolding read_headers
  headers_read hs zero after q h a e = absurd (omega arith)
  headers_read [] (suc k) after q h a e =
      let l = line_read q.conn [] after refl e in
      ((next_line txt reader q.conn).1, ground (arith, ap length l.0), l.1)
  headers_read (x ∷ hs) (suc k) after q h a e =
      let line = header_line x in
      let rest = header_lines hs ++ after in
      let l =
        line_read q.conn line rest a.1 (e ∙ append_assoc line (13 ∷ 10 ∷ header_lines hs) after) in
      let got = next_line txt reader q.conn in
      let str = txt.strings in
      let colon : str.index_of got.0 58 0 ≡ some (length x.name) =
        ap (λ z. str.index_of z 58 0) l.0 ∙ first_index str law 58 x.name (32 ∷ x.value) a.0 in
      let name : str.substring got.0 0 (some (length x.name)) ≡ x.name =
        ap (λ z. str.substring z 0 (some (length x.name))) l.0
        ∙ front_part str law x.name (58 ∷ 32 ∷ x.value) in
      let value : str.substring got.0 (length x.name + 2) none ≡ x.value =
        ap (λ z. str.substring z (length x.name + 2) none) l.0
        ∙ back_part str law x.name (58 ∷ 32 ∷ []) x.value in
      let next =
        with_header txt reader x.name x.value (take_host txt x.name x.value q.host_header) got.1
          q in
      let ih = headers_read hs k after next (omega arith) a.2 l.1 in
      let some_line : (length got.0 == 0) ≡ false =
        ground (arith, ap length l.0, length-append x.name (58 ∷ 32 ∷ x.value)) in
      let step =
        ap₂
          (λ n v.
            read_headers txt reader k
              (with_header txt reader n v (take_host txt n v q.host_header) got.1 q))
          name value in
      (ih.0, ground (arith, some_line, colon, step, ih.1), ih.2)

-- A request line, with the version behind its first digit.
abbrev pub request_line : List ℕ → List ℕ → List ℕ → List ℕ
request_line name target version = name ++ 32 ∷ (target ++ 32 ∷ (text "HTTP/1." ++ version))

module _ (str : Strings) (law : IsStrings str) (name target version : List ℕ) where
  pub rest_of :
      drop (length name + 1) (request_line name target version)
      ≡ target ++ 32 ∷ (text "HTTP/1." ++ version)
  rest_of =
      sym (drop-drop 1 (length name) (request_line name target version))
      ∙ ap (drop 1) (drop-append_length name (32 ∷ (target ++ 32 ∷ (text "HTTP/1." ++ version))))

  pub second_space :
      find 32 target ≡ none
      → str.index_of (request_line name target version) 32 (length name + 1)
        ≡ some (length name + 1 + length target)
  second_space h =
      law.index_of_lem (request_line name target version) 32 (length name + 1)
      ∙ ap (λ z. plus (length name + 1) (find 32 z)) rest_of
      ∙ ap (plus (length name + 1)) (find-append 32 target (text "HTTP/1." ++ version) h)

  pub target_part :
      str.substring
        (request_line name target version)
        (length name + 1)
        (some (length name + 1 + length target))
      ≡ target
  target_part =
      law.substring_lem (request_line name target version) (length name + 1)
        (length name + 1 + length target) (omega arith)
      ∙ ap₂ (λ n z. take n z) (less (length name + 1) (length target)) rest_of
      ∙ take-append_length target (32 ∷ (text "HTTP/1." ++ version))
    where
      less : (a b : ℕ) → a + b - a ≡ b
      less a b = omega arith

  pub version_part :
      str.substring (request_line name target version) (length name + 1 + length target + 8) none
      ≡ version
  version_part =
      law.substring_rest (request_line name target version) (length name + 1 + length target + 8)
      ∙ sym (drop-drop 8 (length name + 1 + length target) (request_line name target version))
      ∙ ap (drop 8) (
          sym (drop-drop (length target) (length name + 1) (request_line name target version))
          ∙ ap (drop (length target)) rest_of
          ∙ drop-append_length target (32 ∷ (text "HTTP/1." ++ version)))

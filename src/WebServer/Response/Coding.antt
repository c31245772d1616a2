-- ===== src/WebServer/Response/Coding.antt =====
-- The chunked coding of RFC 7230, written and read.
use idf_custom_arduino.Base.{
  ℕ, zero, suc, ◌+◌, ◌-◌, ◌*◌, ◌/◌, ◌%◌, ◌^◌, ◌<◌, ◌≡◌, refl, ap, ◌∙◌, arith, Bool, false, ◌&&◌,
  Option, none, some, List, [], ◌∷◌, ◌++◌, append_assoc, ltb, leb, ◌==◌, bytes_eq, length,
  length-append, take, drop, drop-append_length, take-append_length, inl, inr, if◌then◌else◌,
  Bool-cases,
}
use idf_custom_arduino.WebServer.Response.{digit, numeral, hex, crlf}

-- The value of a hexadecimal digit.
abbrev pub hex_value : ℕ → Option ℕ
hex_value c =
    if leb 48 c && leb c 57
    then some (c - 48)
    else if leb 97 c && leb c 102
    then some (c - 87)
    else if leb 65 c && leb c 70
    then some (c - 55)
    else none

-- The size at the front, and what is behind its line.
unfoldable pub size_line : ℕ → List ℕ → Option (ℕ × List ℕ)
size_line acc [] = none
size_line acc (c ∷ cs) = elim (hex_value c) [
  | some d ↦ size_line (acc * 16 + d) cs
  | none ↦ if bytes_eq (take 2 (c ∷ cs)) crlf then some (acc, drop 2 (c ∷ cs)) else none
]

abbrev pub prepend : List ℕ → Option (List ℕ) → Option (List ℕ)
prepend xs none = none
prepend xs (some ys) = some (xs ++ ys)

-- The contents of so many chunks at most, the last of them empty.
unfoldable pub decode_chunks : ℕ → List ℕ → Option (List ℕ)
decode_chunks zero bs = none
decode_chunks (suc k) bs = elim (size_line 0 bs) [
  | none ↦ none
  | some e ↦
      let behind = drop e.0 e.1 in
      let later = decode_chunks k (drop 2 behind) in
      if e.0 == 0
      then (if bytes_eq e.1 crlf then some [] else none)
      else (if bytes_eq (take 2 behind) crlf then prepend (take e.0 e.1) later else none)
]

-- There are fewer chunks than bytes.
abbrev pub decode : List ℕ → Option (List ℕ)
decode bs = decode_chunks (length bs) bs

pub hex_value-digit : (d : ℕ) → d < 16 → hex_value (digit d) ≡ some d
unfolding digit
hex_value-digit d h = ground arith

pub numeral-append :
    (base k n : ℕ) (acc t : List ℕ) → numeral base k n acc ++ t ≡ numeral base k n (acc ++ t)
unfolding numeral
numeral-append base zero n acc t = refl
numeral-append base (suc k) n acc t =
    ground (arith, numeral-append base k (n / base) (digit (n % base) ∷ acc) t)

pub size_digit :
    (a d : ℕ) (t : List ℕ) → d < 16 → size_line a (digit d ∷ t) ≡ size_line (a * 16 + d) t
unfolding size_line
size_digit a d t h = ground (arith, hex_value-digit d h)

pub size_line-numeral :
    (k n : ℕ) (t : List ℕ) → n < 16 ^ k → size_line 0 (numeral 16 k n t) ≡ size_line n t
unfolding numeral
size_line-numeral zero n t h = ap (λ m. size_line m t) (omega arith)
size_line-numeral (suc k) n t h = elim (Bool-cases (ltb n 16)) [
  | inl q ↦
      ap
        (λ (b : Bool).
          size_line 0
            (if b then digit (n % 16) ∷ t else numeral 16 k (n / 16) (digit (n % 16) ∷ t)))
        q
      ∙ size_digit 0 (n % 16) t (omega arith)
      ∙ ap (λ m. size_line m t) (ground (arith, q))
  | inr q ↦
      ap
        (λ (b : Bool).
          size_line 0
            (if b then digit (n % 16) ∷ t else numeral 16 k (n / 16) (digit (n % 16) ∷ t)))
        q
      ∙ size_line-numeral k (n / 16) (digit (n % 16) ∷ t) (omega (arith, h))
      ∙ size_digit (n / 16) (n % 16) t (omega arith)
      ∙ ap (λ m. size_line m t) (omega arith)
]

pub size_line-crlf : (n : ℕ) (t : List ℕ) → size_line n (crlf ++ t) ≡ some (n, t)
unfolding size_line
size_line-crlf n t = refl

-- A chunk, and the chunks of some pieces with the empty one at their end.
abbrev pub chunk : List ℕ → List ℕ
chunk p = (hex (length p) ++ crlf) ++ (p ++ crlf)

abbrev pub encoded : List (List ℕ) → List ℕ
encoded [] = chunk []
encoded (p ∷ ps) = chunk p ++ encoded ps

abbrev pub join : List (List ℕ) → List ℕ
join [] = []
join (p ∷ ps) = p ++ join ps

-- None of them is empty, and their lengths have 32 bits.
abbrev pub ArePieces : List (List ℕ) → Type 0
ArePieces [] = Unit
ArePieces (p ∷ ps) = (0 < length p) × (length p < 2 ^ 32) × ArePieces ps

pub size_line-chunk :
    (p t : List ℕ)
    → length p < 2 ^ 32
    → size_line 0 (chunk p ++ t) ≡ some (length p, p ++ (crlf ++ t))
size_line-chunk p t h =
    let body = (p ++ crlf) ++ t in
    ap (size_line 0) (
      append_assoc (hex (length p) ++ crlf) (p ++ crlf) t
      ∙ append_assoc (hex (length p)) crlf body
      ∙ numeral-append 16 8 (length p) [] (crlf ++ body))
    ∙ size_line-numeral 8 (length p) (crlf ++ body) h
    ∙ size_line-crlf (length p) body
    ∙ ap (λ r. some (length p, r)) (append_assoc p crlf t)

pub decode-chunk :
    (k : ℕ) (p t : List ℕ)
    → 0 < length p
    → length p < 2 ^ 32
    → decode_chunks (suc k) (chunk p ++ t) ≡ prepend p (decode_chunks k t)
unfolding decode_chunks
decode-chunk k p t h l =
    let e = size_line-chunk p t l in
    let z : (length p == 0) ≡ false = ground (arith, h) in
    let d = drop-append_length p (crlf ++ t) in
    let f = take-append_length p (crlf ++ t) in grind (arith, e, z, d, f)

pub decode-last : (k : ℕ) → decode_chunks (suc k) (chunk []) ≡ some []
unfolding decode_chunks size_line numeral digit
decode-last k = refl

pub decode-encoded :
    (k : ℕ) (ps : List (List ℕ))
    → length ps < k
    → ArePieces ps
    → decode_chunks k (encoded ps) ≡ some (join ps)
decode-encoded zero ps h a = absurd (omega arith)
decode-encoded (suc k) [] h a = decode-last k
decode-encoded (suc k) (p ∷ ps) h a =
    decode-chunk k p (encoded ps) a.0 a.1 ∙ ap (prepend p) (decode-encoded k ps (omega arith) a.2)

pub fewer_chunks : (ps : List (List ℕ)) → length ps < length (encoded ps)
fewer_chunks [] = omega (arith, length-append (hex 0 ++ crlf) crlf)
fewer_chunks (p ∷ ps) = omega (
  arith,
  fewer_chunks ps,
  length-append (chunk p) (encoded ps),
  length-append (hex (length p) ++ crlf) (p ++ crlf),
  length-append p crlf,
)

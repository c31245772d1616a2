-- ===== src/Http/Transfer.antt =====
-- libraries/HTTPClient/src/HTTPClient.cpp: `writeToStream` and `writeToStreamDataBlock`. The connection, the
-- stream, malloc and the trimming of a String are parameters. An `int` is a word of 32 bits.
use idf_custom_arduino.Base.{
  ℕ, zero, suc, ◌+◌, ◌-◌, ◌*◌, ◌%◌, ◌^◌, min, Bool, false, not, ◌&&◌, ◌||◌, Option, none, some,
  List, [], ◌∷◌, ◌++◌, ltb, leb, ◌==◌, length, take, drop, if◌then◌else◌,
}

-- The errors of HTTPClient.h that can occur here.
pub data Error : Type 0 where
  no_stream : Error
  not_connected : Error
  connection_lost : Error
  read_timeout : Error
  stream_write : Error
  too_less_ram : Error
  encoding : Error

pub data Outcome : Type 0 where
  written : ℕ → Outcome
  failed : Error → Outcome

-- `transferEncoding_t`; any other value is unsupported.
pub data Encoding : Type 0 where
  te_identity : Encoding
  te_chunked : Encoding
  te_other : Encoding

-- `HTTP_TCP_BUFFER_SIZE`
abbrev pub tcp_buffer_size : ℕ
tcp_buffer_size = 1460

-- What the code uses of the connection, whose state is of the type W: a poll and a read take time. A
-- line is what `readStringUntil` gives for the line feed, and `malloc` gives what the memory holds.
pub record Connection (W : Type 0) : Type 0 where
  pub connected : W → Bool
  pub available : W → ℕ × W
  pub read_bytes : W → ℕ → List ℕ × W
  pub read_line : W → List ℕ × W
  pub malloc : W → ℕ → Option (List ℕ)
  pub trim : List ℕ → List ℕ

-- What it uses of the stream: how many bytes were taken, and its error.
pub record Stream (S : Type 0) : Type 0 where
  pub write : S → List ℕ → ℕ × S
  pub write_error : S → Bool
  pub clear_write_error : S → S

pub record Link (W S : Type 0) : Type 0 where
  pub conn : W
  pub out : S

-- An `int` that is greater than 0, and the word for -1.
abbrev pub positive : ℕ → Bool
positive n = ltb 0 n && ltb n (2 ^ 31)

abbrev pub minus_one : ℕ
minus_one = 2 ^ 32 - 1

abbrev pub digit_value : ℕ → Option ℕ
digit_value c =
    if leb 48 c && leb c 57
    then some (c - 48)
    else if leb 97 c && leb c 102
    then some (c - 87)
    else if leb 65 c && leb c 70
    then some (c - 55)
    else none

-- `strtol` with the base 16 on a trimmed text, as a word: a sign, a prefix, and digits up to the first
-- character that is none; the result stays in the range of a `long`.
abbrev pub digits : ℕ → List ℕ → ℕ
digits acc [] = acc
digits acc (c ∷ cs) = elim (digit_value c) [ none ↦ acc | some d ↦ digits (acc * 16 + d) cs ]

abbrev pub magnitude : List ℕ → ℕ
magnitude [] = 0
magnitude (c ∷ []) = digits 0 (c ∷ [])
magnitude (c ∷ d ∷ cs) =
    if c == 48 && (d == 120 || d == 88) then digits 0 cs else digits 0 (c ∷ d ∷ cs)

unfoldable pub strtol16 : List ℕ → ℕ
strtol16 [] = 0
strtol16 (c ∷ cs) =
    if c == 45
    then (2 ^ 32 - min (magnitude cs) (2 ^ 31)) % 2 ^ 32
    else (if c == 43
        then min (magnitude cs) (2 ^ 31 - 1)
        else min (magnitude (c ∷ cs)) (2 ^ 31 - 1))

-- How many bytes are asked for.
abbrev pub wanted : ℕ → ℕ → ℕ → ℕ
wanted available len buff_size =
    min (if positive len then min available len else available) buff_size

-- What follows the data of a chunk.
abbrev pub trailing : List ℕ → Bool
trailing (a ∷ b ∷ []) = a == 13 && b == 10
trailing bytes = false

-- The end of the loop over the chunks.
abbrev pub all_chunks : ℕ → ℕ → ℕ → Outcome
all_chunks document size ret =
    let whole = if positive document then document else size in
    if ret == whole then written ret else failed stream_write

module _ {S : Type 0} (stream : Stream S) where
  -- The bytes that were read are written to the stream, from the buffer; what was not taken is tried
  -- again. Whether that went well, and how many bytes were taken.
  unfoldable pub put : ℕ → List ℕ → List ℕ → S → Bool × ℕ × S
  put asked bytes buff out =
      let w = stream.write out bytes in
      let cleared = if stream.write_error w.1 then stream.clear_write_error w.1 else w.1 in
      let left = asked - w.0 in
      let again = stream.write cleared (take left (drop w.0 buff)) in
      if w.0 == length bytes
      then (not (stream.write_error w.1), w.0, w.1)
      else ((again.0 == left) && not (stream.write_error again.1), w.0 + again.0, again.1)

module _ {W S : Type 0} (conn : Connection W) (stream : Stream S) where
  -- The loop of writeToStreamDataBlock, with the buffer, what is left and what is written. It is none
  -- when the rounds given first do not suffice.
  unfoldable pub block_rounds : ℕ → ℕ → List ℕ → ℕ → ℕ → Link W S → Option (Outcome × Link W S)
  block_rounds zero size buff len total s = none
  block_rounds (suc k) size buff len total s =
      let a = conn.available s.conn in
      let n = wanted a.0 len (length buff) in
      let r = conn.read_bytes a.1 n in
      let filled = r.0 ++ drop (length r.0) buff in
      let p = put stream n r.0 filled s.out in
      let left = if positive len then len - n else len in
      let more = block_rounds k size filled left (total + p.1) (record { conn = r.1; out = p.2 }) in
      let idle = block_rounds k size buff len total (record s { conn = a.1 }) in
      let result =
        if positive size && not (size == total) then failed stream_write else written total in
      if conn.connected s.conn && (positive len || len == minus_one)
      then (if a.0 == 0
          then idle
          else (if n == 0
              then some (result, record s { conn = a.1 })
              else (if p.0
                  then more
                  else some (failed stream_write, record { conn = r.1; out = p.2 }))))
      else some (result, s)

  unfoldable pub write_to_stream_data_block : ℕ → ℕ → Link W S → Option (Outcome × Link W S)
  write_to_stream_data_block fuel size s =
      let buff_size = if positive size && ltb size tcp_buffer_size then size else tcp_buffer_size in
      elim (conn.malloc s.conn buff_size) [
        | none ↦ some (failed too_less_ram, s)
        | some buff ↦ block_rounds fuel size buff size 0 s
      ]

  -- The loop over the chunks, with the length that the header gave, the sizes and what is written so
  -- far. The rounds given first are for this loop, and the next for the data of each chunk.
  unfoldable pub chunk_rounds : ℕ → ℕ → ℕ → ℕ → ℕ → Link W S → Option (Outcome × Link W S)
  chunk_rounds zero fuel document size ret s = none
  chunk_rounds (suc k) fuel document size ret s =
      let line = conn.read_line s.conn in
      let len = strtol16 (conn.trim line.0) in
      let sum = (size + len) % 2 ^ 32 in
      let s1 : Link W S = record s { conn = line.1 } in
      if conn.connected s.conn
      then (if length line.0 == 0
          then some (failed read_timeout, s1)
          else (if positive len
              then elim (write_to_stream_data_block fuel len s1) [
                | none ↦ none
                | some b ↦ elim b.0 [
                  | failed e ↦ some (failed e, b.1)
                  | written n ↦
                      let t = conn.read_bytes b.1.conn 2 in
                      let s2 : Link W S = record b.1 { conn = t.1 } in
                      let rest = chunk_rounds k fuel document sum (ret + n) s2 in
                      if trailing t.0 then rest else some (failed read_timeout, s2)
                ]
              ]
              else some (all_chunks document sum ret, s1)))
      else some (failed connection_lost, s)

  -- The stream is not null. The connection that is closed afterwards, with success or an error, is left
  -- out.
  unfoldable pub write_to_stream : ℕ → ℕ → Encoding → ℕ → Link W S → Option (Outcome × Link W S)
  write_to_stream k fuel enc document s =
      let block = write_to_stream_data_block fuel document s in
      let chunks = chunk_rounds k fuel document 0 0 s in
      if conn.connected s.conn
      then elim enc [
        | te_identity ↦ block
        | te_chunked ↦ chunks
        | te_other ↦ some (failed encoding, s)
      ]
      else some (failed not_connected, s)

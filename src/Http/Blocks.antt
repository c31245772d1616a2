-- ===== src/Http/Blocks.antt =====
-- A block of data goes from the connection to the stream.
use idf_custom_arduino.Base.{
  ℕ, zero, suc, ◌+◌, ◌-◌, ◌^◌, ◌≤◌, ◌<◌, min, ◌≡◌, ◌≢◌, refl, sym, ap, ap₂, ◌∙◌, arith, Bool, true,
  false, ◌&&◌, none, some, List, [], ◌∷◌, ◌++◌, append_assoc, append-nil, ltb, ◌==◌, length,
  length-append, length-take, length-drop, take, drop, take-append-slice, if◌then◌else◌,
}
use idf_custom_arduino.WebServer.Arguments.Fields.{find}
use idf_custom_arduino.WebServer.Arguments.Parsed.{drop-drop}
use idf_custom_arduino.Http.Transfer.{
  written, Connection, Stream, Link, tcp_buffer_size, positive, put, wanted, block_rounds,
  write_to_stream_data_block,
}

-- There is no white space.
abbrev pub ArePrinted : List ℕ → Type 0
ArePrinted [] = Unit
ArePrinted (x ∷ xs) = (32 < x) × ArePrinted xs

-- A connection on which the rest of a response has arrived, with the memory for a buffer.
pub record IsResponse {W : Type 0} (conn : Connection W) (pending : W → List ℕ) : Type 0 where
  pub connected_lem : (w : W) → pending w ≢ [] → conn.connected w ≡ true
  pub available_some : (w : W) → pending w ≢ [] → 0 < (conn.available w).0
  pub available_most : (w : W) → (conn.available w).0 ≤ length (pending w)
  pub available_keeps : (w : W) → pending (conn.available w).1 ≡ pending w
  pub read_bytes_lem :
      (w : W) (n : ℕ) → n ≤ length (pending w) → (conn.read_bytes w n).0 ≡ take n (pending w)
  pub read_bytes_rest :
      (w : W) (n : ℕ)
      → n ≤ length (pending w)
      → pending (conn.read_bytes w n).1 ≡ drop n (pending w)
  pub read_line_lem :
      (w : W) (line rest : List ℕ)
      → find 10 line ≡ none
      → pending w ≡ line ++ 10 ∷ rest
      → ((conn.read_line w).0 ≡ line) × (pending (conn.read_line w).1 ≡ rest)
  pub malloc_lem :
      (w : W) (n : ℕ) → (buff : List ℕ) × (conn.malloc w n ≡ some buff) × (length buff ≡ n)
  pub trim_lem : (xs : List ℕ) → ArePrinted xs → conn.trim (xs ++ 13 ∷ []) ≡ xs

-- A stream that takes all that is written.
pub record IsSink {S : Type 0} (stream : Stream S) (sent : S → List ℕ) : Type 0 where
  pub write_all : (s : S) (bs : List ℕ) → (stream.write s bs).0 ≡ length bs
  pub sent_lem : (s : S) (bs : List ℕ) → sent (stream.write s bs).1 ≡ sent s ++ bs
  pub no_error : (s : S) (bs : List ℕ) → stream.write_error (stream.write s bs).1 ≡ false

-- A first part and the rest, as one.
dropped :
    (p p2 p3 : List ℕ) (n m k : ℕ) → p2 ≡ drop n p → p3 ≡ drop m p2 → n + m ≡ k → p3 ≡ drop k p
dropped p p2 p3 n m k e f w = f ∙ ap (drop m) e ∙ drop-drop m n p ∙ ap (λ i. drop i p) w

taken :
    (p p2 out out2 out3 : List ℕ) (n m k : ℕ)
    → p2 ≡ drop n p
    → out2 ≡ out ++ take n p
    → out3 ≡ out2 ++ take m p2
    → n + m ≡ k
    → out3 ≡ out ++ take k p
taken p p2 out out2 out3 n m k e f g w =
    g
    ∙ ap₂ (λ a b. a ++ take m b) f e
    ∙ append_assoc out (take n p) (take m (drop n p))
    ∙ ap (λ t. out ++ t) (take-append-slice n m k p (sym w))

module _ {W S : Type 0} (conn : Connection W) (stream : Stream S) (pending : W → List ℕ)
    (sent : S → List ℕ) (serves : IsResponse conn pending) (sinks : IsSink stream sent) where
  -- So many of the pending bytes have gone to the stream.
  abbrev pub Carried : ℕ → Link W S → Link W S → Type 0
  Carried n s s1 =
      (pending s1.conn ≡ drop n (pending s.conn))
      × (sent s1.out ≡ sent s.out ++ take n (pending s.conn))

  put_all :
      (asked : ℕ) (bytes buff : List ℕ) (out : S)
      → put stream asked bytes buff out ≡ (true, length bytes, (stream.write out bytes).1)
  unfolding put
  put_all asked bytes buff out = ground (arith, sinks.write_all out bytes, sinks.no_error out bytes)

  block_moved :
      (k size len total : ℕ) (buff : List ℕ) (s : Link W S)
      → size ≡ total + len
      → 0 < size
      → size < 2 ^ 31
      → 0 < length buff
      → len ≤ length (pending s.conn)
      → len < k
      → (s1 : Link W S) × (block_rounds conn stream k size buff len total s
          ≡ some (written size, s1))
        × Carried len s s1
  unfolding block_rounds
  block_moved zero size len total buff s e z b f l h = absurd (omega arith)
  block_moved (suc k) size zero total buff s e z b f l h =
      (s, ground (arith, e, z, b), (refl, sym (append-nil (sent s.out))))
  block_moved (suc k) size (suc d) total buff s e z b f l h =
      let len = suc d in
      let a = conn.available s.conn in
      let n = wanted a.0 len (length buff) in
      let r = conn.read_bytes a.1 n in
      let filled = r.0 ++ drop (length r.0) buff in
      let p = put stream n r.0 filled s.out in
      let left = if positive len then len - n else len in
      let s2 : Link W S = record { conn = r.1; out = p.2 } in
      let some_left : pending s.conn ≢ [] = λ q. omega (arith, l, ap length q) in
      let pos_len : positive len ≡ true = ground (arith, e, b) in
      let a0 = serves.available_some s.conn some_left in
      let a1 = serves.available_most s.conn in
      let ak = serves.available_keeps s.conn in
      let left_is : left ≡ len - n = ap (λ (t : Bool). if t then len - n else len) pos_len in
      let n_is : n ≡ min (min a.0 len) (length buff) =
        ap (λ (t : Bool). min (if t then min a.0 len else a.0) (length buff)) pos_len in
      let n_most : n ≤ length (pending a.1) = omega (arith, n_is, a1, ap length ak) in
      let got : r.0 ≡ take n (pending s.conn) =
        serves.read_bytes_lem a.1 n n_most ∙ ap (take n) ak in
      let rest : pending r.1 ≡ drop n (pending s.conn) =
        serves.read_bytes_rest a.1 n n_most ∙ ap (drop n) ak in
      let size_got : length r.0 ≡ n =
        omega (arith, ap length got, length-take n (pending s.conn), n_most, ap length ak) in
      let all = put_all n r.0 filled s.out in
      let put_n : p.1 ≡ n = ap (λ q. q.1) all ∙ size_got in
      let filled_size : length filled ≡ length buff = omega (
        arith,
        length-append r.0 (drop (length r.0) buff),
        length-drop (length r.0) buff,
        size_got,
        n_is,
      ) in
      let left_in : left ≤ length (pending s2.conn) =
        omega (arith, left_is, ap length rest, length-drop n (pending s.conn), l) in
      let ih =
        block_moved k size left (total + p.1) filled s2 (omega (arith, e, left_is, put_n, n_is)) z b
          (omega (arith, filled_size, f)) left_in (omega (arith, left_is, n_is, a0, f, h)) in
      let n_some : (n == 0) ≡ false = ground (arith, n_is, a0, f) in
      let a_some : (a.0 == 0) ≡ false = ground (arith, a0) in
      let whole : n + left ≡ len = omega (arith, left_is, n_is) in
      let out2 : sent s2.out ≡ sent s.out ++ take n (pending s.conn) =
        ap (λ (q : Bool × ℕ × S). sent q.2) all
        ∙ sinks.sent_lem s.out r.0
        ∙ ap (λ t. sent s.out ++ t) got in
      (
        ih.0,
        ground (
          arith,
          serves.connected_lem s.conn some_left,
          pos_len,
          a_some,
          n_some,
          ap (λ q. q.0) all,
          ih.1,
        ),
        (
          dropped (pending s.conn) (pending s2.conn) (pending ih.0.conn) n left len rest ih.2.0
              whole,
          taken (pending s.conn) (pending s2.conn) (sent s.out) (sent s2.out) (sent ih.0.out) n left
              len rest out2 ih.2.1 whole,
        ),
      )

  -- The whole block, for a size that is an int above 0.
  pub data_block_moved :
      (k size : ℕ) (s : Link W S)
      → 0 < size
      → size < 2 ^ 31
      → size ≤ length (pending s.conn)
      → size < k
      → (s1 : Link W S) × (write_to_stream_data_block conn stream k size s
          ≡ some (written size, s1))
        × Carried size s s1
  unfolding write_to_stream_data_block
  data_block_moved k size s z b l h =
      let buff_size = if positive size && ltb size tcp_buffer_size then size else tcp_buffer_size in
      let big : 0 < buff_size = ground (arith, z) in
      let m = serves.malloc_lem s.conn buff_size in
      let r = block_moved k size size 0 m.0 s (omega arith) z b (omega (arith, m.2, big)) l h in
      (r.0, ground (arith, m.1, r.1), r.2)

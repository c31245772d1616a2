-- ===== src/WebServer/Routes/Braces.antt =====
-- What an address with braces matches.
use idf_custom_arduino.Base.{
  ℕ, zero, suc, ◌+◌, ◌-◌, ◌≤◌, ◌<◌, ◌≡◌, ◌≢◌, refl, sym, ap, ◌∙◌, arith, Bool, true, false, none,
  some, List, [], ◌∷◌, ◌++◌, inl, inr, append_assoc, append-nil, leb, lt→ltb, bytes_ne, length,
  length-drop, length-set, take, drop, get_or, get_or-drop, set, if◌then◌else◌, take_all,
  Option-cases, take-append_length, drop-append_length,
}
use idf_custom_arduino.WebServer.Arguments.{Strings}
use idf_custom_arduino.WebServer.Arguments.Fields.{plus, find, IsStrings}
use idf_custom_arduino.WebServer.Arguments.Parsed.{drop-drop}
use idf_custom_arduino.WebServer.Routes.{
  answered, PathArgs, store_path_arg, walk_uri, braces_can_handle,
}

-- An address, a request and the path arguments. An argument may not start with a brace, since that
-- would be taken for the brace of the address; the last has no slash, and another one not the
-- character behind its braces.
pub data Matches : List ℕ → List ℕ → PathArgs → Type 0 where
  matches_end : Matches [] [] []
  matches_char :
      (c : ℕ) (u r : List ℕ) (given : PathArgs) → Matches u r given → Matches (c ∷ u) (c ∷ r) given
  matches_last :
      (a : List ℕ) → get_or a 0 0 ≢ 123 → find 47 a ≡ none → Matches (123 ∷ 125 ∷ []) a (a ∷ [])
  matches_arg :
      (a : List ℕ) (c : ℕ) (u r : List ℕ) (given : PathArgs)
      → get_or (a ++ c ∷ r) 0 0 ≢ 123
      → find c a ≡ none
      → Matches u r given
      → Matches (123 ∷ 125 ∷ c ∷ u) (a ++ c ∷ r) (a ∷ given)

pub find-append : (c : ℕ) (a r : List ℕ) → find c a ≡ none → find c (a ++ c ∷ r) ≡ some (length a)
find-append c [] r h = ground arith
find-append c (x ∷ xs) r h = elim (Option-cases (find c xs)) [
  | inl e ↦ ground (arith, h, e, find-append c xs r e)
  | inr (j, e) ↦ absurd (ground (arith, h, e))
]

take-set :
    (p : ℕ) (args : PathArgs) (a : List ℕ)
    → p < length args
    → take (suc p) (set args p a) ≡ take p args ++ a ∷ []
take-set p [] a h = absurd (omega arith)
take-set zero (x ∷ xs) a h = refl
take-set (suc p) (x ∷ xs) a h = ap (λ t. x ∷ t) (take-set p xs a (omega arith))

drop_tail : (i x : ℕ) (s t : List ℕ) → drop i s ≡ x ∷ t → drop (i + 1) s ≡ t
drop_tail i x s t h = sym (drop-drop 1 i s) ∙ ap (drop 1) h

less : (a b : ℕ) → a + b - a ≡ b
less a b = omega arith

one_more : (n : ℕ) → n + 1 ≡ suc n
one_more n = omega arith

plus_zero : (n : ℕ) → n ≡ n + 0
plus_zero n = omega arith

here : (i x : ℕ) (s t : List ℕ) → drop i s ≡ x ∷ t → (get_or s i 0 ≡ x) × (i < length s)
here i x s t h = (
  ap (λ n. get_or s n 0) (plus_zero i) ∙ sym (get_or-drop i s 0 0) ∙ ap (λ l. get_or l 0 0) h,
  omega (arith, length-drop i s, ap length h),
)

module _ (str : Strings) (law : IsStrings str) (uri request : List ℕ) where
  -- The walk from a place on.
  abbrev Reads : ℕ → ℕ → ℕ → ℕ → PathArgs → PathArgs → Type 0
  Reads k i r p args given =
      walk_uri str k uri request i r p args ≡ some (answered true (take p args ++ given))

  walked :
      (k : ℕ) (u rest : List ℕ) (given : PathArgs)
      → Matches u rest given
      → (i r p : ℕ) (args : PathArgs) → drop i uri ≡ u
      → drop r request ≡ rest
      → i ≤ length uri
      → length args ≡ p + length given
      → length uri < k + i
      → Reads k i r p args given
  unfolding walk_uri
  walked zero u rest given m i r p args e f l n b = absurd (omega arith)
  walked (suc k) _ _ _ matches_end i r p args e f l n b =
      let x = length-drop i uri in
      let y = length-drop r request in
      let z : args ≡ take p args ++ [] =
        sym (append-nil (take p args) ∙ take_all p args (omega (arith, n))) in
      ground (arith, ap length e, ap length f, x, y, z)
  walked (suc k) _ _ _ (matches_char c u rest given m) i r p args e f l n b =
      let x = here i c uri u e in
      let y = here r c request rest f in
      let ih =
        walked k u rest given m (i + 1) (r + 1) p args (drop_tail i c uri u e)
          (drop_tail r c request rest f) (omega (arith, x.1)) n (omega arith) in
      ground (arith, x.0, x.1, y.0, ih)
  walked (suc k) _ _ _ (matches_last a v w) i r p args e f l n b =
      let x = here i 123 uri (125 ∷ []) e in
      let y : get_or request r 0 ≢ 123 = λ q. v (
        sym (ap (λ l. get_or l 0 0) f)
        ∙ get_or-drop r request 0 0
        ∙ ap (λ m. get_or request m 0) (sym (plus_zero r))
        ∙ q) in
      let short : leb (length uri) (i + 2) ≡ true =
        ground (arith, length-drop i uri, ap length e) in
      let sub : str.substring request r none ≡ a = law.substring_rest request r ∙ f in
      let idx : str.index_of (str.substring request r none) 47 0 ≡ none =
        ap (λ z. str.index_of z 47 0) sub ∙ law.index_of_lem a 47 0 ∙ ap (plus 0) w in
      let room : p < length args = omega (arith, n) in
      let stored : store_path_arg args p (str.substring request r none) ≡ some (set args p a) =
        ap (λ (b : Bool). if b then some (set args p (str.substring request r none)) else none)
          (lt→ltb p (length args) room)
        ∙ ap (λ z. some (set args p z)) sub in
      let z : set args p a ≡ take p args ++ a ∷ [] =
        sym (take_all (suc p) (set args p a) (omega (arith, n, length-set args p a)))
        ∙ take-set p args a room in
      ground (arith, x.0, x.1, y, short, idx, stored, z)
  walked (suc k) _ _ _ (matches_arg a c u rest given v w m) i r p args e f l n b =
      let x = here i 123 uri (125 ∷ c ∷ u) e in
      let y : get_or request r 0 ≢ 123 = λ q. v (
        sym (ap (λ l. get_or l 0 0) f)
        ∙ get_or-drop r request 0 0
        ∙ ap (λ m. get_or request m 0) (sym (plus_zero r))
        ∙ q) in
      let e2 : drop (i + 2) uri ≡ c ∷ u = sym (drop-drop 2 i uri) ∙ ap (drop 2) e in
      let stop = here (i + 2) c uri u e2 in
      let long : leb (length uri) (i + 2) ≡ false = ground (arith, stop.1) in
      let idx : str.index_of request (get_or uri (i + 2) 0) r ≡ some (r + length a) =
        ap (λ z. str.index_of request z r) stop.0
        ∙ law.index_of_lem request c r
        ∙ ap (plus r) (ap (find c) f ∙ find-append c a rest w) in
      let sub : str.substring request r (some (r + length a)) ≡ a =
        law.substring_lem request r (r + length a) (omega arith)
        ∙ ap (λ z. take z (drop r request)) (less r (length a))
        ∙ ap (take (length a)) f
        ∙ take-append_length a (c ∷ rest) in
      let room : p < length args = omega (arith, n) in
      let stored : store_path_arg args p (str.substring request r (some (r + length a)))
          ≡ some (set args p a) =
        ap
          (λ (b : Bool).
            if b then some (set args p (str.substring request r (some (r + length a)))) else none)
          (lt→ltb p (length args) room)
        ∙ ap (λ z. some (set args p z)) sub in
      let f2 : drop (r + length a) request ≡ c ∷ rest =
        sym (drop-drop (length a) r request)
        ∙ ap (drop (length a)) f
        ∙ drop-append_length a (c ∷ rest) in
      let ih =
        walked k u rest given m (i + 2 + 1) (r + length a + 1) (p + 1) (set args p a)
          (drop_tail (i + 2) c uri u e2) (drop_tail (r + length a) c request rest f2)
          (omega (arith, stop.1)) (omega (arith, n, length-set args p a)) (omega arith) in
      let z : take (p + 1) (set args p a) ++ given ≡ take p args ++ a ∷ given =
        ap (λ q. take q (set args p a) ++ given) (one_more p)
        ∙ ap (λ t. t ++ given) (take-set p args a room)
        ∙ append_assoc (take p args) (a ∷ []) given in
      ground (arith, x.0, x.1, y, long, idx, stored, ih, z)

module _ (str : Strings) (law : IsStrings str) where
  -- On functions of String that behave as documented, an address with braces handles a request,
  -- other than itself, that has text in the places of the braces, and stores just these texts as
  -- path arguments, if there is room for them; a text does not start with a brace, the last has no
  -- slash, and the others not the character that follows their braces.
  pub braces_matched :
      (uri request : List ℕ) (given args : PathArgs)
      → Matches uri request given
      → uri ≢ request
      → length args ≡ length given
      → braces_can_handle str uri request args ≡ some (answered true given)
  unfolding braces_can_handle
  braces_matched uri request given args m h n =
      ap
        (λ (b : Bool).
          if b
          then some (answered true args)
          else walk_uri str (length uri + 1) uri request 0 0 0 args)
        (bytes_ne uri request h)
      ∙ walked str law uri request (length uri + 1) uri request given m 0 0 0 args refl refl
          (omega arith) (omega (arith, n)) (omega arith)

-- ===== src/Preferences/Laws.antt =====
-- What is put is got, and what a closed or read-only object does.
use idf_custom_arduino.Base.{
  ℕ, suc, ◌≤◌, ◌<◌, ◌≡◌, ◌≢◌, ◌⊎◌, refl, sym, ◌∙◌, Bool, true, false, Option, none, some, List, [],
  ◌∷◌, ◌++◌, arith, length, copy_into,
}
use idf_custom_arduino.Base.Int.{ℤ, pos}
use idf_custom_arduino.Preferences.Store.{Store, View, IsStore, PreferenceType, pt_u8}
use idf_custom_arduino.Preferences.State.{
  Preferences, open_namespace, begin, clear, remove, commit_after, put_result,
}
use idf_custom_arduino.Preferences.Numbers.{
  put_number, get_number, put_uchar, get_uchar, put_bool, get_bool,
}
use idf_custom_arduino.Preferences.Blobs.{
  put_string, put_bytes, get_string, get_string_into, get_bytes_length, get_bytes,
}

-- A `begin` starts the object in the mode asked for, or leaves it as it was but for the mode.
pub begin_starts :
    {W : Type 0}
    → (n : Store W) (p p' : Preferences) (name : List ℕ) (read_only ok : Bool)
      (label : Option (List ℕ)) (w w' : W)
    → begin n p name read_only label w ≡ (ok, p', w')
    → ((ok ≡ true) × (p.started ≡ false) × (p'.started ≡ true) × (p'.read_only ≡ read_only))
      ⊎ ((ok ≡ false) × (p'.started ≡ p.started) × (p'.handle ≡ p.handle))
unfolding begin open_namespace
begin_starts n p p' name read_only ok none w w' e = ground arith
begin_starts n p p' name read_only ok (some label) w w' e = ground arith

-- The object accepts no change.
abbrev pub IsShut : Preferences → Type 0
IsShut p = (p.started ≡ false) ⊎ (p.read_only ≡ true)

pub shut_keeps :
    {W : Type 0}
    → (n : Store W) (p : Preferences) (t : PreferenceType) (size : ℕ) (key value : Option (List ℕ))
      (x : ℤ) (w : W)
    → IsShut p
    → (put_number n t size p key x w ≡ (0, w))
      × (put_string n p key value w ≡ (0, w))
      × (put_bytes n p key value w ≡ (0, w))
      × (remove n p key w ≡ (false, w))
      × (clear n p w ≡ (false, w))
unfolding put_number put_string put_bytes remove clear
shut_keeps n p t size none value x w s = ground arith
shut_keeps n p t size (some key) none x w s = ground arith
shut_keeps n p t size (some key) (some xs) x w s = ground arith

module _ {W : Type 0} {n : Store W} {v : View W} (law : IsStore n v) where
  -- What a `put` that reports a size has done: the call and the commit went well.
  put_done :
      (p : Preferences) (size : ℕ) (r : Bool × W)
      → 0 < (put_result n p size r).0
      → (r.0 ≡ true) × ((put_result n p size r).1 ≡ (n.commit_nvs p.handle r.1).1)
  unfolding put_result commit_after
  put_done p size (false, w) h = absurd (omega arith)
  put_done p size (true, w) h = (refl, refl)

  number_stored :
      (t : PreferenceType) (size : ℕ) (p : Preferences) (key : List ℕ) (x : ℤ) (w : W)
      → 0 < (put_number n t size p (some key) x w).0
      → (p.started ≡ true)
        × (v.numbers (put_number n t size p (some key) x w).1 t p.handle key ≡ some x)
  unfolding put_number
  number_stored t size p key x w h =
      let d = put_done p size (n.set_number t p.handle key x w) in
      let c = law.numbers_committed t p.handle key (n.set_number t p.handle key x w).1 in
      let s = law.number_set t p.handle key x w in ground (arith, d, c, s)

  pub number_back :
      (t : PreferenceType) (size : ℕ) (p : Preferences) (key : List ℕ) (x default_value : ℤ) (w : W)
      → 0 < (put_number n t size p (some key) x w).0
      → get_number n t p (some key) default_value (put_number n t size p (some key) x w).1 ≡ x
  unfolding get_number
  number_back t size p key x default_value w h =
      let w' = (put_number n t size p (some key) x w).1 in
      let s = number_stored t size p key x w h in
      ground (arith, s, law.number_got t p.handle key w')

  pub put_size :
      (t : PreferenceType) (size : ℕ) (p : Preferences) (key : List ℕ) (x : ℤ) (w : W)
      → 0 < (put_number n t size p (some key) x w).0
      → (put_number n t size p (some key) x w).0 ≡ size
  unfolding put_number put_result commit_after
  put_size t size p key x w h = ground arith

  pub other_kept :
      (t u : PreferenceType) (size : ℕ) (p : Preferences) (key other : List ℕ) (x d : ℤ) (w : W)
      → key ≢ other
      → 0 < (put_number n t size p (some key) x w).0
      → get_number n u p (some other) d (put_number n t size p (some key) x w).1
        ≡ get_number n u p (some other) d w
  unfolding get_number put_number
  other_kept t u size p key other x d w ne h =
      let w1 = (n.set_number t p.handle key x w).1 in
      let done = put_done p size (n.set_number t p.handle key x w) in
      let same : v.numbers (n.commit_nvs p.handle w1).1 u p.handle other
          ≡ v.numbers w u p.handle other =
        law.numbers_committed u p.handle other w1 ∙ law.number_kept t p.handle key other x w u ne in
      let read =
        law.number_got u p.handle other (n.commit_nvs p.handle w1).1
        ∙ same
        ∙ sym (law.number_got u p.handle other w) in
      ground (arith, done, read)

  -- A Boolean that has been written is read back.
  pub get_bool-put_bool :
      (p : Preferences) (key : List ℕ) (b default_value : Bool) (w : W)
      → 0 < (put_bool n p (some key) b w).0
      → get_bool n p (some key) default_value (put_bool n p (some key) b w).1 ≡ b
  unfolding get_bool put_bool get_uchar put_uchar
  get_bool-put_bool p key true default_value w h = rw (number_back pt_u8 1 p key (pos 1) _ w h) refl
  get_bool-put_bool p key false default_value w h =
      rw (number_back pt_u8 1 p key (pos 0) _ w h) refl

  text_stored :
      (p : Preferences) (key xs : List ℕ) (w : W)
      → 0 < (put_string n p (some key) (some xs) w).0
      → (p.started ≡ true)
        × (v.texts (put_string n p (some key) (some xs) w).1 p.handle key ≡ some xs)
  unfolding put_string
  text_stored p key xs w h =
      let d = put_done p (length xs) (n.set_str p.handle key xs w) in
      let c = law.texts_committed p.handle key (n.set_str p.handle key xs w).1 in
      let s = law.text_set p.handle key xs w in ground (arith, d, c, s)

  pub get_string-put_string :
      (p : Preferences) (key xs default_value buf : List ℕ) (w : W)
      → 0 < (put_string n p (some key) (some xs) w).0
      → length xs < length buf
      → let w' = (put_string n p (some key) (some xs) w).1 in
        (get_string n p (some key) default_value w' ≡ xs)
        × (get_string_into n p (some key) (some buf) w'
            ≡ (suc (length xs), some (copy_into buf 0 (xs ++ 0 ∷ []))))
  unfolding get_string get_string_into
  get_string-put_string p key xs default_value buf w h fits =
      let w' = (put_string n p (some key) (some xs) w).1 in
      let s = text_stored p key xs w h in
      let sized = law.text_sized p.handle key xs w' s.1 in
      let got = law.text_got p.handle (suc (length xs)) key xs w' s.1 (omega arith) in
      ground (arith, s, sized, got)

  blob_stored :
      (p : Preferences) (key xs : List ℕ) (w : W)
      → 0 < (put_bytes n p (some key) (some xs) w).0
      → (p.started ≡ true)
        × (0 < length xs)
        × (v.blobs (put_bytes n p (some key) (some xs) w).1 p.handle key ≡ some xs)
  unfolding put_bytes
  blob_stored p key xs w h =
      let d = put_done p (length xs) (n.set_blob p.handle key xs w) in
      let c = law.blobs_committed p.handle key (n.set_blob p.handle key xs w).1 in
      let s = law.blob_set p.handle key xs w in ground (arith, d, c, s)

  -- On a store that behaves as documented, after a putBytes that reports success, getBytes into a
  -- buffer copies the block to its start and returns its size if it fits, and returns 0 and leaves
  -- the buffer if it does not.
  pub get_bytes-put_bytes :
      (p : Preferences) (key xs buf : List ℕ) (w : W)
      → 0 < (put_bytes n p (some key) (some xs) w).0
      → 0 < length buf
      → let w' = (put_bytes n p (some key) (some xs) w).1 in
        ((length xs ≤ length buf)
          × (get_bytes n p (some key) (some buf) w' ≡ (length xs, some (copy_into buf 0 xs))))
        ⊎ ((length buf < length xs) × (get_bytes n p (some key) (some buf) w' ≡ (0, some buf)))
  unfolding get_bytes get_bytes_length
  get_bytes-put_bytes p key xs buf w h room =
      let w' = (put_bytes n p (some key) (some xs) w).1 in
      let s = blob_stored p key xs w h in
      let sized = law.blob_sized p.handle key xs w' s.2 in
      let got = law.blob_got p.handle (length xs) key xs w' s.2 (omega arith) in
      ground (arith, s, sized, got)

-- ===== src/Eeprom/Strings.antt =====
-- Strings in the array: what is written is read back, and where the bounds are off by one.
use idf_custom_arduino.Base.{
  ℕ, zero, suc, ◌+◌, ◌%◌, ◌^◌, get_elem?, ◌≤◌, ◌<◌, ◌≡◌, refl, ap, ◌∙◌, true, some, List, [], ◌∷◌,
  ◌++◌, arith, length, length-append, take, take_all, take-append_length, drop, slice, copy_into,
  drop-copy_into, copy_into_start, append_assoc, length-drop,
}
use idf_custom_arduino.Base.Int.{pos}
use idf_custom_arduino.Eeprom.State.{Eeprom}
use idf_custom_arduino.Eeprom.Values.{block}
use idf_custom_arduino.Eeprom.Text.{
  returns, outside, endless, scan, enough, read_string, write_string,
}
use idf_custom_arduino.Eeprom.Laws.{IsLoaded}

-- The characters of a C string.
abbrev pub IsText : List ℕ → Type 0
IsText [] = Unit
IsText (x ∷ xs) = (0 < x) × IsText xs

-- What stands at a place is the first element of the rest.
get_drop :
    (n : ℕ) (p : List ℕ) (x : ℕ) (r : List ℕ)
    → drop n p ≡ x ∷ r
    → (get_elem? p n ≡ some x) × (drop (n + 1) p ≡ r)
get_drop zero [] x r h = absurd (ground (arith, h))
get_drop zero (y ∷ p) x r h = ground (arith, h)
get_drop (suc n) [] x r h = absurd (ground (arith, h))
get_drop (suc n) (y ∷ p) x r h =
    let g = get_drop n p x r h in
    let one : suc n + 1 ≡ suc (n + 1) = omega arith in (g.0, ap (λ k. drop k (y ∷ p)) one ∙ g.1)

-- The scan stops at the first zero byte, if `len` reaches it.
scan_stops :
    (fuel limit : ℕ) (p : List ℕ) (len : ℕ) (xs rest : List ℕ)
    → IsText xs
    → drop len p ≡ xs ++ 0 ∷ rest
    → length xs < fuel
    → len + length xs ≤ limit
    → len + length xs < 2 ^ 16
    → scan fuel limit p len ≡ returns (len + length xs)
unfolding scan
scan_stops zero limit p len xs rest t d f h w = absurd (omega arith)
scan_stops (suc fuel) limit p len [] rest t d f h w = ground (arith, (get_drop len p 0 rest d).0)
scan_stops (suc fuel) limit p len (x ∷ xs) rest t d f h w =
    let g = get_drop len p x (xs ++ 0 ∷ rest) d in
    let more =
      scan_stops fuel limit p (len + 1) xs rest t.1 g.1 (omega arith) (omega arith) (omega arith) in
    ground (arith, g.0, more)

abbrev with_end : List ℕ → List ℕ
with_end xs = xs ++ 0 ∷ []

length-with_end : (xs : List ℕ) → length (with_end xs) ≡ suc (length xs)
length-with_end xs = omega (arith, length-append xs (0 ∷ []))

abbrev pub with_text : Eeprom → ℕ → List ℕ → Eeprom
with_text e a xs = record e {
  data_block = some (copy_into (block e) a (xs ++ 0 ∷ []));
  dirty = true;
}

take_terminated : (xs : List ℕ) → take (suc (length xs)) (with_end xs) ≡ with_end xs
take_terminated xs = take_all (suc (length xs)) (with_end xs) (omega (arith, length-with_end xs))

scan_text :
    (limit : ℕ) (xs rest : List ℕ)
    → IsText xs
    → length xs ≤ limit
    → length xs < 2 ^ 16
    → scan enough limit (xs ++ 0 ∷ rest) 0 ≡ returns (length xs)
scan_text limit xs rest t h w =
    scan_stops enough limit (xs ++ 0 ∷ rest) 0 xs rest t refl (omega arith) (omega arith)
      (omega arith)
    ∙ ap returns (omega arith)

-- `writeString` within the bounds that it checks.
write_string_fits :
    (e : Eeprom) (a : ℕ) (xs : List ℕ)
    → IsLoaded e
    → IsText xs
    → a + length xs < e.size
    → length xs < 2 ^ 16
    → write_string e (pos a) (some xs) ≡ returns (length xs, with_text e a xs)
unfolding write_string
write_string_fits e a xs l t h w =
    rw (scan_text e.size xs [] t (omega arith) w, write_string, take_terminated xs)
      (ground (arith, length-with_end xs, l.whole))

-- What stands in the array from the string on.
text_behind :
    (e : Eeprom) (a : ℕ) (xs : List ℕ)
    → IsLoaded e
    → a + length xs < e.size
    → drop a (copy_into (block e) a (with_end xs))
      ≡ xs ++ 0 ∷ drop (suc (length xs)) (drop a (block e))
text_behind e a xs l h =
    drop-copy_into (block e) a (with_end xs)
    ∙ copy_into_start (drop a (block e)) (with_end xs)
        (omega (arith, length-with_end xs, length-drop a (block e), l.whole))
    ∙ append_assoc xs (0 ∷ []) (drop (length (with_end xs)) (drop a (block e)))
    ∙ ap (λ k. xs ++ 0 ∷ drop k (drop a (block e))) (length-with_end xs)

text_read :
    (e : Eeprom) (a : ℕ) (xs : List ℕ)
    → IsLoaded e
    → IsText xs
    → a + length xs < e.size
    → length xs < 2 ^ 16
    → read_string (with_text e a xs) (pos a) ≡ returns xs
unfolding read_string
text_read e a xs l t h w =
    rw
      (
        ap (λ d. scan enough e.size d 0) (text_behind e a xs l h)
            ∙ scan_text e.size xs _ t (omega arith) w,
        read_string,
      )
      (ground (arith, cut))
  where
    cut : slice a (length xs) (copy_into (block e) a (with_end xs)) ≡ xs
    cut = ap (take (length xs)) (text_behind e a xs l h) ∙ take-append_length xs _

-- A string of less than 65536 bytes, none of them zero, that fits the loaded block together with
-- its end mark is stored and read back, and the write returns its length.
pub read_string-write_string :
    (e : Eeprom) (a : ℕ) (xs : List ℕ)
    → IsLoaded e
    → IsText xs
    → a + length xs < e.size
    → length xs < 2 ^ 16
    → (e' : Eeprom) × (write_string e (pos a) (some xs) ≡ returns (length xs, e'))
      × (read_string e' (pos a) ≡ returns xs)
read_string-write_string e a xs l t h w =
    (with_text e a xs, write_string_fits e a xs l t h w, read_back)
  where
    read_back : read_string (with_text e a xs) (pos a) ≡ returns xs
    read_back = text_read e a xs l t h w

-- A string of less than 65536 bytes, none of them zero, that ends exactly where a loaded block
-- ends makes the write of its end mark leave the block.
pub write_string_overflows :
    (e : Eeprom) (a : ℕ) (xs : List ℕ)
    → IsLoaded e
    → IsText xs
    → a + length xs ≡ e.size
    → length xs < 2 ^ 16
    → write_string e (pos a) (some xs) ≡ outside
unfolding write_string
write_string_overflows e a xs l t h w =
    rw (scan_text e.size xs [] t (omega arith) w, write_string, take_terminated xs)
      (ground (arith, length-with_end xs, l.whole))

-- A character is not zero.
text_at :
    (p rest : List ℕ) (n : ℕ)
    → IsText p
    → n < length p
    → (x : ℕ) × (get_elem? (p ++ rest) n ≡ some x) × (0 < x)
text_at [] rest n t h = absurd (omega arith)
text_at (x ∷ p) rest zero t h = (x, refl, t.0)
text_at (x ∷ p) rest (suc n) t h = text_at p rest n t.1 (omega arith)

-- With as many characters as `len` has values it wraps around, and no amount of fuel is enough.
scan_goes_on :
    (fuel limit : ℕ) (p rest : List ℕ) (len : ℕ)
    → IsText p
    → 2 ^ 16 ≤ length p
    → 2 ^ 16 ≤ limit + 1
    → len < 2 ^ 16
    → scan fuel limit (p ++ rest) len ≡ endless
unfolding scan
scan_goes_on zero limit p rest len t h k w = refl
scan_goes_on (suc fuel) limit p rest len t h k w =
    let c = text_at p rest len t (omega arith) in
    let more = scan_goes_on fuel limit p rest ((len + 1) % 2 ^ 16) t h k (omega arith) in
    ground (arith, c.1, more)

-- On a block of at least 65535 bytes, writeString of a string of 65536 or more bytes, none of them
-- zero, does not end: no number of rounds is enough for its loop.
pub write_string_endless :
    (e : Eeprom) (a : ℕ) (xs : List ℕ) (fuel : ℕ)
    → a ≤ e.size
    → 2 ^ 16 ≤ e.size + 1
    → IsText xs
    → 2 ^ 16 ≤ length xs
    → (scan fuel e.size (xs ++ 0 ∷ []) 0 ≡ endless) × (write_string e (pos a) (some xs) ≡ endless)
unfolding write_string
write_string_endless e a xs fuel h k t w =
    let goes_on = λ (f : ℕ). scan_goes_on f e.size xs (0 ∷ []) 0 t w k (omega arith) in
    (goes_on fuel, rw (goes_on enough, write_string) (ground (arith, h)))

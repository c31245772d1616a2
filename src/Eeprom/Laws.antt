-- ===== src/Eeprom/Laws.antt =====
-- Values written to the array are read back, and keep to their bytes.
use native.Mathlib.Nat.{pow-suc}
use idf_custom_arduino.Base.{
  ℕ, zero, suc, ◌+◌, ◌/◌, ◌^◌, ◌≤◌, ◌<◌, ◌≡◌, ◌⊎◌, refl, sym, ap, subst, ◌∙◌, true, some, List,
  arith, length, slice, copy_into, slice-copy_into, slice-copy_into_apart,
}
use idf_custom_arduino.Base.Int.{pos, negsuc}
use idf_custom_arduino.Eeprom.State.{Eeprom}
use idf_custom_arduino.Eeprom.Values.{to_bytes, of_bytes, block, read_all, write_all}

length-to_bytes : (k v : ℕ) → length (to_bytes k v) ≡ k
length-to_bytes zero v = refl
length-to_bytes (suc k) v = ap suc (length-to_bytes k (v / 256))

of_bytes-to_bytes : (k v : ℕ) → v < 256 ^ k → of_bytes (to_bytes k v) ≡ v
of_bytes-to_bytes zero v h = omega arith
of_bytes-to_bytes (suc k) v h =
    omega (arith, of_bytes-to_bytes k (v / 256) (omega (arith, h, pow-suc)))

-- The block has as many bytes as the array.
pub record IsLoaded (e : Eeprom) : Type 0 where
  pub whole : length (block e) ≡ e.size
  pub small : e.size < 2 ^ 31

-- The array after `src` was copied to address `a`.
abbrev stored : Eeprom → ℕ → List ℕ → Eeprom
stored e a src = record e { data_block = some (copy_into (block e) a src); dirty = true }

write_all_inside :
    (e : Eeprom) (k a v : ℕ)
    → IsLoaded e
    → a + k ≤ e.size
    → write_all e k (pos a) v ≡ (k, stored e a (to_bytes k v))
unfolding write_all
write_all_inside e k a v l h = ground arith

read_all_inside :
    (e : Eeprom) (k a x : ℕ)
    → e.size < 2 ^ 31
    → a + k ≤ e.size
    → read_all e k (pos a) x ≡ of_bytes (slice a k (block e))
unfolding read_all
read_all_inside e k a x l h = ground arith

-- A value of k bytes that is written inside a loaded block is read back, and the write returns k.
pub read_all-write_all :
    (e : Eeprom) (k a v x : ℕ)
    → IsLoaded e
    → a + k ≤ e.size
    → v < 256 ^ k
    → ((write_all e k (pos a) v).0 ≡ k) × (read_all (write_all e k (pos a) v).1 k (pos a) x ≡ v)
read_all-write_all e k a v x l h fits = rw (write_all_inside e k a v l h) (
  refl,
  read_all_inside (stored e a (to_bytes k v)) k a x l.small h
      ∙ ap of_bytes back
      ∙ of_bytes-to_bytes k v fits,
)
  where
    back : slice a k (copy_into (block e) a (to_bytes k v)) ≡ to_bytes k v
    back =
        subst (λ n. slice a n (copy_into (block e) a (to_bytes k v)) ≡ to_bytes k v)
          (length-to_bytes k v)
          (slice-copy_into (block e) a (to_bytes k v) (omega (arith, length-to_bytes k v, l.whole)))

pub read_all_apart :
    (e : Eeprom) (k a v m b x : ℕ)
    → IsLoaded e
    → a + k ≤ e.size
    → b + m ≤ e.size
    → (b + m ≤ a) ⊎ (a + k ≤ b)
    → read_all (write_all e k (pos a) v).1 m (pos b) x ≡ read_all e m (pos b) x
read_all_apart e k a v m b x l ha hb apart = rw (write_all_inside e k a v l ha) (
    read_all_inside (stored e a (to_bytes k v)) m b x l.small hb
    ∙ ap of_bytes
        (slice-copy_into_apart (block e) a (to_bytes k v) b m (omega (arith, length-to_bytes k v)))
    ∙ sym (read_all_inside e m b x l.small hb))

pub write_all_outside :
    (e : Eeprom) (k a v : ℕ)
    → e.size < 2 ^ 31
    → k < 2 ^ 31
    → a < 2 ^ 31
    → e.size < a + k
    → (write_all e k (pos a) v ≡ (v, e)) × (write_all e k (negsuc a) v ≡ (v, e))
unfolding write_all
write_all_outside e k a v small hk ha out = (ground arith, refl)

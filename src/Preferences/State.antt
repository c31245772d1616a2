-- ===== src/Preferences/State.antt =====
-- libraries/Preferences/src/Preferences.cpp: the object, its life, `clear`, `remove` and what every
-- `put` does with the result of its set call. A key is `none` where the code has a null pointer.
use idf_custom_arduino.Base.{
  ℕ, Bool, true, false, not, ◌||◌, Option, none, some, List, if◌then◌else◌,
}
use idf_custom_arduino.Preferences.Store.{Store}

pub record Preferences : Type 0 where
  pub handle : ℕ
  pub started : Bool
  pub read_only : Bool

unfoldable pub init : Preferences
init = record { handle = 0; started = false; read_only = false }

module _ {W : Type 0} (n : Store W) where
  unfoldable pub open_namespace :
      Preferences → List ℕ → Option (List ℕ) → W → Bool × Preferences × W
  open_namespace p name label w =
      let r = n.open_nvs label name p.read_only w in
      elim r.0 [
        | none ↦ (false, p, r.1)
        | some h ↦ (true, record p { handle = h; started = true }, r.1)
      ]

  unfoldable pub begin : Preferences → List ℕ → Bool → Option (List ℕ) → W → Bool × Preferences × W
  unfolding open_namespace
  begin p name read_only none w =
      if p.started
      then (false, p, w)
      else open_namespace (record p { read_only = read_only }) name none w
  begin p name read_only (some label) w =
      let q = record p { read_only = read_only } in
      let r = n.init_partition label w in
      if p.started
      then (false, p, w)
      else (if r.0 then open_namespace q name (some label) r.1 else (false, q, r.1))

  unfoldable pub end : Preferences → W → Preferences × W
  end p w = if p.started then (record p { started = false }, n.close_nvs p.handle w) else (p, w)

  -- A call of the library, and a commit if it succeeds: whether both did.
  unfoldable pub commit_after : Preferences → Bool × W → Bool × W
  commit_after p (false, w) = (false, w)
  commit_after p (true, w) = n.commit_nvs p.handle w

  unfoldable pub clear : Preferences → W → Bool × W
  clear p w =
      if not p.started || p.read_only then (false, w) else commit_after p (n.erase_all p.handle w)

  unfoldable pub remove : Preferences → Option (List ℕ) → W → Bool × W
  remove p none w = (false, w)
  remove p (some key) w =
      if not p.started || p.read_only
      then (false, w)
      else commit_after p (n.erase_key p.handle key w)

  -- The end of every `put`: `size` is returned if the call and the commit succeed.
  unfoldable pub put_result : Preferences → ℕ → Bool × W → ℕ × W
  unfolding commit_after
  put_result p size r = let c = commit_after p r in (if c.0 then size else 0, c.1)

  unfoldable pub free_entries : W → ℕ
  free_entries w = elim (n.free_entries w) [ none ↦ 0 | some k ↦ k ]

-- ===== src/Update/Image/Flush.antt =====
-- The flash after one `flush`, byte by byte.
use idf_custom_arduino.Base.{
  ℕ, ◌+◌, ◌≤◌, ◌<◌, ◌≡◌, ◌∙◌, inl, true, Option, List, arith, length, get_or,
}
use idf_custom_arduino.Update.Device.{Partition, Device, IsFlash}

-- Erase a sector at `pos` and write `xs` behind its first `skip` bytes.
module _ {W M : Type 0} {d : Device W M} {byte : W → Option Partition → ℕ → ℕ} (fl : IsFlash d byte)
    (p : Option Partition) (pos skip : ℕ) (xs : List ℕ) (w : W) where
  abbrev pub erased_state : W
  erased_state = (d.erase_range p pos 4096 w).1

  abbrev pub written_state : W
  written_state = (d.partition_write p (pos + skip) xs erased_state).1

  pub below_sector : (i : ℕ) → i < pos → byte written_state p i ≡ byte w p i
  below_sector i h =
      fl.write_keeps p (pos + skip) xs erased_state i (inl (omega arith))
      ∙ fl.erase_keeps p pos 4096 w i (inl h)

  pub held_back :
      (i : ℕ)
      → (d.erase_range p pos 4096 w).0 ≡ true
      → skip ≤ 4096
      → pos ≤ i
      → i < pos + skip
      → byte written_state p i ≡ 255
  held_back i ok le lo hi =
      fl.write_keeps p (pos + skip) xs erased_state i (inl hi)
      ∙ fl.erase_sets p pos 4096 w i ok lo (omega arith)

  pub in_sector :
      (i : ℕ)
      → (d.erase_range p pos 4096 w).0 ≡ true
      → (d.partition_write p (pos + skip) xs erased_state).0 ≡ true
      → skip + length xs ≤ 4096
      → i < length xs
      → byte written_state p (pos + skip + i) ≡ get_or xs i 0
  in_sector i ok done fits h =
      fl.write_sets p (pos + skip) xs erased_state i done h
        (fl.erase_sets p pos 4096 w (pos + skip + i) ok (omega arith) (omega arith))

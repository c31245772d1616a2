-- ===== src/Update/Tests.antt =====
-- The updater over a flash that works, on a small image; instances of the theorems.
use idf_custom_arduino.Base.{
  ℕ, ◌+◌, ◌-◌, ◌<◌, ◌≡◌, ◌≢◌, ◌⊎◌, refl, ap, sym, ◌∙◌, true, false, Option, none, some, List, [],
  ◌∷◌, ◌++◌, arith, length, get_or, replicate, length-replicate, append-nil, append_assoc, take,
  ◌&&◌, if◌then◌else◌, leb, ltb,
}
use idf_custom_arduino.Update.Device.{Partition, Device, IsFlash, IsStreaming}
use idf_custom_arduino.Update.State.{Updater, bytes, init, u_flash, set_md5}
use idf_custom_arduino.Update.Begin.{begin}
use idf_custom_arduino.Update.Buffer.{write_buffer, flush}
use idf_custom_arduino.Update.Write.{write}
use idf_custom_arduino.Update.Finish.{
  end, partition_is_bootable, enable_partition, check_md5, verify_end,
}
use idf_custom_arduino.Update.Image.Install.{
  Session, begun, wrote, expecting, end_installs, partial_not_bootable,
}
use idf_custom_arduino.Update.Safety.{write_total, write_overruns, end_after_failed_flush}

abbrev ota : Partition
ota = record { address = 0x10000; size = 8192 }

abbrev store : (ℕ → ℕ) → ℕ → List ℕ → ℕ → ℕ
store w off xs i = if leb off i && ltb i (off + length xs) then get_or xs (i - off) 0 else w i

abbrev erase : (ℕ → ℕ) → ℕ → ℕ → ℕ → ℕ
erase w off len i = if leb off i && ltb i (off + len) then 255 else w i

abbrev read_bytes : (ℕ → ℕ) → ℕ → ℕ → List ℕ
read_bytes w off ℕ.zero = []
read_bytes w off (ℕ.suc n) = w off ∷ read_bytes w (off + 1) n

-- A flash of one partition; an MD5 builder that keeps its message.
abbrev chip : Device (ℕ → ℕ) (List ℕ)
chip = record {
  malloc = λ n w. (some (replicate n 0), w);
  next_update_partition = λ w. some ota;
  find_first = λ k label w. none;
  erase_range = λ p off len w. (true, erase w off len);
  partition_write = λ p off xs w. (true, store w off xs);
  partition_read = λ p off len w. some (read_bytes w off len);
  set_boot_partition = λ p w. (true, w);
  md5_begin = [];
  md5_add = λ m xs. m ++ xs;
  md5_string = λ m. take 32 (m ++ replicate 32 0);
}

abbrev chip_byte : (ℕ → ℕ) → Option Partition → ℕ → ℕ
chip_byte w p i = w i

get_or-read_bytes :
    (w : ℕ → ℕ) (off len i : ℕ) → i < len → get_or (read_bytes w off len) i 0 ≡ w (off + i)
get_or-read_bytes w off ℕ.zero i h = absurd (omega arith)
get_or-read_bytes w off (ℕ.suc len) ℕ.zero h = ap w (omega arith)
get_or-read_bytes w off (ℕ.suc len) (ℕ.suc i) h =
    get_or-read_bytes w (off + 1) len i (omega arith) ∙ ap w (omega arith)

write_gets :
    (w : ℕ → ℕ) (off : ℕ) (xs : List ℕ) (i : ℕ)
    → i < length xs
    → store w off xs (off + i) ≡ get_or xs i 0
write_gets w off xs i h = let e : off + i - off ≡ i = omega arith in rw e (ground arith)

chip-IsFlash : IsFlash chip chip_byte
chip-IsFlash = record {
  malloc_keeps = λ n w p i. refl;
  malloc_length = λ n w b e. sym (ap (λ o. length (bytes o)) e) ∙ length-replicate n 0;
  erase_sets = λ p off len w i e lo hi. ground arith;
  erase_keeps = λ p off len w i h. ground arith;
  write_sets = λ p off xs w i e h old. write_gets w off xs i h;
  write_keeps = λ p off xs w i h. ground arith;
  read_gets = λ p off len w i xs e h.
      sym (ap (λ o. get_or (bytes o) i 0) e) ∙ get_or-read_bytes w off len i h;
  boot_keeps = λ q p w i. refl;
}

chip-IsStreaming : IsStreaming chip
chip-IsStreaming = record { add_nothing = append-nil; add_more = append_assoc }

abbrev blank : ℕ → ℕ
blank i = 0

abbrev firmware : List ℕ
firmware = 0xe9 ∷ replicate 19 7

abbrev fresh : Updater (List ℕ)
unfolding init
fresh = init []

abbrev begun_updater : Updater (List ℕ)
unfolding init begin
begun_updater = (begin chip (init []) 20 u_flash 0 0 none blank).1

started : begin chip (init []) 20 u_flash 0 0 none blank ≡ (true, begun_updater, blank)
unfolding init begin
started = refl

-- The sum that the builder makes of the firmware.
abbrev digest : List ℕ
digest = take 32 (firmware ++ replicate 32 0)

abbrev waiting : Updater (List ℕ)
waiting = record begun_updater { target_md5 = digest }

asked_for : set_md5 begun_updater digest ≡ (true, waiting)
unfolding set_md5
asked_for = refl

-- The object and the flash after a `write`.
abbrev after : Option (ℕ × Updater (List ℕ) × (ℕ → ℕ)) → Updater (List ℕ) × (ℕ → ℕ)
after none = (begun_updater, blank)
after (some (n, u, w)) = (u, w)

written : Updater (List ℕ) × (ℕ → ℕ)
unfolding begun_updater write write_buffer flush
written = after (write chip waiting firmware blank)

written_all : write chip waiting firmware blank ≡ some (20, written.0, written.1)
unfolding written
written_all = refl

begun_session : Session chip [] begun_updater blank
unfolding begun_updater
begun_session =
    begun (init []) begun_updater 20 0 0 none blank blank [] started (omega arith) (omega arith)
      refl

uploaded : Session chip firmware written.0 written.1
unfolding begun_updater
uploaded =
    wrote waiting written.0 blank written.1 [] firmware firmware
      (expecting begun_updater waiting blank [] digest begun_session asked_for) (omega arith)
      (omega arith) written_all refl

ended : (ℕ → ℕ)
unfolding written end
ended = (end chip written.0 false written.1).2

ends_well :
    end chip written.0 false written.1 ≡ (true, (end chip written.0 false written.1).1, ended)
unfolding ended enable_partition partition_is_bootable check_md5 verify_end
ends_well = refl

end_installs_example :
    (length firmware ≡ 20)
    × ((digest ≡ []) ⊎ (digest ≡ digest))
    × ((i : ℕ) → i < 20 → ended i ≡ get_or firmware i 0)
unfolding written uploaded
end_installs_example =
    end_installs chip-IsFlash chip-IsStreaming (end chip written.0 false written.1).1 ended uploaded
      ends_well

flushed : 0 < written.0.progress
unfolding written begun_updater
flushed = omega arith

partial_not_bootable_example : partition_is_bootable chip written.0.partition written.1 ≡ false
partial_not_bootable_example = partial_not_bootable chip-IsFlash chip-IsStreaming uploaded flushed

write_total_example : write chip begun_updater firmware blank ≢ none
unfolding begun_updater
write_total_example = write_total chip begun_updater firmware blank (omega arith) (omega arith)

abbrev bad_image : Updater (List ℕ)
bad_image = record begun_updater { buffer = some (replicate 4096 1); buffer_len = 20 }

-- Twelve of twenty bytes are buffered, and twelve more are accepted.
abbrev half_full : Updater (List ℕ)
half_full = record begun_updater { buffer_len = 12 }

write_overruns_example :
    (v : Updater (List ℕ)) × (write chip half_full (replicate 12 1) blank ≡ some (12, v, blank))
    × (v.size < v.progress + v.buffer_len)
unfolding begun_updater
write_overruns_example =
    write_overruns chip half_full (replicate 12 1) blank refl (omega arith) (omega arith)
      (omega arith) (omega arith) (omega arith)

-- One sector is on a flash that can no longer be erased.
abbrev worn : Device (ℕ → ℕ) (List ℕ)
worn = record chip { erase_range = λ p off len w. (false, w) }

abbrev last_sector : Updater (List ℕ)
last_sector = record (init []) {
  buffer = some (replicate 4096 5);
  skip_buffer = some (0xe9 ∷ replicate 15 7);
  buffer_len = 100;
  size = 4196;
  progress = 4096;
  partition = some ota;
}

end_after_failed_flush_example :
    ((end worn last_sector true blank).0 ≡ true)
    × ((end worn last_sector true blank).2 ≡ store blank 0 (0xe9 ∷ replicate 15 7))
unfolding init partition_is_bootable
end_after_failed_flush_example =
    end_after_failed_flush worn last_sector blank ota refl (omega arith) (omega arith) (omega arith)
      refl refl refl refl refl refl

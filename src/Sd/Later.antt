-- ===== src/Sd/Later.antt =====
-- The states that the bus gets into during the transfers.
use idf_custom_arduino.Base.{
  ℕ, zero, suc, ◌&&◌, ◌||◌, ◌==◌, leb, ltb, Bool, true, false, none, some, List, if◌then◌else◌,
}
use idf_custom_arduino.Sd.Bus.{
  Spi, Card, Link, transfer, poll, sd_wait, sd_deselect_card, sd_select_card,
}
use idf_custom_arduino.Sd.Command.{
  Reply, Prepared, ready, refused, is_app, packet, crc_error, send_packet, recover, respond,
  attempts, settle, prepare, sd_command,
}

-- A state that operations of the bus lead to.
pub data Later {W : Type 0} (spi : Spi W) (start : W) : W → Type 0 where
  later_start : Later spi start start
  later_transfer : (w : W) (b : ℕ) → Later spi start w → Later spi start (spi.transfer w b).1
  later_transfer16 : (w : W) (b : ℕ) → Later spi start w → Later spi start (spi.transfer16 w b).1
  later_transfer32 : (w : W) (b : ℕ) → Later spi start w → Later spi start (spi.transfer32 w b).1
  later_transfer_bytes :
      (w : W) (n : ℕ) → Later spi start w → Later spi start (spi.transfer_bytes w n).1
  later_write_bytes :
      (w : W) (bs : List ℕ) → Later spi start w → Later spi start (spi.write_bytes w bs)
  later_set_pin : (w : W) (b : Bool) → Later spi start w → Later spi start (spi.set_pin w b)
  later_delay : (w : W) (n : ℕ) → Later spi start w → Later spi start (spi.delay w n)

pub if_either :
    {A : Type 0} (P : A → Type 0) (b : Bool) (x y : A) → P x → P y → P (if b then x else y)
if_either P true x y p q = p
if_either P false x y p q = q

module _ {W : Type 0} (spi : Spi W) (start : W) where
  pub poll-Later :
      (again : ℕ → Bool) (n : ℕ) (s : Link W)
      → Later spi start s.bus
      → Later spi start (poll spi again n s).1.bus
  unfolding poll
  poll-Later again zero s h = later_transfer s.bus 255 h
  poll-Later again (suc n) s h =
      let r = transfer spi s in
      let l = later_transfer s.bus 255 h in
      if_either (λ (x : ℕ × Link W). Later spi start x.1.bus) (again r.0) (poll spi again n r.1) r
        (poll-Later again n r.1 l) l

  pub select-Later :
      (s : Link W) → Later spi start s.bus → Later spi start (sd_select_card spi s).1.bus
  unfolding sd_select_card sd_wait
  select-Later s h =
      let low : Link W = record s { bus = spi.set_pin s.bus false } in
      let r = sd_wait spi 300 low in
      let l = poll-Later (λ b. b == 0) (spi.rounds low.bus 300) low (later_set_pin s.bus false h) in
      if_either (λ (x : Bool × Link W). Later spi start x.1.bus) r.0 r
        (false, record r.1 { bus = spi.set_pin r.1.bus true }) l (later_set_pin r.1.bus true l)

  pub deselect-Later :
      (s : Link W) → Later spi start s.bus → Later spi start (sd_deselect_card spi s).bus
  unfolding sd_deselect_card
  deselect-Later s h = later_set_pin s.bus true h

  module _ (card : Card) where
    send_packet-Later :
        (cmd arg : ℕ) (s : Link W)
        → Later spi start s.bus
        → Later spi start (send_packet spi card cmd arg s).1.bus
    unfolding send_packet
    send_packet-Later cmd arg s h =
        poll-Later (λ b. leb 128 b) 8
          (record s { bus = spi.write_bytes s.bus (packet card cmd arg) })
          (later_write_bytes s.bus (packet card cmd arg) h)

    recover-Later : (s : Link W) → Later spi start s.bus → Later spi start (recover spi card s).bus
    unfolding recover
    recover-Later s h =
        let d = sd_deselect_card spi s in
        select-Later (record d { bus = spi.delay d.bus 100 })
          (later_delay d.bus 100 (deselect-Later s h))

    respond-Later :
        (cmd : ℕ) (wanted : Bool) (token : ℕ) (s : Link W)
        → Later spi start s.bus
        → Later spi start (respond spi card cmd wanted token s).link.bus
    unfolding respond
    respond-Later cmd wanted token s h =
        let r = transfer spi s in
        let t = spi.transfer32 s.bus 0xFFFFFFFF in
        let P : Reply W → Type 0 = λ x. Later spi start x.link.bus in
        let one : Reply W = record { token = token; resp = some r.0; link = r.1 } in
        let four : Reply W = record {
          token = token;
          resp = some t.0;
          link = record s { bus = t.1 };
        } in
        let nothing : Reply W = record { token = token; resp = none; link = s } in
        if_either P (cmd == 13 && wanted) one
          (if (cmd == 8 || cmd == 58) && wanted then four else nothing) (later_transfer s.bus 255 h)
          (if_either P ((cmd == 8 || cmd == 58) && wanted) four nothing
            (later_transfer32 s.bus 0xFFFFFFFF h) h)

    abbrev IsLaterPrepared : Prepared W → Type 0
    IsLaterPrepared (ready s) = Later spi start s.bus
    IsLaterPrepared (refused t s) = Later spi start s.bus

    attempts-Later :
        (prep : Link W → Prepared W)
        → ((s : Link W) → Later spi start s.bus → IsLaterPrepared (prep s))
        → (cmd arg : ℕ) (wanted : Bool) (token n : ℕ) (s : Link W) → Later spi start s.bus
        → Later spi start (attempts spi card prep cmd arg wanted token n s).link.bus
    unfolding attempts
    attempts-Later prep keeps cmd arg wanted token zero s h = h
    attempts-Later prep keeps cmd arg wanted token (suc n) s h =
        let body : Link W → Reply W = λ s1.
          let r = send_packet spi card cmd arg s1 in
          let again = attempts spi card prep cmd arg wanted r.0 n (recover spi card r.1) in
          if r.0 == 0xFF || crc_error r.0
          then again
          else (if ltb 1 r.0
              then record { token = r.0; resp = none; link = r.1 }
              else respond spi card cmd wanted r.0 r.1) in
        let P : Reply W → Type 0 = λ x. Later spi start x.link.bus in
        let tried : (s1 : Link W) → Later spi start s1.bus → P (body s1) = λ s1 k.
          let r = send_packet spi card cmd arg s1 in
          let l = send_packet-Later cmd arg s1 k in
          let again = attempts spi card prep cmd arg wanted r.0 n (recover spi card r.1) in
          let stop : Reply W = record { token = r.0; resp = none; link = r.1 } in
          let answer = respond spi card cmd wanted r.0 r.1 in
          if_either P (r.0 == 0xFF || crc_error r.0) again (if ltb 1 r.0 then stop else answer)
            (attempts-Later prep keeps cmd arg wanted r.0 n (recover spi card r.1)
              (recover-Later r.1 l))
            (if_either P (ltb 1 r.0) stop answer l (respond-Later cmd wanted r.0 r.1 l)) in
        (elim (prep s)
            as (λ x.
              IsLaterPrepared x
              → P (elim x as (λ z. Reply W) [
                | ready s1 ↦ body s1
                | refused t s1 ↦ record { token = t; resp = none; link = s1 }
              ])) [ ready s1 ↦ tried s1 | refused t s1 ↦ λ k. k ])
          (keeps s h)

    settle-Later :
        (r : Reply W) → Later spi start r.link.bus → Later spi start (settle spi card r).link.bus
    unfolding settle
    settle-Later r h =
        if_either (λ (x : Reply W). Later spi start x.link.bus) (r.token == 0xFF)
          (record r { link = record r.link { no_init = true } }) r h h

    prepare-Later :
        (cmd : ℕ) (s : Link W) → Later spi start s.bus → IsLaterPrepared (prepare spi card cmd s)
    unfolding prepare
    prepare-Later cmd s h =
        let a = attempts spi card ready 55 0 false 0xFF 3 s in
        let r = settle spi card a in
        let l = settle-Later a (attempts-Later ready (λ t k. k) 55 0 false 0xFF 3 s h) in
        let d = sd_deselect_card spi r.link in
        let k = deselect-Later r.link l in
        let e = sd_select_card spi d in
        let m = select-Later d k in
        if_either IsLaterPrepared (is_app cmd)
          (if ltb 1 r.token
            then refused r.token d
            else (if e.0 then ready e.1 else refused 0xFF e.1))
          (ready s)
          (if_either IsLaterPrepared (ltb 1 r.token) (refused r.token d)
            (if e.0 then ready e.1 else refused 0xFF e.1) k
            (if_either IsLaterPrepared e.0 (ready e.1) (refused 0xFF e.1) m m))
          h

    pub command-Later :
        (cmd arg : ℕ) (wanted : Bool) (s : Link W)
        → Later spi start s.bus
        → Later spi start (sd_command spi card cmd arg wanted s).link.bus
    unfolding sd_command
    command-Later cmd arg wanted s h =
        settle-Later (attempts spi card (prepare spi card cmd) cmd arg wanted 0xFF 3 s)
          (attempts-Later (prepare spi card cmd) (prepare-Later cmd) cmd arg wanted 0xFF 3 s h)

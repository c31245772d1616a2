-- ===== src/WebServer/Payload.antt =====
-- The handler gets the bytes of the file, all of them and in order.
use idf_custom_arduino.Base.{
  ℕ, ◌≡◌, refl, sym, ap, ap₂, subst, ◌∙◌, inl, inr, ◌==◌, true, List, [], ◌∷◌, ◌++◌, arith,
  append_assoc, append-nil, length, Bool-cases,
}
use idf_custom_arduino.WebServer.Upload.{
  UploadStatus, upload_file_start, upload_file_write, upload_file_aborted, HttpUpload, Progress,
  Scan, in_body, after_cr, after_lf, after_dash, in_boundary, Result, ended, aborted, contains,
  c_string, call_handler, upload_write_byte, upload_write, step, is_end, settle, abort, finish,
  scan_file, read_file,
}
use idf_custom_arduino.WebServer.Written.{
  file_of, payload, IsCounting, write_byte_adds, writes_add, finish_lem,
}

-- The bytes that have been read and not been written.
abbrev pub held : Scan → List ℕ
held in_body = []
held after_cr = 0x0d ∷ []
held after_lf = 0x0d ∷ 0x0a ∷ []
held after_dash = 0x0d ∷ 0x0a ∷ 0x2d ∷ []
held (in_boundary seen) = 0x0d ∷ 0x0a ∷ 0x2d ∷ 0x2d ∷ seen

-- The bytes `taken` have been read.
abbrev Took : List ℕ → Scan × Progress → Type 0
Took taken r = (payload r.1 ++ held r.0 ≡ taken) × IsCounting r.1

by_result : (taken : List ℕ) (r q : Scan × Progress) → r ≡ q → Took taken q → Took taken r
by_result taken r q e t = subst (λ x. Took taken x) (sym e) t

cr_next : (t u : List ℕ) (b : ℕ) → t ≡ u → (b == 0x0d) ≡ true → t ++ 0x0d ∷ [] ≡ u ++ b ∷ []
cr_next t u b e z = ap (λ x. x ++ 0x0d ∷ []) e ∙ ap (λ (x : ℕ). u ++ x ∷ []) (ground (arith, z))

module _ (boundary behind : List ℕ) where
  -- A byte of the file, after the bytes `h` that turn out to belong to it.
  body-Took :
      (p : Progress) (h : List ℕ) (b : ℕ)
      → IsCounting p
      → Took
          ((payload p ++ h) ++ b ∷ [])
          (step true boundary behind in_body (upload_write true p h) b)
  unfolding step
  body-Took p h b c = elim (Bool-cases (b == 0x0d)) [
    | inl e ↦
        by_result _ whole (after_cr, q) (ground (arith, e))
          (cr_next (payload q) (payload p ++ h) b w.0 e, w.1)
    | inr e ↦
        by_result _ whole (in_body, upload_write_byte true q b) (ground (arith, e))
          (
            append-nil _ ∙ (write_byte_adds q b w.1).0 ∙ ap (λ t. t ++ b ∷ []) w.0,
            (write_byte_adds q b w.1).1,
          )
  ]
    where
      q : Progress
      q = upload_write true p h

      whole : Scan × Progress
      whole = step true boundary behind in_body q b

      w : (payload q ≡ payload p ++ h) × IsCounting q
      w = writes_add p h c

  -- One more byte of the text that ends the file.
  longer :
      (p : Progress) (h : List ℕ) (b x : ℕ) (at : Scan)
      → held at ≡ h ++ x ∷ []
      → x ≡ b
      → IsCounting p
      → Took ((payload p ++ h) ++ b ∷ []) (at, p)
  longer p h b x at e q c = (
    ap (◌++◌ (payload p)) (e ∙ ap (λ y. h ++ y ∷ []) q) ∙ sym (append_assoc (payload p) h (b ∷ [])),
    c,
  )

  step-Took :
      (at : Scan) (p : Progress) (b : ℕ)
      → IsCounting p
      → Took ((payload p ++ held at) ++ b ∷ []) (step true boundary behind at p b)
  unfolding step upload_write
  step-Took in_body p b c = body-Took p [] b c
  step-Took after_cr p b c = elim (Bool-cases (b == 0x0a)) [
    | inl e ↦
        by_result _ (step true boundary behind after_cr p b) (after_lf, p) (ground (arith, e))
          (longer p (held after_cr) b 0x0a after_lf refl (ground (arith, e)) c)
    | inr e ↦
        by_result _ (step true boundary behind after_cr p b)
          (step true boundary behind in_body (upload_write true p (held after_cr)) b)
          (ground (arith, e)) (body-Took p (held after_cr) b c)
  ]
  step-Took after_lf p b c = elim (Bool-cases (b == 0x2d)) [
    | inl e ↦
        by_result _ (step true boundary behind after_lf p b) (after_dash, p) (ground (arith, e))
          (longer p (held after_lf) b 0x2d after_dash refl (ground (arith, e)) c)
    | inr e ↦
        by_result _ (step true boundary behind after_lf p b)
          (step true boundary behind in_body (upload_write true p (held after_lf)) b)
          (ground (arith, e)) (body-Took p (held after_lf) b c)
  ]
  step-Took after_dash p b c = elim (Bool-cases (b == 0x2d)) [
    | inl e ↦
        by_result _ (step true boundary behind after_dash p b) (in_boundary [], p)
          (ground (arith, e))
          (longer p (held after_dash) b 0x2d (in_boundary []) refl (ground (arith, e)) c)
    | inr e ↦
        by_result _ (step true boundary behind after_dash p b)
          (step true boundary behind in_body (upload_write true p (held after_dash)) b)
          (ground (arith, e)) (body-Took p (held after_dash) b c)
  ]
  step-Took (in_boundary seen) p b c = elim (Bool-cases (b == 0x0d)) [
    | inl e ↦
        by_result _ (step true boundary behind (in_boundary seen) p b)
          (after_cr, upload_write true p (held (in_boundary seen))) (ground (arith, e))
          (
            cr_next _ (payload p ++ held (in_boundary seen)) b
                (writes_add p (held (in_boundary seen)) c).0 e,
            (writes_add p (held (in_boundary seen)) c).1,
          )
    | inr e ↦
        by_result _ (step true boundary behind (in_boundary seen) p b)
          (in_boundary (seen ++ b ∷ []), p) (ground (arith, e))
          (longer p (held (in_boundary seen)) b b (in_boundary (seen ++ b ∷ [])) refl refl c)
  ]

  settle-Took :
      (taken : List ℕ) (at : Scan) (p : Progress)
      → Took taken (at, p)
      → Took taken (settle true boundary behind at p)
  unfolding settle
  settle-Took taken in_body p t = t
  settle-Took taken after_cr p t = t
  settle-Took taken after_lf p t = t
  settle-Took taken after_dash p t = t
  settle-Took taken (in_boundary seen) p t = elim (Bool-cases (length seen == length boundary)) [
    | inl e ↦
        by_result taken (settle true boundary behind (in_boundary seen) p)
          (in_body, upload_write true p (held (in_boundary seen))) (ground (arith, e))
          (
            append-nil _ ∙ (writes_add p (held (in_boundary seen)) t.1).0 ∙ t.0,
            (writes_add p (held (in_boundary seen)) t.1).1,
          )
    | inr e ↦
        by_result taken (settle true boundary behind (in_boundary seen) p) (in_boundary seen, p)
          (ground (arith, e)) t
  ]

  -- What a finished upload has taken out of the bytes `all`.
  abbrev pub Ends : List ℕ → Result → Type 0
  Ends all (aborted q) = q.upload.status ≡ upload_file_aborted
  Ends all (ended q rest) =
      (tail : List ℕ) × (all ≡ (file_of q.calls ++ 0x0d ∷ 0x0a ∷ 0x2d ∷ 0x2d ∷ tail) ++ rest)
      × (length tail ≡ length boundary)
      × (contains boundary (c_string (tail ++ behind)) ≡ true)
      × (q.upload.total_size ≡ length (file_of q.calls))

  end_seen :
      (at : Scan)
      → is_end true boundary behind at ≡ true
      → (seen : List ℕ) × (held at ≡ 0x0d ∷ 0x0a ∷ 0x2d ∷ 0x2d ∷ seen)
        × (length seen ≡ length boundary)
        × (contains boundary (c_string (seen ++ behind)) ≡ true)
  unfolding is_end
  end_seen in_body e = absurd cc
  end_seen after_cr e = absurd cc
  end_seen after_lf e = absurd cc
  end_seen after_dash e = absurd cc
  end_seen (in_boundary seen) e = (seen, refl, ground (arith, e), ground (arith, e))

  ended_well :
      (all taken rest : List ℕ) (r : Scan × Progress)
      → all ≡ taken ++ rest
      → Took taken r
      → is_end true boundary behind r.0 ≡ true
      → Ends all (ended (finish true boundary behind r.1) rest)
  ended_well all taken rest r e t z =
      let f = finish_lem boundary behind r.1 t.1 in
      let (seen, h, l, c) = end_seen r.0 z in
      (seen, e ∙ ap (λ x. x ++ rest) (sym t.0 ∙ ap₂ (λ x y. x ++ y) (sym f.0) h), l, c, f.1)

  scan_file-Ends :
      (all taken : List ℕ) (at : Scan) (p : Progress) (bs : List ℕ)
      → all ≡ taken ++ bs
      → Took taken (at, p)
      → Ends all (scan_file true boundary behind at p bs)
  unfolding scan_file abort call_handler
  scan_file-Ends all taken at p [] e t = refl
  scan_file-Ends all taken at p (b ∷ bs) e t = elim (Bool-cases (is_end true boundary behind r.0)) [
    | inl z ↦
        subst (λ x. Ends all x) {x = ended (finish true boundary behind r.1) bs} (ground (arith, z))
          (ended_well all (taken ++ b ∷ []) bs r grown took z)
    | inr z ↦
        subst (λ x. Ends all x) {x = scan_file true boundary behind next.0 next.1 bs}
          (ground (arith, z))
          (scan_file-Ends all (taken ++ b ∷ []) next.0 next.1 bs grown
            (settle-Took (taken ++ b ∷ []) r.0 r.1 took))
  ]
    where
      r : Scan × Progress
      r = step true boundary behind at p b

      next : Scan × Progress
      next = settle true boundary behind r.0 r.1

      grown : all ≡ (taken ++ b ∷ []) ++ bs
      grown = e ∙ sym (append_assoc taken (b ∷ []) bs)

      took : Took (taken ++ b ∷ []) r
      took = subst (λ x. Took (x ++ b ∷ []) r) t.0 (step-Took at p b t.1)

  -- Whatever bytes arrive, an upload that ends has given a handler that takes uploads every byte
  -- up to the end text, in order and none else, and its total size is their number; the end text
  -- has the length of the boundary and the test for the boundary has found it. An upload that does
  -- not end is aborted with the status for that.
  pub file_whole :
      (name filename type bytes : List ℕ)
      → Ends bytes (read_file true boundary behind name filename type bytes)
  unfolding read_file call_handler
  file_whole name filename type bytes =
      scan_file-Ends bytes [] in_body started bytes refl (refl, (refl, refl))
    where
      new_upload : UploadStatus → HttpUpload
      new_upload status = record {
        status = status;
        filename = filename;
        name = name;
        type = type;
        total_size = 0;
        buf = [];
      }

      started : Progress
      started = record {
        upload = new_upload upload_file_write;
        calls = new_upload upload_file_start ∷ [];
      }

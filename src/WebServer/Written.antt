-- ===== src/WebServer/Written.antt =====
-- What has been given to the handler, and what waits in the buffer of the upload.
use idf_custom_arduino.Base.{
  ℕ, ◌≡◌, refl, sym, ap, ◌∙◌, inl, inr, ◌==◌, true, List, [], ◌∷◌, ◌++◌, arith, append_assoc,
  append-nil, length, length-append, Bool-cases,
}
use idf_custom_arduino.WebServer.Upload.{
  UploadStatus, upload_file_start, upload_file_write, upload_file_end, upload_file_aborted,
  HttpUpload, Progress, call_handler, upload_write_byte, upload_write, finish,
}

-- The bytes that the handler has been given in calls of the status `upload_file_write`.
abbrev bytes_of : UploadStatus → List ℕ → List ℕ
bytes_of upload_file_start xs = []
bytes_of upload_file_write xs = xs
bytes_of upload_file_end xs = []
bytes_of upload_file_aborted xs = []

abbrev pub file_of : List HttpUpload → List ℕ
file_of [] = []
file_of (u ∷ us) = bytes_of u.status u.buf ++ file_of us

file_of-append : (us vs : List HttpUpload) → file_of (us ++ vs) ≡ file_of us ++ file_of vs
file_of-append [] vs = refl
file_of-append (u ∷ us) vs =
    ap (◌++◌ (bytes_of u.status u.buf)) (file_of-append us vs)
    ∙ sym (append_assoc (bytes_of u.status u.buf) (file_of us) (file_of vs))

-- The bytes that have been given to the handler or wait in the buffer.
abbrev pub payload : Progress → List ℕ
payload p = file_of p.calls ++ p.upload.buf

abbrev pub IsCounting : Progress → Type 0
IsCounting p =
    (p.upload.status ≡ upload_file_write) × (p.upload.total_size ≡ length (file_of p.calls))

-- A call hands on the bytes of the buffer.
called :
    (us : List HttpUpload) (u : HttpUpload)
    → u.status ≡ upload_file_write
    → file_of (us ++ u ∷ []) ≡ file_of us ++ u.buf
called us u e =
    file_of-append us (u ∷ [])
    ∙ ap (◌++◌ (file_of us)) (append-nil _ ∙ ap (λ t. bytes_of t u.buf) e)

pub write_byte_adds :
    (p : Progress) (b : ℕ)
    → IsCounting p
    → (payload (upload_write_byte true p b) ≡ payload p ++ b ∷ [])
      × IsCounting (upload_write_byte true p b)
unfolding upload_write_byte call_handler
write_byte_adds p b c = elim (Bool-cases (length p.upload.buf == 1436)) [
  | inl e ↦
      rw (upload_write_byte, e)
        (
          ap (λ t. t ++ b ∷ []) now,
          (c.0, omega (arith, c.1, ap length now, length-append (file_of p.calls) p.upload.buf)),
        )
  | inr e ↦
      rw (upload_write_byte, e)
        (sym (append_assoc (file_of p.calls) p.upload.buf (b ∷ [])), (c.0, c.1))
]
  where
    now : file_of (p.calls ++ p.upload ∷ []) ≡ file_of p.calls ++ p.upload.buf
    now = called p.calls p.upload c.0

pub writes_add :
    (p : Progress) (bs : List ℕ)
    → IsCounting p
    → (payload (upload_write true p bs) ≡ payload p ++ bs) × IsCounting (upload_write true p bs)
unfolding upload_write
writes_add p [] c = (sym (append-nil (payload p)), c)
writes_add p (b ∷ bs) c =
    let w = write_byte_adds p b c in
    let t = writes_add (upload_write_byte true p b) bs w.1 in
    (t.0 ∙ ap (λ t. t ++ bs) w.0 ∙ append_assoc (payload p) (b ∷ []) bs, t.1)

pub finish_lem :
    (boundary behind : List ℕ) (p : Progress)
    → IsCounting p
    → (file_of (finish true boundary behind p).calls ≡ payload p)
      × ((finish true boundary behind p).upload.total_size
          ≡ length (file_of (finish true boundary behind p).calls))
unfolding finish call_handler
finish_lem boundary behind p c =
    (whole, omega (arith, ap length whole, c.1, length-append (file_of p.calls) p.upload.buf))
  where
    now : file_of (p.calls ++ p.upload ∷ []) ≡ payload p
    now = called p.calls p.upload c.0

    whole : file_of (finish true boundary behind p).calls ≡ payload p
    whole = file_of-append (p.calls ++ p.upload ∷ []) _ ∙ append-nil _ ∙ now

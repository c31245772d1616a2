-- ===== src/WebServer/Found.antt =====
-- A file is found to its end.
use idf_custom_arduino.Base.{
  ℕ, ◌<◌, ◌≡◌, ◌≢◌, refl, sym, ap, subst, ◌∙◌, true, List, [], ◌∷◌, ◌++◌, arith, append_assoc,
  length, length-append,
}
use idf_custom_arduino.WebServer.Upload.{
  UploadStatus, upload_file_start, upload_file_write, HttpUpload, Progress, in_body, in_boundary,
  ended, starts_with, contains, c_string, call_handler, upload_write_byte, upload_write, step,
  is_end, settle, finish, scan_file, read_file,
}
use idf_custom_arduino.WebServer.Written.{file_of, writes_add, finish_lem}

-- No byte of the text is `c`.
abbrev pub Lacks : ℕ → List ℕ → Type 0
Lacks c [] = Unit
Lacks c (x ∷ xs) = (x ≢ c) × Lacks c xs

starts_with-c_string :
    (t behind : List ℕ) → Lacks 0 t → starts_with t (c_string (t ++ behind)) ≡ true
starts_with-c_string [] behind n = refl
starts_with-c_string (x ∷ t) behind n = ground (arith, n.0, starts_with-c_string t behind n.1)

contains_start : (t s : List ℕ) → starts_with t s ≡ true → contains t s ≡ true
contains_start t [] e = e
contains_start t (x ∷ s) e = ground (arith, e)

module _ (boundary behind : List ℕ) where
  scan_body :
      (p : Progress) (content rest : List ℕ)
      → Lacks 0x0d content
      → scan_file true boundary behind in_body p (content ++ rest)
        ≡ scan_file true boundary behind in_body (upload_write true p content) rest
  unfolding scan_file step is_end settle upload_write
  scan_body p [] rest n = refl
  scan_body p (x ∷ content) rest n =
      ground (arith, n.0, scan_body (upload_write_byte true p x) content rest n.1)

  last_byte :
      (p : Progress) (seen : List ℕ) (x : ℕ) (rest : List ℕ)
      → x ≢ 0x0d
      → length (seen ++ x ∷ []) ≡ length boundary
      → contains boundary (c_string ((seen ++ x ∷ []) ++ behind)) ≡ true
      → scan_file true boundary behind (in_boundary seen) p (x ∷ rest)
        ≡ ended (finish true boundary behind p) rest
  unfolding scan_file step is_end
  last_byte p seen x rest n l c = ground (arith, n, l, c)

  next_byte :
      (p : Progress) (seen : List ℕ) (x : ℕ) (rest : List ℕ)
      → x ≢ 0x0d
      → length (seen ++ x ∷ []) < length boundary
      → scan_file true boundary behind (in_boundary seen) p (x ∷ rest)
        ≡ scan_file true boundary behind (in_boundary (seen ++ x ∷ [])) p rest
  unfolding scan_file step is_end settle
  next_byte p seen x rest n l = ground (arith, n, l)

  scan_boundary :
      (p : Progress) (seen : List ℕ) (x : ℕ) (todo rest : List ℕ)
      → Lacks 0x0d (x ∷ todo)
      → Lacks 0 boundary
      → seen ++ x ∷ todo ≡ boundary
      → scan_file true boundary behind (in_boundary seen) p (x ∷ todo ++ rest)
        ≡ ended (finish true boundary behind p) rest
  scan_boundary p seen x [] rest n z e = last_byte p seen x rest n.0 (ap length e) (
      contains_start boundary _ (
        subst (λ s. starts_with boundary (c_string (s ++ behind)) ≡ true) (sym e)
          (starts_with-c_string boundary behind z)))
  scan_boundary p seen x (y ∷ todo) rest n z e =
      next_byte p seen x (y ∷ todo ++ rest) n.0
        (omega (arith, ap length e, length-append seen (x ∷ y ∷ todo), length-append seen (x ∷ [])))
      ∙ scan_boundary p (seen ++ x ∷ []) y todo rest n.1 z
          (append_assoc seen (x ∷ []) (y ∷ todo) ∙ e)

delimiter :
    (boundary behind : List ℕ) (p : Progress) (rest : List ℕ)
    → 0 < length boundary
    → scan_file true boundary behind in_body p (0x0d ∷ 0x0a ∷ 0x2d ∷ 0x2d ∷ rest)
      ≡ scan_file true boundary behind (in_boundary []) p rest
unfolding scan_file step is_end settle
delimiter boundary behind p rest h = ground (arith, h)

end_text :
    (boundary behind : List ℕ) (p : Progress) (rest : List ℕ)
    → Lacks 0x0d boundary
    → Lacks 0 boundary
    → scan_file true boundary behind in_body p (0x0d ∷ 0x0a ∷ 0x2d ∷ 0x2d ∷ (boundary ++ rest))
      ≡ ended (finish true boundary behind p) rest
unfolding scan_file step is_end settle
end_text [] behind p rest n z = ground (arith, contains_start [] (c_string behind) refl)
end_text (y ∷ boundary) behind p rest n z =
    delimiter (y ∷ boundary) behind p (y ∷ boundary ++ rest) (omega arith)
    ∙ scan_boundary (y ∷ boundary) behind p [] y boundary rest n z refl

module _ (boundary behind content rest : List ℕ) where
  -- From an upload whose file has no carriage return, with a boundary that has no carriage return
  -- and no zero byte, a handler that takes uploads is given exactly the bytes of the file, the
  -- total size is their number, and the reading stops right behind the boundary.
  pub file_found :
      (name filename type : List ℕ)
      → Lacks 0x0d content
      → Lacks 0x0d boundary
      → Lacks 0 boundary
      → (q : Progress) × (read_file true boundary behind name filename type
            (content ++ 0x0d ∷ 0x0a ∷ 0x2d ∷ 0x2d ∷ (boundary ++ rest))
          ≡ ended q rest)
        × (file_of q.calls ≡ content)
        × (q.upload.total_size ≡ length content)
  unfolding read_file call_handler
  file_found name filename type n m z =
      let w = writes_add started content (refl, refl) in
      let f = finish_lem boundary behind (upload_write true started content) w.1 in
      (
        finish true boundary behind (upload_write true started content),
        scan_body boundary behind started content _ n
            ∙ end_text boundary behind (upload_write true started content) rest m z,
        f.0 ∙ w.0,
        f.1 ∙ ap length (f.0 ∙ w.0),
      )
    where
      new_upload : UploadStatus → HttpUpload
      new_upload status = record {
        status = status;
        filename = filename;
        name = name;
        type = type;
        total_size = 0;
        buf = [];
      }

      started : Progress
      started = record {
        upload = new_upload upload_file_write;
        calls = new_upload upload_file_start ∷ [];
      }

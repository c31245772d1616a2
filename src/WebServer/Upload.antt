-- ===== src/WebServer/Upload.antt =====
-- libraries/WebServer/src/Parsing.cpp: the file of a multipart form, as `_parseForm` takes it from the
-- connection and hands it to the handler. The bytes of the connection are those that
-- `_uploadReadByte` gives before it fails.
use idf_custom_arduino.Base.{
  ℕ, ◌+◌, Bool, true, false, ◌&&◌, ◌||◌, List, [], ◌∷◌, ◌++◌, ◌==◌, length, if◌then◌else◌,
}

pub data UploadStatus : Type 0 where
  upload_file_start : UploadStatus
  upload_file_write : UploadStatus
  upload_file_end : UploadStatus
  upload_file_aborted : UploadStatus

-- `HTTPUpload`; `buf` is its first `currentSize` bytes.
pub record HttpUpload : Type 0 where
  pub status : UploadStatus
  pub filename : List ℕ
  pub name : List ℕ
  pub type : List ℕ
  pub total_size : ℕ
  pub buf : List ℕ

-- The upload, and the states of it that the handler has been called with, the latest last.
pub record Progress : Type 0 where
  pub upload : HttpUpload
  pub calls : List HttpUpload

-- `HTTP_UPLOAD_BUFLEN`
abbrev pub http_upload_buflen : ℕ
http_upload_buflen = 1436

-- Where the code is in the text that ends the file: how much of it has been read and not been
-- written.
pub data Scan : Type 0 where
  in_body : Scan
  after_cr : Scan
  after_lf : Scan
  after_dash : Scan
  in_boundary : List ℕ → Scan

pub data Result : Type 0 where
  ended : Progress → List ℕ → Result
  aborted : Progress → Result

-- `strstr`: is the text `t` in the C string that starts the bytes `s`?
abbrev pub starts_with : List ℕ → List ℕ → Bool
starts_with [] s = true
starts_with (c ∷ t) [] = false
starts_with (c ∷ t) (d ∷ s) = c == d && starts_with t s

abbrev pub c_string : List ℕ → List ℕ
c_string [] = []
c_string (c ∷ s) = if c == 0 then [] else c ∷ c_string s

abbrev pub contains : List ℕ → List ℕ → Bool
contains t [] = starts_with t []
contains t (d ∷ s) = starts_with t (d ∷ s) || contains t s

-- `can_upload` is whether there is a handler that takes uploads for the address.
module _ (can_upload : Bool) where
  unfoldable pub call_handler : Progress → Progress
  call_handler p = if can_upload then record p { calls = p.calls ++ p.upload ∷ [] } else p

  unfoldable pub upload_write_byte : Progress → ℕ → Progress
  unfolding call_handler
  upload_write_byte p b =
      let u = p.upload in
      let q = call_handler p in
      if length u.buf == http_upload_buflen
      then record q { upload = record u { total_size = u.total_size + length u.buf; buf = b ∷ [] } }
      else record p { upload = record u { buf = u.buf ++ b ∷ [] } }

  unfoldable pub upload_write : Progress → List ℕ → Progress
  upload_write p [] = p
  upload_write p (b ∷ bs) = upload_write (upload_write_byte p b) bs

  -- `behind` are the bytes that lie behind `endBuf` on the stack: it has no end mark of its own.
  module _ (boundary behind : List ℕ) where
    -- A byte of the file, `readfile:`
    abbrev body_step : Progress → ℕ → Scan × Progress
    body_step p b = if b == 0x0d then (after_cr, p) else (in_body, upload_write_byte p b)

    unfoldable pub step : Scan → Progress → ℕ → Scan × Progress
    step in_body p b = body_step p b
    step after_cr p b =
        if b == 0x0a then (after_lf, p) else body_step (upload_write p (0x0d ∷ [])) b
    step after_lf p b =
        if b == 0x2d then (after_dash, p) else body_step (upload_write p (0x0d ∷ 0x0a ∷ [])) b
    step after_dash p b =
        if b == 0x2d
        then (in_boundary [], p)
        else body_step (upload_write p (0x0d ∷ 0x0a ∷ 0x2d ∷ [])) b
    step (in_boundary seen) p b =
        if b == 0x0d
        then (after_cr, upload_write p (0x0d ∷ 0x0a ∷ 0x2d ∷ 0x2d ∷ seen))
        else (in_boundary (seen ++ b ∷ []), p)

    -- Whether the text that has been read ends the file.
    unfoldable pub is_end : Scan → Bool
    is_end in_body = false
    is_end after_cr = false
    is_end after_lf = false
    is_end after_dash = false
    is_end (in_boundary seen) =
        (length seen == length boundary) && contains boundary (c_string (seen ++ behind))

    -- As many bytes as the boundary has, but not the boundary, belong to the file.
    unfoldable pub settle : Scan → Progress → Scan × Progress
    settle in_body p = (in_body, p)
    settle after_cr p = (after_cr, p)
    settle after_lf p = (after_lf, p)
    settle after_dash p = (after_dash, p)
    settle (in_boundary seen) p =
        if length seen == length boundary
        then (in_body, upload_write p (0x0d ∷ 0x0a ∷ 0x2d ∷ 0x2d ∷ seen))
        else (in_boundary seen, p)

    -- `_parseFormUploadAborted`
    unfoldable pub abort : Progress → Result
    abort p =
        aborted
          (call_handler (record p { upload = record p.upload { status = upload_file_aborted } }))

    -- The last part of the file, and its end.
    unfoldable pub finish : Progress → Progress
    finish p =
        let q = call_handler p in
        let u : HttpUpload = record q.upload {
          total_size = q.upload.total_size + length q.upload.buf;
          status = upload_file_end;
        } in
        call_handler (record q { upload = u })

    unfoldable pub scan_file : Scan → Progress → List ℕ → Result
    unfolding abort finish
    scan_file at p [] = abort p
    scan_file at p (b ∷ bs) =
        let r = step at p b in
        let next = settle r.0 r.1 in
        let rest = scan_file next.0 next.1 bs in if is_end r.0 then ended (finish r.1) bs else rest

    unfoldable pub read_file : List ℕ → List ℕ → List ℕ → List ℕ → Result
    read_file name filename type bytes =
        let u : HttpUpload = record {
          status = upload_file_start;
          filename = filename;
          name = name;
          type = type;
          total_size = 0;
          buf = [];
        } in
        let p = call_handler (record { upload = u; calls = [] }) in
        scan_file in_body (record p { upload = record p.upload { status = upload_file_write } })
          bytes

-- ===== src/WebServer/Tests.antt =====
-- An upload with the boundary "xy", and escaped text; instances of the theorems.
use idf_custom_arduino.Base.{ℕ, ◌≡◌, arith, true, List, [], ◌∷◌, ◌++◌}
use idf_custom_arduino.WebServer.Url.{url_decode}
use idf_custom_arduino.WebServer.Upload.{Progress, ended, read_file}
use idf_custom_arduino.WebServer.Decode.{escape, url_decode-escape}
use idf_custom_arduino.WebServer.Written.{file_of}
use idf_custom_arduino.WebServer.Payload.{Ends, file_whole}
use idf_custom_arduino.WebServer.Found.{file_found}

abbrev boundary : List ℕ
boundary = 0x78 ∷ 0x79 ∷ []

abbrev content : List ℕ
content = 0x61 ∷ 0x2d ∷ 0x2d ∷ 0x78 ∷ 0x79 ∷ []

abbrev bytes : List ℕ
bytes = content ++ 0x0d ∷ 0x0a ∷ 0x2d ∷ 0x2d ∷ (boundary ++ 0x2d ∷ 0x2d ∷ [])

file_whole_example : Ends boundary [] bytes (read_file true boundary [] [] [] [] bytes)
file_whole_example = file_whole boundary [] [] [] [] bytes

file_found_example :
    (q : Progress) × (read_file true boundary [] [] [] [] bytes ≡ ended q (0x2d ∷ 0x2d ∷ []))
    × (file_of q.calls ≡ content)
    × (q.upload.total_size ≡ 5)
file_found_example =
    file_found boundary [] content (0x2d ∷ 0x2d ∷ []) [] [] []
      (omega arith, (omega arith, (omega arith, (omega arith, (omega arith, tt)))))
      (omega arith, (omega arith, tt)) (omega arith, (omega arith, tt))

url_decode-escape_example : url_decode (escape (0x20 ∷ 0x25 ∷ 0xff ∷ [])) ≡ 0x20 ∷ 0x25 ∷ 0xff ∷ []
url_decode-escape_example =
    url_decode-escape (0x20 ∷ 0x25 ∷ 0xff ∷ []) (omega arith, (omega arith, (omega arith, tt)))

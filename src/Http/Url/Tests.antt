-- ===== src/Http/Url/Tests.antt =====
-- A URL with credentials and a port, and one without a slash; an instance of the theorem.
use idf_custom_arduino.Base.{
  ℕ, ◌+◌, ◌-◌, ◌*◌, ◌≡◌, refl, Option, none, some, List, [], ◌∷◌, take, drop, text,
}
use idf_custom_arduino.WebServer.Arguments.Fields.{plus, find}
use idf_custom_arduino.Http.Url.{Texts, begin_internal, authority, credentials, host_and_port}
use idf_custom_arduino.Http.Url.Address.{IsTexts, begin_internal-url_of}

abbrev text_substring : List ℕ → ℕ → Option ℕ → List ℕ
text_substring s i none = drop i s
text_substring s i (some j) = take (j - i) (drop i s)

abbrev number : ℕ → List ℕ → ℕ
number acc [] = acc
number acc (c ∷ cs) = number (acc * 10 + (c - 48)) cs

abbrev texts : Texts
texts = record {
  strings = record { index_of = λ s c i. plus i (find c (drop i s)); substring = text_substring };
  remove_front = λ s n. drop n s;
  to_int = number 0;
}

abbrev texts-IsTexts : IsTexts texts
texts-IsTexts = record {
  strings_lem = record {
    index_of_lem = λ s c i. refl;
    substring_lem = λ s i j h. refl;
    substring_rest = λ s i. refl;
  };
  remove_front_lem = λ s n. refl;
}

begin_internal-url_of_example :
    begin_internal texts (text "http://me:pw@esp32:8080/a?b=1") (text "http")
    ≡ some (record {
      protocol = text "http";
      authorization = some (text "me:pw");
      host = text "esp32";
      port = some 8080;
      uri = text "/a?b=1";
    })
begin_internal-url_of_example =
    begin_internal-url_of texts texts-IsTexts (text "http") (text "me:pw") (text "esp32")
      (text "8080") (text "a?b=1") refl refl refl refl

-- Without a slash the address is one, and the port is left as it is.
bare_host_test :
    begin_internal texts (text "http://esp32") (text "http")
    ≡ some (record {
      protocol = text "http";
      authorization = none;
      host = text "esp32";
      port = none;
      uri = text "/";
    })
unfolding begin_internal authority credentials host_and_port
bare_host_test = refl

-- ===== src/WebServer/Routes/Tests.antt =====
-- An address with two path arguments, and three handlers; an instance of the theorem.
use idf_custom_arduino.Base.{
  ℕ, ◌-◌, ◌≡◌, refl, arith, true, none, some, Option, List, [], ◌∷◌, take, drop, length, text, ap,
}
use idf_custom_arduino.WebServer.Arguments.{Strings}
use idf_custom_arduino.WebServer.Arguments.Fields.{plus, find, IsStrings}
use idf_custom_arduino.WebServer.Routes.{
  answered, outside, walk_uri, braces_can_handle, Handler, http_any, function_handler,
  add_request_handler, find_handler,
}
use idf_custom_arduino.WebServer.Routes.Braces.{
  Matches, matches_char, matches_last, matches_arg, braces_matched,
}

abbrev text_substring : List ℕ → ℕ → Option ℕ → List ℕ
text_substring s i none = drop i s
text_substring s i (some j) = take (j - i) (drop i s)

abbrev strings : Strings
strings = record { index_of = λ s c i. plus i (find c (drop i s)); substring = text_substring }

abbrev strings-IsStrings : IsStrings strings
strings-IsStrings = record {
  index_of_lem = λ s c i. refl;
  substring_lem = λ s i j h. refl;
  substring_rest = λ s i. refl;
}

abbrev two_args : Matches (text "/{}/b{}") (text "/x1/by") (text "x1" ∷ text "y" ∷ [])
two_args = matches_char 47 (text "{}/b{}") (text "x1/by") (text "x1" ∷ text "y" ∷ []) (
    matches_arg (text "x1") 47 (text "b{}") (text "by") (text "y" ∷ [])
      (λ e. absurd (omega (arith, e))) refl
      (matches_char 98 (text "{}") (text "y") (text "y" ∷ [])
        (matches_last (text "y") (λ e. absurd (omega (arith, e))) refl)))

braces_matched_example :
    braces_can_handle strings (text "/{}/b{}") (text "/x1/by") ([] ∷ [] ∷ [])
    ≡ some (answered true (text "x1" ∷ text "y" ∷ []))
braces_matched_example =
    braces_matched strings strings-IsStrings (text "/{}/b{}") (text "/x1/by")
      (text "x1" ∷ text "y" ∷ []) ([] ∷ [] ∷ []) two_args (λ e. absurd (omega (arith, ap length e)))
      refl

-- A brace that is not closed takes a path argument, for which initPathArgs has made no room.
outside_test : braces_can_handle strings (text "/{a") (text "/x") [] ≡ some outside
unfolding braces_can_handle walk_uri
outside_test = refl

abbrev handlers : List Handler
handlers = function_handler (text "/a") 1 ∷ function_handler (text "/a") http_any ∷ []

-- The handlers are asked in the order in which they were added.
order_test :
    find_handler (add_request_handler (function_handler (text "/a") 3) handlers) 3 (text "/a")
    ≡ some (function_handler (text "/a") http_any)
unfolding find_handler add_request_handler function_handler
order_test = refl

-- ===== src/WebServer/Arguments.antt =====
-- libraries/WebServer/src/Parsing.cpp and WebServer.cpp: `_parseArguments`, `arg` and `hasArg`. The
-- functions of String are parameters. `Fields` says which arguments a text has.
use idf_custom_arduino.Base.{
  ℕ, zero, suc, ◌+◌, Bool, true, false, ◌&&◌, Option, none, some, List, [], ◌∷◌, ◌++◌, ltb, ◌==◌,
  bytes_eq, length, if◌then◌else◌,
}
use idf_custom_arduino.WebServer.Url.{url_decode}
pub mod Fields
pub mod Parsed

-- `RequestArgument`
pub record RequestArgument : Type 0 where
  pub key : List ℕ
  pub value : List ℕ

-- What the code uses of a String: an index is none in place of -1, and so is the end of a substring
-- that goes on to the end.
pub record Strings : Type 0 where
  pub index_of : List ℕ → ℕ → ℕ → Option ℕ
  pub substring : List ℕ → ℕ → Option ℕ → List ℕ

-- Whether the equals sign is missing, given where it is and where the next argument starts.
abbrev pub missing_value : Option ℕ → Option ℕ → Bool
missing_value none amp = true
missing_value (some eq) none = false
missing_value (some eq) (some amp) = ltb amp eq

module _ (str : Strings) where
  -- The loop that counts. It is none when the rounds given first do not suffice, and so below.
  unfoldable pub count_args : ℕ → List ℕ → ℕ → ℕ → Option ℕ
  count_args zero data_text i n = none
  count_args (suc k) data_text i n =
      if ltb i (length data_text)
      then elim (str.index_of data_text 38 i) [
        | none ↦ some n
        | some j ↦ count_args k data_text (j + 1) (n + 1)
      ]
      else some n

  abbrev pub argument : List ℕ → ℕ → ℕ → Option ℕ → RequestArgument
  argument data_text at eq amp = record {
    key = url_decode (str.substring data_text at (some eq));
    value = url_decode (str.substring data_text (eq + 1) amp);
  }

  abbrev pub add_argument :
      List ℕ → ℕ → Option ℕ → Option ℕ → List RequestArgument → List RequestArgument
  add_argument data_text at none amp args = args
  add_argument data_text at (some eq) amp args =
      if missing_value (some eq) amp then args else args ++ argument data_text at eq amp ∷ []

  -- The loop that stores the arguments, with how many there may be and the position.
  unfoldable pub store_args :
      ℕ → List ℕ → ℕ → ℕ → List RequestArgument → Option (List RequestArgument)
  store_args zero data_text count at args = none
  store_args (suc k) data_text count at args =
      let amp = str.index_of data_text 38 at in
      let more = add_argument data_text at (str.index_of data_text 61 at) amp args in
      if ltb (length args) count
      then elim amp [ none ↦ some more | some j ↦ store_args k data_text count (j + 1) more ]
      else some args

  unfoldable pub parse_arguments : List ℕ → Option (List RequestArgument)
  parse_arguments data_text =
      if length data_text == 0
      then some []
      else elim (count_args (length data_text + 1) data_text 0 1) [
        | none ↦ none
        | some count ↦ store_args (length data_text + 1) data_text count 0 []
      ]

-- The loops of `arg` and `hasArg` over one of the two arrays.
abbrev pub find_arg : List ℕ → List RequestArgument → Option (List ℕ)
find_arg name [] = none
find_arg name (a ∷ args) = if bytes_eq a.key name then some a.value else find_arg name args

unfoldable pub arg : List RequestArgument → List RequestArgument → List ℕ → List ℕ
arg post_args current_args name = elim (find_arg name post_args) [
  | some v ↦ v
  | none ↦ elim (find_arg name current_args) [ some v ↦ v | none ↦ [] ]
]

unfoldable pub has_arg : List RequestArgument → List RequestArgument → List ℕ → Bool
has_arg post_args current_args name = elim (find_arg name post_args) [
  | some v ↦ true
  | none ↦ elim (find_arg name current_args) [ some v ↦ true | none ↦ false ]
]

-- ===== src/WebServer/Routes.antt =====
-- libraries/WebServer/src/Uri.h, uri/UriBraces.h, detail/RequestHandlersImpl.h and WebServer.cpp: which
-- handler a request goes to. `Braces` is about addresses with path arguments.
use idf_custom_arduino.Base.{
  ℕ, zero, suc, ◌+◌, Bool, true, false, ◌&&◌, Option, none, some, List, [], ◌∷◌, ◌++◌, ltb, leb,
  ◌==◌, bytes_eq, length, get_or, set, if◌then◌else◌,
}
use idf_custom_arduino.WebServer.Arguments.{Strings}
pub mod Braces
mod Tests

-- Whether an address is handled, and the path arguments then; or a write out of their array.
pub data Match : Type 0 where
  answered : Bool → List (List ℕ) → Match
  outside : Match

abbrev pub PathArgs : Type 0
PathArgs = List (List ℕ)

abbrev pub store_path_arg : PathArgs → ℕ → List ℕ → Option PathArgs
store_path_arg args p a = if ltb p (length args) then some (set args p a) else none

module _ (str : Strings) where
  -- The loop of UriBraces::canHandle; a character past the end of a String is 0. It is none when the
  -- rounds given first do not suffice.
  unfoldable pub walk_uri : ℕ → List ℕ → List ℕ → ℕ → ℕ → ℕ → PathArgs → Option Match
  walk_uri zero uri request i r p args = none
  walk_uri (suc k) uri request i r p args =
      let same = walk_uri k uri request (i + 1) (r + 1) p args in
      let end = get_or uri (i + 2) 0 in
      if ltb i (length uri)
      then (if get_or uri i 0 == get_or request r 0
          then same
          else if get_or uri i 0 == 123
          then (if leb (length uri) (i + 2)
              then (let a = str.substring request r none in
                  elim (store_path_arg args p a) [
                    | none ↦ some outside
                    | some stored ↦ elim (str.index_of a 47 0) [
                      | none ↦ some (answered true stored)
                      | some j ↦ some (answered false stored)
                    ]
                  ])
              else elim (str.index_of request end r) [
                | none ↦ some (answered false args)
                | some u ↦ elim (store_path_arg args p (str.substring request r (some u))) [
                  | none ↦ some outside
                  | some stored ↦ walk_uri k uri request (i + 2 + 1) (u + 1) (p + 1) stored
                ]
              ])
          else some (answered false args))
      else some (answered (leb (length request) r) args)

  unfoldable pub braces_can_handle : List ℕ → List ℕ → PathArgs → Option Match
  braces_can_handle uri request args =
      if bytes_eq uri request
      then some (answered true args)
      else walk_uri (length uri + 1) uri request 0 0 0 args

-- `HTTP_ANY`
abbrev pub http_any : ℕ
http_any = 255

-- A RequestHandler: its virtual `canHandle`, as the answer that it gives to a method and an address. The
-- path arguments that one may store in itself are left out.
pub record Handler : Type 0 where
  pub can_handle : ℕ → List ℕ → Bool

-- A FunctionRequestHandler for a plain address.
unfoldable pub function_handler : List ℕ → ℕ → Handler
function_handler plain its_method = record {
  can_handle = λ method uri.
      if its_method == http_any
      then bytes_eq plain uri
      else (if its_method == method then bytes_eq plain uri else false);
}

-- `_addRequestHandler`: to the end of the list.
unfoldable pub add_request_handler : Handler → List Handler → List Handler
add_request_handler h hs = hs ++ h ∷ []

-- The loop over the handlers in _parseRequest.
unfoldable pub find_handler : List Handler → ℕ → List ℕ → Option Handler
find_handler [] method uri = none
find_handler (h ∷ hs) method uri =
    let rest = find_handler hs method uri in if h.can_handle method uri then some h else rest

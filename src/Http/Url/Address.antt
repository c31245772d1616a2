-- ===== src/Http/Url/Address.antt =====
-- A URL is taken apart into the parts that it was made of.
use idf_custom_arduino.Base.{
  ℕ, ◌+◌, ◌%◌, ◌^◌, ◌≡◌, sym, ap, ap₂, ◌∙◌, arith, Bool, Option, none, some, List, ◌∷◌, ◌++◌,
  bytes_eq, bytes_eq_refl, length, drop, drop-append_length, if◌then◌else◌,
}
use idf_custom_arduino.WebServer.Arguments.Fields.{find, IsStrings}
use idf_custom_arduino.WebServer.Arguments.Parsed.{drop-drop}
use idf_custom_arduino.WebServer.Request.Lines.{first_index, front_part}
use idf_custom_arduino.Http.Url.{
  Texts, Target, cut, host_and_port, credentials, authority, begin_internal,
}

pub record IsTexts (txt : Texts) : Type 0 where
  pub strings_lem : IsStrings txt.strings
  pub remove_front_lem : (s : List ℕ) (n : ℕ) → txt.remove_front s n ≡ drop n s

-- A URL with all parts.
abbrev pub url_of : List ℕ → List ℕ → List ℕ → List ℕ → List ℕ → List ℕ
url_of protocol login host port path =
    protocol ++ 58 ∷ 47 ∷ 47 ∷ ((login ++ 64 ∷ (host ++ 58 ∷ port)) ++ 47 ∷ path)

module _ (txt : Texts) (law : IsTexts txt) where
  removed : (a r : List ℕ) (c : ℕ) → txt.remove_front (a ++ c ∷ r) (length a + 1) ≡ r
  removed a r c =
      law.remove_front_lem (a ++ c ∷ r) (length a + 1)
      ∙ sym (drop-drop 1 (length a) (a ++ c ∷ r))
      ∙ ap (drop 1) (drop-append_length a (c ∷ r))

  cut_at : (a r : List ℕ) (c : ℕ) → find c a ≡ none → cut txt (a ++ c ∷ r) c ≡ some (a, r)
  cut_at a r c h =
      let i = first_index txt.strings law.strings_lem c a r h in
      let f = front_part txt.strings law.strings_lem a (c ∷ r) in
      let b = removed a r c in
      ap
        (λ (o : Option ℕ). elim o as (λ z. Option (List ℕ × List ℕ)) [
          | none ↦ none
          | some i ↦
              some (
                txt.strings.substring (a ++ c ∷ r) 0 (some i),
                txt.remove_front (a ++ c ∷ r) (i + 1),
              )
        ])
        i
      ∙ ap₂ (λ x y. some (x, y)) f b

  authority_at : (a r : List ℕ) → find 47 a ≡ none → authority txt (a ++ 47 ∷ r) ≡ (a, 47 ∷ r)
  unfolding authority
  authority_at a r h =
      let i = first_index txt.strings law.strings_lem 47 a r h in
      let f = front_part txt.strings law.strings_lem a (47 ∷ r) in
      let b = law.remove_front_lem (a ++ 47 ∷ r) (length a) ∙ drop-append_length a (47 ∷ r) in
      ground (arith, i, f, b)

  -- A URL made of the expected protocol, credentials, a host, a port and an address is taken apart
  -- by beginInternal into just these, the port as the low 16 bits of its number, if the protocol
  -- and the host have no colon, the credentials no at sign, and none of what stands before the
  -- address a slash. The functions of String behave as documented.
  pub begin_internal-url_of :
      (protocol login host port path : List ℕ)
      → find 58 protocol ≡ none
      → find 64 login ≡ none
      → find 58 host ≡ none
      → find 47 (login ++ 64 ∷ (host ++ 58 ∷ port)) ≡ none
      → begin_internal txt (url_of protocol login host port path) protocol
        ≡ some (record {
          protocol = protocol;
          authorization = some login;
          host = host;
          port = some (txt.to_int port % 2 ^ 16);
          uri = 47 ∷ path;
        })
  unfolding begin_internal credentials host_and_port
  begin_internal-url_of protocol login host port path p l h s =
      let url = url_of protocol login host port path in
      let rest = (login ++ 64 ∷ (host ++ 58 ∷ port)) ++ 47 ∷ path in
      let i = first_index txt.strings law.strings_lem 58 protocol (47 ∷ 47 ∷ rest) p in
      let f = front_part txt.strings law.strings_lem protocol (58 ∷ 47 ∷ 47 ∷ rest) in
      let b : txt.remove_front url (length protocol + 3) ≡ rest =
        law.remove_front_lem url (length protocol + 3)
        ∙ sym (drop-drop 3 (length protocol) url)
        ∙ ap (drop 3) (drop-append_length protocol (58 ∷ 47 ∷ 47 ∷ rest)) in
      let a : authority txt (txt.remove_front url (length protocol + 3))
          ≡ (login ++ 64 ∷ (host ++ 58 ∷ port), 47 ∷ path) =
        ap (authority txt) b ∙ authority_at (login ++ 64 ∷ (host ++ 58 ∷ port)) path s in
      let c = cut_at login (host ++ 58 ∷ port) 64 l in
      let d = cut_at host port 58 h in
      let make : List ℕ → Option (List ℕ) → List ℕ × Option ℕ → List ℕ → Target = λ pr au hp uri.
        record { protocol = pr; authorization = au; host = hp.0; port = hp.1; uri = uri } in
      let parts : Bool → List ℕ → List ℕ × List ℕ → Option Target = λ t pr au.
        let k = credentials txt au.0 in
        if t then some (make pr k.0 (host_and_port txt k.1) au.1) else none in
      let start : ℕ → Option Target = λ n.
        let pr = txt.strings.substring url 0 (some n) in
        parts (bytes_eq pr protocol) pr (authority txt (txt.remove_front url (n + 3))) in
      let known : credentials txt (login ++ 64 ∷ (host ++ 58 ∷ port))
          ≡ (some login, host ++ 58 ∷ port) =
        ap
          (λ (o : Option (List ℕ × List ℕ)). elim o as (λ z. Option (List ℕ) × List ℕ) [
            | none ↦ (none, login ++ 64 ∷ (host ++ 58 ∷ port))
            | some q ↦ (some q.0, q.1)
          ])
          c in
      let hosted : host_and_port txt (host ++ 58 ∷ port) ≡ (host, some (txt.to_int port % 2 ^ 16)) =
        ap
          (λ (o : Option (List ℕ × List ℕ)). elim o as (λ z. List ℕ × Option ℕ) [
            | none ↦ (host ++ 58 ∷ port, none)
            | some q ↦ (q.0, some (txt.to_int q.1 % 2 ^ 16))
          ])
          d in
      ap (λ (o : Option ℕ). elim o as (λ z. Option Target) [ none ↦ none | some n ↦ start n ]) i
      ∙ ap₂ (λ pr au. parts (bytes_eq pr protocol) pr au) f a
      ∙ ap (λ t. parts t protocol (login ++ 64 ∷ (host ++ 58 ∷ port), 47 ∷ path))
          (bytes_eq_refl protocol)
      ∙ ap
          (λ (k : Option (List ℕ) × List ℕ).
            some (make protocol k.0 (host_and_port txt k.1) (47 ∷ path)))
          known
      ∙ ap (λ hp. some (make protocol (some login) hp (47 ∷ path))) hosted

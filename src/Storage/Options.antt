-- ===== src/Storage/Options.antt =====
-- Connection strings: askar-storage/src/options.rs. The decoding of percent signs and of form data is that of two
-- crates that the source calls: it is a parameter.
mod Tests
use iviadc_aries_askar.Base.{String, ◌&&◌, Option, none, some, List, [], ◌∷◌, ◌==◌, if◌then◌else◌}
use iviadc_aries_askar.Base.Text.{push_str, is_empty, or_default, split_once}
use Prim.Native.Char.{code}

pub record UrlText : Type 0 where
  pub percent_decode : String → String
  pub percent_encode : String → String
  pub form_parse : String → List (String × String)
  pub byte_serialize : String → String

-- The query is a map: a later entry hides an earlier one with the same key, and stands first here.
pub record Options : Type 0 where
  pub scheme : String
  pub user : String
  pub password : String
  pub host : String
  pub path : String
  pub query : List (String × String)
  pub fragment : String

-- `trim_start_matches("//")`
abbrev pub trim_slashes : String → String
trim_slashes String.[] = String.[]
trim_slashes (String.◌∷◌ a String.[]) = String.◌∷◌ a String.[]
trim_slashes (String.◌∷◌ a (String.◌∷◌ b s)) =
    let rest = trim_slashes s in
    if code a == b'/' && code b == b'/' then rest else String.◌∷◌ a (String.◌∷◌ b s)

-- The text before the first slash, and from there on.
abbrev pub split_path : String → String × String
split_path String.[] = ("", "")
split_path (String.◌∷◌ a s) =
    let rest = split_path s in
    if code a == b'/' then ("", String.◌∷◌ a s) else (String.◌∷◌ a rest.0, rest.1)

-- The fold that inserts the entries in turn.
abbrev pub insert_all : List (String × String) → List (String × String) → List (String × String)
insert_all [] m = m
insert_all (e ∷ es) m = insert_all es (e ∷ m)

abbrev pub get : String → List (String × String) → Option String
get k [] = none
get k (entry ∷ m) =
    let rest = get k m in if text.Mathlib.Text.◌==◌ entry.0 k then some entry.1 else rest

module _ (x : UrlText) where
  open x use {percent_decode, percent_encode, form_parse, byte_serialize}

  -- The scheme, and what stands behind it.
  unfoldable pub split_scheme : String → String × String
  split_scheme uri =
      let (scheme, remain) = split_once b':' uri in
      elim remain [
        | none ↦ ("", uri)
        | some r ↦ if is_empty scheme then ("", uri) else (scheme, trim_slashes r)
      ]

  -- User, password, and the host with the path.
  unfoldable pub split_user : String → String × String × String
  split_user text =
      let (user_pass, rest) = split_once b'@' text in
      let (user, pass) = split_once b':' user_pass in
      elim rest [
        | none ↦ ("", "", user_pass)
        | some host ↦ (percent_decode user, percent_decode (or_default pass), host)
      ]

  unfoldable pub parse_uri : String → Options
  parse_uri text =
      let (uri, fragment) = split_once b'#' text in
      let (scheme, host_and_query) = split_scheme uri in
      let (authority, query) = split_once b'?' host_and_query in
      let (user, password, address) = split_user authority in
      let (host, path) = split_path address in
      record {
        scheme = percent_decode scheme;
        user = user;
        password = password;
        host = percent_decode host;
        path = percent_decode path;
        query = elim query [ none ↦ [] | some q ↦ insert_all (form_parse q) [] ];
        fragment = percent_decode (or_default fragment);
      }

  -- `into_uri`, for the order of the entries in which the map yields them.
  unfoldable pub push_query : List (String × String) → String → String
  push_query [] rest = rest
  push_query (entry ∷ entries) rest =
      push_str (byte_serialize entry.0)
        (push_str "=" (push_str (byte_serialize entry.1) (push_query entries rest)))

  unfoldable pub into_uri : Options → String
  into_uri o =
      let fragment = if is_empty o.fragment then "" else push_str "#" (percent_encode o.fragment) in
      let query : String = elim o.query [
        | [] ↦ fragment
        | e ∷ es ↦ push_str "?" (push_query (e ∷ es) fragment)
      ] in
      let address = push_str o.host (push_str o.path query) in
      let authority =
        if is_empty o.user && is_empty o.password
        then address
        else push_str (percent_encode o.user)
            (push_str ":" (push_str (percent_encode o.password) (push_str "@" address))) in
      if is_empty o.scheme
      then authority
      else push_str (percent_encode o.scheme) (push_str "://" authority)

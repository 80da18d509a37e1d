-- ===== src/Storage/Wql/Json.antt =====
-- Queries as JSON: `to_value`, `parse_query` and the `Deserialize` instance of
-- askar-storage/src/wql/query.rs. A JSON value is what serde_json hands over; a map is the list of its
-- fields in the order in which serde_json iterates, and a number is its text.
mod RoundTrip
mod Tests
use iviadc_aries_askar.Base.{
  String, Bool, Option, none, some, List, [], ◌∷◌, map, if◌then◌else◌, length, Result, ok, err,
  ◌>>=◌,
}
use text.Mathlib.Text.{◌==◌ as str_eq}
use iviadc_aries_askar.Storage.Wql.Query.{
  AbstractQuery, QueryList, Query, and, or, negate, eq, neq, gt, gte, lt, lte, like, is_in, exist,
  nil, cons,
}

mutual
  pub data Json : Type 0 where
    null : Json
    bool : Bool → Json
    number string : String → Json
    array : Items → Json
    object : Fields → Json

  pub data Items : Type 0 where
    no_items : Items
    item : Json → Items → Items

  pub data Fields : Type 0 where
    no_fields : Fields
    field : String → Json → Fields → Fields

-- `json!({ key: value })`
abbrev pub single : String → Json → Fields
single k v = field k v no_fields

abbrev pub strings : List String → Items
strings [] = no_items
strings (s ∷ ss) = item (string s) (strings ss)

module _ {ℓ} {K : Type ℓ} (name : K → String) where
  -- A comparison other than `Eq`.
  unfoldable pub comparison : String → K → Json → Fields
  comparison op k v = single (name k) (object (single op v))

unfoldable mutual
  unfolding comparison

  -- The fields of the object that `to_value` makes; `name` is the conversion of a name to a string.
  pub to_fields {ℓ} : {K : Type ℓ} → (K → String) → AbstractQuery K String → Fields
  to_fields name (eq k v) = single (name k) (string v)
  to_fields name (neq k v) = comparison name "$neq" k (string v)
  to_fields name (gt k v) = comparison name "$gt" k (string v)
  to_fields name (gte k v) = comparison name "$gte" k (string v)
  to_fields name (lt k v) = comparison name "$lt" k (string v)
  to_fields name (lte k v) = comparison name "$lte" k (string v)
  to_fields name (like k v) = comparison name "$like" k (string v)
  to_fields name (is_in k vs) = comparison name "$in" k (array (strings vs))
  to_fields name (exist ks) = single "$exist" (array (strings (map name ks)))
  to_fields name (and nil) = no_fields
  to_fields name (and (cons q qs)) =
      single "$and" (array (item (object (to_fields name q)) (to_items name qs)))
  to_fields name (or nil) = no_fields
  to_fields name (or (cons q qs)) =
      single "$or" (array (item (object (to_fields name q)) (to_items name qs)))
  to_fields name (negate q) = single "$not" (object (to_fields name q))

  pub to_items {ℓ} : {K : Type ℓ} → (K → String) → QueryList K String → Items
  to_items name nil = no_items
  to_items name (cons q qs) = item (object (to_fields name q)) (to_items name qs)

unfoldable pub to_value {ℓ} : {K : Type ℓ} → (K → String) → AbstractQuery K String → Json
unfolding to_fields
to_value name q = object (to_fields name q)

-- The keys that `parse_operator` singles out.
pub data Keyword : Type 0 where
  k_and k_or k_not k_exist other : Keyword

unfoldable pub keyword : String → Keyword
keyword key =
    if str_eq key "$and"
    then k_and
    else if str_eq key "$or"
    then k_or
    else if str_eq key "$not"
    then k_not
    else if str_eq key "$exist"
    then k_exist
    else other

-- The loops that take strings out of an array; `message` is the error at any other value.
unfoldable pub parse_strings : String → Items → Result (List String) String
parse_strings message no_items = ok []
parse_strings message (item (string s) vs) = do ss ← parse_strings message vs; ok (s ∷ ss)
parse_strings message (item _ vs) = err message

abbrev pub msg_and : String
msg_and = "$and must be array of JSON objects"

abbrev pub msg_or : String
msg_or = "$or must be array of JSON objects"

abbrev pub msg_not : String
msg_not = "$not must be JSON object"

abbrev pub msg_exist : String
msg_exist = "$exist must be used with a string or array of strings"

-- An arm of `parse_single_operator` that wants a string.
unfoldable pub string_operator :
    (String → String → Query) → String → String → Json → Result Query String
string_operator op message key (string value) = ok (op key value)
string_operator op message key _ = err message

unfoldable pub in_operator : String → Json → Result Query String
unfolding parse_strings
in_operator key (array values) = do
  vs ← parse_strings "$in must be used with array of strings" values
  ok (is_in key vs)
in_operator key _ = err "$in must be used with array of strings"

unfoldable pub parse_single_operator : String → String → Json → Result Query String
unfolding string_operator in_operator
parse_single_operator name key value =
    if str_eq name "$neq"
    then string_operator neq "$neq must be used with string" key value
    else if str_eq name "$gt"
    then string_operator gt "$gt must be used with string" key value
    else if str_eq name "$gte"
    then string_operator gte "$gte must be used with string" key value
    else if str_eq name "$lt"
    then string_operator lt "$lt must be used with string" key value
    else if str_eq name "$lte"
    then string_operator lte "$lte must be used with string" key value
    else if str_eq name "$like"
    then string_operator like "$like must be used with string" key value
    else if str_eq name "$in"
    then in_operator key value
    else err "Unknown operator"

-- The last arms: a map of one operator.
unfoldable pub parse_field_object : String → Fields → Result (Option Query) String
unfolding parse_single_operator
parse_field_object key (field name value no_fields) = do
  q ← parse_single_operator name key value
  ok (some q)
parse_field_object key _ = err "value must be JSON object of length 1"

unfoldable pub parse_exist : Items → Result (Option Query) String
unfolding parse_strings
parse_exist no_items = ok none
parse_exist (item v vs) = do ks ← parse_strings msg_exist (item v vs); ok (some (exist ks))

-- The end of `parse_query`: one operator stands for itself.
unfoldable pub join_operators : QueryList String String → Query
join_operators (cons q nil) = q
join_operators operators = and operators

-- One step of the loop of `parse_query`.
unfoldable pub push_operator :
    Result (Option Query) String
    → Result (QueryList String String) String
    → Result (QueryList String String) String
push_operator (err e) rest = err e
push_operator (ok none) rest = rest
push_operator (ok (some q)) rest = do qs ← rest; ok (cons q qs)

-- `parse_operator key value` is `parse_at (keyword key) key value`. Lists of operators are empty
-- exactly where the JSON arrays are.
unfoldable mutual
  unfolding keyword parse_field_object parse_exist join_operators push_operator

  pub parse_at : Keyword → String → Json → Result (Option Query) String
  parse_at k_and key (array no_items) = ok none
  parse_at k_and key (array (item v vs)) = do
    qs ← parse_list_operators (item v vs)
    ok (some (and qs))
  parse_at k_and key _ = err msg_and
  parse_at k_or key (array no_items) = ok none
  parse_at k_or key (array (item v vs)) = do
    qs ← parse_list_operators (item v vs)
    ok (some (or qs))
  parse_at k_or key _ = err msg_or
  parse_at k_not key (object m) = do qs ← parse_operators m; ok (some (negate (join_operators qs)))
  parse_at k_not key _ = err msg_not
  parse_at k_exist key (string k) = ok (some (exist (k ∷ [])))
  parse_at k_exist key (array vs) = parse_exist vs
  parse_at k_exist key _ = err msg_exist
  parse_at other key (string v) = ok (some (eq key v))
  parse_at other key (object m) = parse_field_object key m
  parse_at other key _ = err "Unsupported value"

  -- The loop of `parse_query`.
  pub parse_operators : Fields → Result (QueryList String String) String
  parse_operators no_fields = ok nil
  parse_operators (field key value m) =
      push_operator (parse_at (keyword key) key value) (parse_operators m)

  pub parse_list_operators : Items → Result (QueryList String String) String
  parse_list_operators no_items = ok nil
  parse_list_operators (item (object m) vs) = do
    qs ← parse_operators m
    rest ← parse_list_operators vs
    ok (cons (join_operators qs) rest)
  parse_list_operators (item _ vs) = err "operator must be array of JSON objects"

unfoldable pub parse_operator : String → Json → Result (Option Query) String
unfolding parse_at
parse_operator key value = parse_at (keyword key) key value

unfoldable pub parse_query : Fields → Result Query String
unfolding parse_at
parse_query m = do operators ← parse_operators m; ok (join_operators operators)

-- The two kinds of serde error that the instance raises.
pub data DeError : Type 0 where
  missing_field custom : String → DeError

unfoldable pub not_null : Fields → Fields
not_null no_fields = no_fields
not_null (field k null m) = not_null m
not_null (field k v m) = field k v (not_null m)

unfoldable pub push_restriction : Fields → Items → Items
push_restriction no_fields res = res
push_restriction (field k v m) res = item (object (field k v m)) res

-- The loop over the old restrictions format.
unfoldable pub restrictions : Items → Result Items DeError
unfolding not_null push_restriction
restrictions no_items = ok no_items
restrictions (item (object m) vs) = do res ← restrictions vs; ok (push_restriction (not_null m) res)
restrictions (item _ vs) = err (custom "Restriction is invalid")

abbrev pub map_err {ℓ κ μ} :
    {A : Type ℓ} {E : Type κ} {F : Type μ} → (E → F) → Result A E → Result A F
map_err f (ok a) = ok a
map_err f (err e) = err (f e)

unfoldable pub deserialize : Json → Result Query DeError
unfolding parse_query restrictions
deserialize (object m) = map_err missing_field (parse_query m)
deserialize (array vs) = do
  res ← restrictions vs
  map_err custom (parse_query (single "$or" (array res)))
deserialize _ = err (missing_field "Restriction must be either object or array")

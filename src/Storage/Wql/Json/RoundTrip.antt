-- ===== src/Storage/Wql/Json/RoundTrip.antt =====
-- What `to_value` of wql/query.rs writes, `deserialize` reads back.
use iviadc_aries_askar.Base.{String, ◌≡◌, refl, List, [], ◌∷◌, map, ok}
use iviadc_aries_askar.Storage.Wql.Query.{
  QueryList, Query, and, or, negate, eq, neq, gt, gte, lt, lte, like, is_in, exist, nil, cons,
}
use iviadc_aries_askar.Storage.Wql.Json.{
  msg_exist, strings, to_fields, to_items, to_value, k_and, k_or, k_not, k_exist, other, keyword,
  parse_strings, parse_at, parse_operators, parse_list_operators, parse_query, join_operators,
  deserialize,
}

-- The names in a query that may be written: none is a keyword of the format.
abbrev IsPlain : String → Type 0
IsPlain k = keyword k ≡ other

abbrev mutual
  pub HasPlainNames : Query → Type 0
  HasPlainNames (and qs) = HavePlainNames qs
  HasPlainNames (or qs) = HavePlainNames qs
  HasPlainNames (negate q) = HasPlainNames q
  HasPlainNames (eq k v) = IsPlain k
  HasPlainNames (neq k v) = IsPlain k
  HasPlainNames (gt k v) = IsPlain k
  HasPlainNames (gte k v) = IsPlain k
  HasPlainNames (lt k v) = IsPlain k
  HasPlainNames (lte k v) = IsPlain k
  HasPlainNames (like k v) = IsPlain k
  HasPlainNames (is_in k vs) = IsPlain k
  HasPlainNames (exist ks) = Unit

  pub HavePlainNames : QueryList String String → Type 0
  HavePlainNames nil = Unit
  HavePlainNames (cons q qs) = HasPlainNames q × HavePlainNames qs

-- The format has one text for the empty conjunction, the empty disjunction and the empty test of presence.
unfoldable mutual
  pub canonical : Query → Query
  canonical (and qs) = and (canonical_list qs)
  canonical (or nil) = and nil
  canonical (or (cons q qs)) = or (cons (canonical q) (canonical_list qs))
  canonical (negate q) = negate (canonical q)
  canonical (exist []) = and nil
  canonical q = q

  pub canonical_list : QueryList String String → QueryList String String
  canonical_list nil = nil
  canonical_list (cons q qs) = cons (canonical q) (canonical_list qs)

abbrev same_name : String → String
same_name k = k

map-same_name : (ks : List String) → map same_name ks ≡ ks
map-same_name [] = refl
map-same_name (k ∷ ks) = rw (map-same_name ks)

parse_strings-strings :
    (message : String) (ss : List String) → parse_strings message (strings ss) ≡ ok ss
unfolding parse_strings
parse_strings-strings message [] = refl
parse_strings-strings message (s ∷ ss) = rw (parse_strings-strings message ss)

keyword_and : keyword "$and" ≡ k_and
unfolding keyword
keyword_and = refl

keyword_or : keyword "$or" ≡ k_or
unfolding keyword
keyword_or = refl

keyword_not : keyword "$not" ≡ k_not
unfolding keyword
keyword_not = refl

keyword_exist : keyword "$exist" ≡ k_exist
unfolding keyword
keyword_exist = refl

-- What the loop of `parse_query` makes of the fields of a query.
abbrev Reads : Query → Type 0
Reads q =
    (qs : QueryList String String) × (parse_operators (to_fields same_name q) ≡ ok qs)
    × (join_operators qs ≡ canonical q)

mutual
  unfolding parse_at to_fields canonical

  to_fields-Reads : (q : Query) → HasPlainNames q → Reads q
  to_fields-Reads (eq k v) h = (cons (eq k v) nil, rw h, refl)
  to_fields-Reads (neq k v) h = (cons (neq k v) nil, rw h, refl)
  to_fields-Reads (gt k v) h = (cons (gt k v) nil, rw h, refl)
  to_fields-Reads (gte k v) h = (cons (gte k v) nil, rw h, refl)
  to_fields-Reads (lt k v) h = (cons (lt k v) nil, rw h, refl)
  to_fields-Reads (lte k v) h = (cons (lte k v) nil, rw h, refl)
  to_fields-Reads (like k v) h = (cons (like k v) nil, rw h, refl)
  to_fields-Reads (is_in k vs) h = (
    cons (is_in k vs) nil,
    rw (h, parse_strings-strings "$in must be used with array of strings" vs),
    refl,
  )
  to_fields-Reads (exist []) h = (nil, refl, refl)
  to_fields-Reads (exist (k ∷ ks)) h =
      (cons (exist (k ∷ ks)) nil, rw (map-same_name ks, parse_strings-strings msg_exist ks), refl)
  to_fields-Reads (and nil) h = (nil, refl, refl)
  to_fields-Reads (and (cons q qs)) (h, hs) =
      let (ops, e, j) = to_fields-Reads q h in
      (
        cons (and (cons (canonical q) (canonical_list qs))) nil,
        rw (e, j, to_items-Reads qs hs),
        refl,
      )
  to_fields-Reads (or nil) h = (nil, refl, refl)
  to_fields-Reads (or (cons q qs)) (h, hs) =
      let (ops, e, j) = to_fields-Reads q h in
      (
        cons (or (cons (canonical q) (canonical_list qs))) nil,
        rw (e, j, to_items-Reads qs hs),
        refl,
      )
  to_fields-Reads (negate q) h =
      let (ops, e, j) = to_fields-Reads q h in (cons (negate (canonical q)) nil, rw (e, j), refl)

  to_items-Reads :
      (qs : QueryList String String)
      → HavePlainNames qs
      → parse_list_operators (to_items same_name qs) ≡ ok (canonical_list qs)
  to_items-Reads nil h = refl
  to_items-Reads (cons q qs) (h, hs) =
      let (ops, e, j) = to_fields-Reads q h in rw (e, j, to_items-Reads qs hs)

-- For every query whose names are none of the four keywords of the format (`$and`, `$or`, `$not`,
-- `$exist`), reading the JSON value that `to_value` makes of it gives the query back, but for the empty
-- disjunctions and the empty tests of presence, which come back as empty conjunctions.
pub deserialize-to_value :
    (q : Query) → HasPlainNames q → deserialize (to_value same_name q) ≡ ok (canonical q)
unfolding deserialize to_value parse_query
deserialize-to_value q h = let (ops, e, j) = to_fields-Reads q h in rw (e, j)

-- ===== src/Storage/Wql/Tags/Name.antt =====
-- Tag names and `tag_query` of wql/tags.rs.
use iviadc_aries_askar.Base.{
  String, ◌≡◌, refl, sym, ap, inl, inr, List, [], ◌∷◌, map, ◌==◌, ==_iff, Bool-cases, Result, ok,
  collect,
}
use Prim.Native.Char.{code}
use text.Mathlib.TextEquality.{Char-path}
use iviadc_aries_askar.Storage.Wql.Query.{
  QueryList, Query, and, or, negate, eq, neq, gt, gte, lt, lte, like, is_in, exist, nil, cons,
  map_query, map_list,
}
use iviadc_aries_askar.Storage.Wql.Json.{to_fields, to_items, to_value, object}
use iviadc_aries_askar.Storage.Wql.Tags.{
  TagName, TagQuery, strip_tilde, tag_name, to_string, tag_query,
}

-- The text of the name that was parsed is the text that it was parsed from.
to_string-tag_name : (k : String) → to_string (tag_name k) ≡ k
unfolding to_string tag_name
to_string-tag_name String.[] = refl
to_string-tag_name (String.◌∷◌ c s) = elim (Bool-cases (code c == b'~')) [
  | inl e ↦
      rw (to_string, tag_name, strip_tilde, e)
        (ap (λ d. String.◌∷◌ d s) (sym (Char-path c "~" ((==_iff (code c) b'~').0 e))))
  | inr e ↦ rw (to_string, tag_name, strip_tilde, e)
]

map-to_string : (ks : List String) → map to_string (map tag_name ks) ≡ map (λ k. k) ks
map-to_string [] = refl
map-to_string (k ∷ ks) = rw (to_string-tag_name k, map-to_string ks)

module _ {E : Type 0} where
  abbrev SameFields : Query → Result TagQuery E → Type 0
  SameFields q o = (r : TagQuery) × (o ≡ ok r) × (to_fields to_string r ≡ to_fields (λ k. k) q)

  abbrev SameItems : QueryList String String → Result (QueryList TagName String) E → Type 0
  SameItems qs o =
      (rs : QueryList TagName String) × (o ≡ ok rs) × (to_items to_string rs ≡ to_items (λ k. k) qs)

  collect_names :
      (ks : List String) → collect {E = E} (λ k. ok (tag_name k)) ks ≡ ok (map tag_name ks)
  unfolding collect
  collect_names [] = refl
  collect_names (k ∷ ks) = rw (collect_names ks)

  collect_values : (vs : List String) → collect {E = E} (λ v. ok v) vs ≡ ok vs
  unfolding collect
  collect_values [] = refl
  collect_values (v ∷ vs) = rw (collect_values vs)

  abbrev rename : Query → Result TagQuery E
  rename q = map_query (λ k. ok (tag_name k)) (λ k v. ok v) q

  abbrev rename_list : QueryList String String → Result (QueryList TagName String) E
  rename_list qs = map_list (λ k. ok (tag_name k)) (λ k v. ok v) qs

  mutual
    unfolding map_query to_fields

    rename-SameFields : (q : Query) → SameFields q (rename q)
    rename-SameFields (eq k v) = (eq (tag_name k) v, refl, rw (to_string-tag_name k))
    rename-SameFields (neq k v) = (neq (tag_name k) v, refl, rw (to_string-tag_name k))
    rename-SameFields (gt k v) = (gt (tag_name k) v, refl, rw (to_string-tag_name k))
    rename-SameFields (gte k v) = (gte (tag_name k) v, refl, rw (to_string-tag_name k))
    rename-SameFields (lt k v) = (lt (tag_name k) v, refl, rw (to_string-tag_name k))
    rename-SameFields (lte k v) = (lte (tag_name k) v, refl, rw (to_string-tag_name k))
    rename-SameFields (like k v) = (like (tag_name k) v, refl, rw (to_string-tag_name k))
    rename-SameFields (is_in k vs) =
        (is_in (tag_name k) vs, rw (collect_values vs), rw (to_string-tag_name k))
    rename-SameFields (exist ks) =
        (exist (map tag_name ks), rw (collect_names ks), rw (map-to_string ks))
    rename-SameFields (and nil) = (and nil, refl, refl)
    rename-SameFields (and (cons q qs)) =
        let (r, e, h) = rename-SameFields q in
        let (rs, es, hs) = rename_list-SameItems qs in (and (cons r rs), rw (e, es), rw (h, hs))
    rename-SameFields (or nil) = (or nil, refl, refl)
    rename-SameFields (or (cons q qs)) =
        let (r, e, h) = rename-SameFields q in
        let (rs, es, hs) = rename_list-SameItems qs in (or (cons r rs), rw (e, es), rw (h, hs))
    rename-SameFields (negate q) = let (r, e, h) = rename-SameFields q in (negate r, rw e, rw h)

    rename_list-SameItems : (qs : QueryList String String) → SameItems qs (rename_list qs)
    rename_list-SameItems nil = (nil, refl, refl)
    rename_list-SameItems (cons q qs) =
        let (r, e, h) = rename-SameFields q in
        let (rs, es, hs) = rename_list-SameItems qs in (cons r rs, rw (e, es), rw (h, hs))

-- Every query becomes a tag query, without an error, and the tag query is written as the same JSON value as
-- the query itself: the marks of plaintext names come back.
pub to_value-tag_query :
    (q : Query)
    → (r : TagQuery) × (tag_query q ≡ ok r) × (to_value to_string r ≡ to_value (λ k. k) q)
unfolding tag_query to_value
to_value-tag_query q = let (r, e, h) = rename-SameFields {E = ⊥} q in (r, rw e, ap object h)

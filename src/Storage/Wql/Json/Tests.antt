-- ===== src/Storage/Wql/Json/Tests.antt =====
-- Instances of the theorem on the JSON format of wql/query.rs, and runs that the source's tests have.
use iviadc_aries_askar.Base.{◌≡◌, refl, [], ◌∷◌, ok, err}
use iviadc_aries_askar.Storage.Wql.Query.{Query, and, or, negate, eq, gt, is_in, exist, nil, cons}
use iviadc_aries_askar.Storage.Wql.Json.{
  Json, null, string, array, object, no_items, item, no_fields, field, single, to_value, Keyword,
  keyword, deserialize, missing_field,
}
use iviadc_aries_askar.Storage.Wql.Json.RoundTrip.{deserialize-to_value, canonical}

abbrev sample : Query
sample = and (
    cons (or (cons (eq "name" "alice") (cons (is_in "role" ("dev" ∷ "ops" ∷ [])) nil)))
      (cons (negate (gt "age" "30")) (cons (exist ("email" ∷ [])) nil)))

name_plain : keyword "name" ≡ Keyword.other
unfolding keyword
name_plain = refl

role_plain : keyword "role" ≡ Keyword.other
unfolding keyword
role_plain = refl

age_plain : keyword "age" ≡ Keyword.other
unfolding keyword
age_plain = refl

deserialize-to_value_example : deserialize (to_value (λ k. k) sample) ≡ ok (canonical sample)
deserialize-to_value_example =
    deserialize-to_value sample ((name_plain, (role_plain, tt)), (age_plain, (tt, tt)))

canonical-sample : canonical sample ≡ sample
unfolding canonical
canonical-sample = refl

reads_empty_or : deserialize (object (single "$or" (array no_items))) ≡ ok (and nil)
unfolding deserialize
reads_empty_or = refl

reads_empty_not : deserialize (object (single "$not" (object no_fields))) ≡ ok (negate (and nil))
unfolding deserialize
reads_empty_not = refl

-- The old format: the nulls of a restriction are dropped.
reads_restrictions :
    deserialize (array (item (object (field "a" (string "1") (single "b" null))) no_items))
    ≡ ok (or (cons (eq "a" "1") nil))
unfolding deserialize
reads_restrictions = refl

refuses_number :
    deserialize (object (single "a" (Json.number "1"))) ≡ err (missing_field "Unsupported value")
unfolding deserialize
refuses_number = refl

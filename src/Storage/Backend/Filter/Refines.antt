-- ===== src/Storage/Backend/Filter/Refines.antt =====
-- What `encode_tag_filter` gives, by the encoder that writes each argument where it belongs.
use iviadc_aries_askar.Base.{
  ℕ, ◌+◌, ◌^◌, ◌<◌, ◌≡◌, refl, false, Option, none, some, List, [], arith, length, Bytes, Result,
  ok, err, ◌>>=◌,
}
use iviadc_aries_askar.Storage.Error.{ErrorKind}
use iviadc_aries_askar.Storage.Wql.Query.{Query, map_names}
use iviadc_aries_askar.Storage.Wql.Tags.{
  validate_tag_query, unwrap, tag_name, tag_query, encode_query,
}
use iviadc_aries_askar.Storage.Wql.Template.{Template, bound, number}
use iviadc_aries_askar.Storage.Wql.Sql.{sql_encoder}
use iviadc_aries_askar.Storage.Wql.Sql.Inline.{inline_encoder}
use iviadc_aries_askar.Storage.Protect.ProfileKey.{Primitives, ProfileKeyImpl}
use iviadc_aries_askar.Storage.Backend.Placeholders.Fills.{replace-Fills}
use iviadc_aries_askar.Storage.Backend.Filter.{
  Filtered, number_filter, enc_name, enc_value, encode_tag_filter,
}
use iviadc_aries_askar.Storage.Backend.Filter.Placed.{query-Placed, sql, inline}
use iviadc_aries_askar.Storage.Backend.Filter.Agree.{Agree, Placed}

-- The text of a template with its placeholders numbered behind `offset` arguments, and the arguments.
unfoldable pub number_inline :
    (ℕ → Bytes) → ℕ → Result (Option Template × Unit {0}) ErrorKind → Filtered
unfolding number bound
number_inline show offset (err e) = some (err e)
number_inline show offset (ok (none, s)) = some (ok none)
number_inline show offset (ok (some t, s)) = some (ok (some (number show (offset + 1) t, bound t)))

-- The tag query of a filter, its arguments in place.
unfoldable pub inline_filter :
    (x : Primitives) → ProfileKeyImpl x → Query → Result (Option Template × Unit {0}) ErrorKind
unfolding tag_query encode_query inline_encoder
inline_filter x pk query = do
  q ← tag_query query
  encode_query (inline_encoder (enc_name x pk) (enc_value x pk) x.into_bytes) q tt

number_filter-Agree :
    (show : ℕ → Bytes) (offset : ℕ) (r : Result (Option Bytes × List Bytes) ErrorKind)
    (r' : Result (Option Template × Unit {0}) ErrorKind)
    → Agree (Placed show (offset + 1) []) r r'
    → ((t : Template) → r' ≡ ok (some t, tt) → offset + 1 + length (bound t) < 2 ^ 63)
    → number_filter show offset r ≡ number_inline show offset r'
unfolding number_filter number_inline
number_filter-Agree show offset (ok (none, s)) (ok (none, u)) h fits = refl
number_filter-Agree show offset (ok (some c, s)) (ok (some t, u)) (e, f) fits =
    rw (number_filter, replace-Fills show (offset + 1) c t f (fits t refl), e) refl
number_filter-Agree show offset (err e) (err e') h fits = rw h refl
number_filter-Agree show offset (ok (none, s)) (ok (some t, u)) h fits = absurd h
number_filter-Agree show offset (ok (some c, s)) (ok (none, u)) h fits = absurd h
number_filter-Agree show offset (ok _) (err e) h fits = absurd h
number_filter-Agree show offset (err e) (ok _) h fits = absurd h

-- The clause of a tag filter has a placeholder for each argument, exactly where the query wants that argument, numbered in the
-- order of the arguments from the first free number on; the filter's arguments are these, and an error or an empty
-- clause comes out as it is. The numbers stay below the largest `i64`.
pub encode_tag_filter-inline_filter :
    (x : Primitives) (pk : ProfileKeyImpl x) (show : ℕ → Bytes) (query : Query) (offset : ℕ)
    → ((t : Template)
        → inline_filter x pk query ≡ ok (some t, tt)
        → offset + 1 + length (bound t) < 2 ^ 63)
    → encode_tag_filter x pk show (some query) offset
      ≡ number_inline show offset (inline_filter x pk query)
unfolding encode_tag_filter inline_filter encode_query tag_query validate_tag_query sql inline
encode_tag_filter-inline_filter x pk show query offset fits =
    let q = unwrap (map_names (λ k. ok (tag_name k)) query) in
    let names = enc_name x pk in
    let values = enc_value x pk in
    number_filter-Agree show offset (encode_query (sql_encoder names values x.into_bytes) q [])
      (encode_query (inline_encoder names values x.into_bytes) q tt)
      (query-Placed show (offset + 1) (omega arith) names values x.into_bytes q false []) fits

-- ===== src/Storage/Backend/Filter/Tests.antt =====
-- Instances of the theorem on tag filters, and runs of the replacement of placeholders.
use iviadc_aries_askar.Base.{
  ℕ, ◌+◌, ◌^◌, ◌<◌, ◌≡◌, refl, sym, ap, ◌∙◌, Option, none, some, [], ◌∷◌, arith, length, Result, ok,
  err,
}
use iviadc_aries_askar.Base.Decimal.{codes, display, digits}
use iviadc_aries_askar.Storage.Error.{ErrorKind}
use iviadc_aries_askar.Storage.Wql.Query.{Query, and, negate, eq, is_in, cons, nil}
use iviadc_aries_askar.Storage.Wql.Template.{Template, bound}
use iviadc_aries_askar.Storage.Protect.ProfileKey.Tests.{small, profile_key, encode}
use iviadc_aries_askar.Storage.Protect.ProfileKey.{
  encrypt_tag_name, encrypt_tag_value, encrypt_searchable, lift, derive_key_bytes,
}
use iviadc_aries_askar.Crypto.Bits.{xor_into}
use iviadc_aries_askar.Storage.Backend.Placeholders.{
  placeholder, replace_arg_placeholders, replace_from,
}
use iviadc_aries_askar.Storage.Backend.Filter.{encode_tag_filter}
use iviadc_aries_askar.Storage.Backend.Filter.Refines.{
  inline_filter, number_inline, encode_tag_filter-inline_filter,
}

-- As in the source's test of `replace_arg_placeholders`.
replaces :
    replace_arg_placeholders placeholder 3 (codes "This $$ is $10 a $$ string!")
    ≡ some (codes "This ?3 is ?12 a ?5 string!")
unfolding replace_arg_placeholders replace_from placeholder display digits
replaces = refl

abbrev pub query : Query
query = and (cons (eq "~plaintag" "plainval") (cons (negate (is_in "enctag" ("a" ∷ "b" ∷ []))) nil))

-- How many arguments a result has.
args_of : Result (Option Template × Unit {0}) ErrorKind → ℕ
args_of (ok (some t, s)) = length (bound t)
args_of (ok (none, s)) = 0
args_of (err e) = 0

five_args : args_of (inline_filter small profile_key query) ≡ 5
unfolding args_of inline_filter bound encrypt_tag_name encrypt_tag_value encrypt_searchable lift
    derive_key_bytes small profile_key encode xor_into
five_args = refl

pub fits :
    (t : Template)
    → inline_filter small profile_key query ≡ ok (some t, tt)
    → 3 + 1 + length (bound t) < 2 ^ 63
unfolding args_of
fits t h = let n : length (bound t) ≡ 5 = ap args_of (sym h) ∙ five_args in omega (arith, n)

encode_tag_filter-inline_filter_example :
    encode_tag_filter small profile_key placeholder (some query) 3
    ≡ number_inline placeholder 3 (inline_filter small profile_key query)
encode_tag_filter-inline_filter_example =
    encode_tag_filter-inline_filter small profile_key placeholder query 3 fits

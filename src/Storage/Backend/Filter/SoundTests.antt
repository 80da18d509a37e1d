-- ===== src/Storage/Backend/Filter/SoundTests.antt =====
-- Instances of the theorems on what a tag filter asks of an entry, with a database that compares bytes for equality.
use iviadc_aries_askar.Base.{
  ℕ, String, ◌≡◌, true, ◌&&◌, Option, none, some, List, [], ◌∷◌, length, take, Bytes, Result, ok,
  err,
}
use iviadc_aries_askar.Storage.Error.{ErrorKind}
use iviadc_aries_askar.Crypto.KeyWrap.{bytes_eq}
use iviadc_aries_askar.Crypto.KeyWrap.Accept.{bytes_eq_sound}
use iviadc_aries_askar.Crypto.CbcHmac.RoundTrip.{bytes_eq_refl}
use iviadc_aries_askar.Storage.Protect.ProfileKey.{
  encrypted, plaintext, EncEntryTag, encrypt_entry_tags,
}
use iviadc_aries_askar.Storage.Protect.ProfileKey.Tests.{small, profile_key, encode}
use iviadc_aries_askar.Storage.Wql.Ops.{CompareOp, as_sql_str, as_sql_str_for_prefix}
use iviadc_aries_askar.Storage.Wql.Query.{Query, and, negate, eq, is_in, exist, cons, nil}
use iviadc_aries_askar.Storage.Wql.Query.Meaning.{Test}
use iviadc_aries_askar.Storage.Wql.Tags
use iviadc_aries_askar.Storage.Wql.Tags.{TagQuery, TagName}
use iviadc_aries_askar.Storage.Wql.Template.{Template, bound}
use iviadc_aries_askar.Storage.Wql.Sql.Predicate.{Compares}
use iviadc_aries_askar.Storage.Wql.Sql.Selects.{PrefixesAgree}
use iviadc_aries_askar.Storage.Backend.Placeholders.{placeholder}
use iviadc_aries_askar.Storage.Backend.Filter.{Filtered, enc_name, enc_value}
use iviadc_aries_askar.Storage.Backend.Filter.Refines.{inline_filter, number_inline}
use iviadc_aries_askar.Storage.Backend.Filter.Sound.{entry_test, Selects}
use iviadc_aries_askar.Storage.Backend.Filter.Tests.{query}

abbrev byte_equal : Compares
byte_equal op a w = text.Mathlib.Text.◌==◌ op "=" && bytes_eq a w

-- Equal values have equal first bytes.
equal_prefixes :
    (op : CompareOp) (a w : Bytes) (pfx_op : String)
    → as_sql_str_for_prefix op ≡ some pfx_op
    → byte_equal (as_sql_str op) a w ≡ true
    → byte_equal pfx_op (take 12 a) (take 12 w) ≡ true
unfolding as_sql_str as_sql_str_for_prefix
equal_prefixes CompareOp.eq a w pfx_op e h =
    let same : a ≡ w = bytes_eq_sound a w h in
    let op : "=" ≡ pfx_op = cc in rw (← op, same) (bytes_eq_refl (take 12 w))
equal_prefixes CompareOp.neq a w pfx_op e h = cc
equal_prefixes CompareOp.gt a w pfx_op e h = cc
equal_prefixes CompareOp.gte a w pfx_op e h = cc
equal_prefixes CompareOp.lt a w pfx_op e h = cc
equal_prefixes CompareOp.lte a w pfx_op e h = cc
equal_prefixes CompareOp.like a w pfx_op e h = cc

agree :
    (rows : List EncEntryTag)
    → PrefixesAgree
        (enc_name small profile_key)
        (enc_value small profile_key)
        encode
        byte_equal
        rows
        rows
agree rows = each rows
  where
    each :
        (rs : List EncEntryTag)
        → PrefixesAgree
            (enc_name small profile_key)
            (enc_value small profile_key)
            encode
            byte_equal
            rows
            rs
    each [] = tt
    each (row ∷ rs) = (λ op v w pfx_op _ _ e h. equal_prefixes op row.value w pfx_op e h, each rs)

abbrev tags_of_entry : Result (List EncEntryTag) ErrorKind → List EncEntryTag
tags_of_entry (ok rows) = rows
tags_of_entry (err e) = []

abbrev rows : List EncEntryTag
rows = tags_of_entry (
    encrypt_entry_tags small profile_key
      (plaintext "plaintag" "plainval" ∷ encrypted "enctag" "c" ∷ []))

abbrev q : TagQuery
q = and (
    cons (eq (Tags.plaintext "plaintag") "plainval")
      (cons (negate (is_in (Tags.encrypted "enctag") ("a" ∷ "b" ∷ []))) nil))

-- What a filter gives, where it gives something.
abbrev given : Filtered → Option (Bytes × List Bytes)
given (some (ok o)) = o
given (some (err e)) = none
given none = none

abbrev out : Option (Bytes × List Bytes)
out = given (number_inline placeholder 3 (inline_filter small profile_key query))

abbrev one_row : List EncEntryTag
one_row = tags_of_entry (encrypt_entry_tags small profile_key (encrypted "a" "1" ∷ []))

abbrev absent : Query
absent = negate (exist ("a" ∷ "c" ∷ []))

-- How many arguments a result has.
count : Result (Option Template × Unit {0}) ErrorKind → ℕ
count (ok (some t, s)) = length (bound t)
count (ok (none, s)) = 0
count (err e) = 0

abbrev absent_out : Option (Bytes × List Bytes)
absent_out = given (number_inline placeholder 0 (inline_filter small profile_key absent))

abbrev judge : Test TagName String
judge = entry_test small profile_key byte_equal one_row

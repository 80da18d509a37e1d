-- ===== src/Storage/Backend/Filter/Sound.antt =====
-- What the text and the arguments that `encode_tag_filter` gives ask of an entry.
use iviadc_aries_askar.Base.{
  ℕ, ◌+◌, ◌^◌, ◌<◌, String, ◌≡◌, Bool, Option, some, List, length, Bytes, ok,
}
use iviadc_aries_askar.Storage.Protect.ProfileKey.{Primitives, ProfileKeyImpl, EncEntryTag}
use iviadc_aries_askar.Storage.Wql.Query.{Query}
use iviadc_aries_askar.Storage.Wql.Query.Meaning.{Test}
use iviadc_aries_askar.Storage.Wql.Tags.{TagName}
use iviadc_aries_askar.Storage.Wql.Template.{Template, bound, number}
use iviadc_aries_askar.Storage.Wql.Sql.Predicate.{Compares, Predicate, print, eval, tag_test}
use iviadc_aries_askar.Storage.Wql.Sql.Selects.{Means}
use iviadc_aries_askar.Storage.Backend.Filter.{enc_name, enc_value}
use iviadc_aries_askar.Storage.Backend.Filter.Refines.{inline_filter}

-- The numbers of a filter's placeholders stay below the largest `i64`.
abbrev pub HasRoom : (x : Primitives) → ProfileKeyImpl x → Query → ℕ → Type 0
HasRoom x pk query offset =
    (t : Template)
    → inline_filter x pk query ≡ ok (some t, tt)
    → offset + 1 + length (bound t) < 2 ^ 63

module _ (x : Primitives) (pk : ProfileKeyImpl x) (compares : Compares)
    (rows : List EncEntryTag) where
  -- What the tests of a query come to for an entry whose encrypted tags are the rows.
  abbrev pub entry_test : Test TagName String
  entry_test = tag_test (enc_name x pk) (enc_value x pk) x.into_bytes compares rows

  -- The filter's text and arguments are those of a predicate that comes to `b` for the entry.
  abbrev pub Selects : (ℕ → Bytes) → ℕ → Option (Bytes × List Bytes) → Bool → Type 0
  Selects show offset o b =
      (p : Predicate) × (o ≡ some (number show (offset + 1) (print p), bound (print p)))
      × (eval compares rows p ≡ b)

  abbrev Reads : Template → Bool → Type 0
  Reads = Means (enc_name x pk) (enc_value x pk) x.into_bytes compares rows

-- ===== src/Storage/Backend/Filter.antt =====
-- Tag filters as SQL with numbered placeholders: `encode_tag_filter` of askar-storage/src/backend/db_utils.rs. `none` is a panic.
mod Clauses
mod Tests
mod Agree
mod Placed
pub mod Refines
pub mod Sound
mod SoundTests
use iviadc_aries_askar.Base.{
  ℕ, zero, suc, ◌+◌, ◌-◌, ◌*◌, ◌/◌, ◌%◌, ◌^◌, ◌≤◌, ◌<◌, bit_xor, bit_or, bit_and, String, ◌≡◌, refl,
  sym, ap, ap₂, ◌∙◌, subst, ◌≢◌, ◌↔◌, ◌⊎◌, inl, inr, Bool, true, false, not, ◌&&◌, ◌||◌, xor,
  Option, none, some, List, [], ◌∷◌, ◌++◌, map, reverse, append-nil, append_assoc, arith, eq_iff,
  ltb, leb, ◌==◌, if◌then◌else◌, ltb→lt, lt→ltb, leb→le, ==_iff, Bool-cases, Option-cases, length,
  get_elem?, take, drop, replicate, length-append, take-append-drop, take-append, drop-append,
  length-take, length-drop, length-replicate, length-map, Bytes, take-append_of, drop-append_of,
  length-append_of, drop-drop, drop-take, take-take, drop-append_le, take-append_le,
  take-append_split, take_all, Result, ok, err, ◌>>=◌, collect, >>=-eq-ok,
}
use iviadc_aries_askar.Storage.Error.{ErrorKind}
use iviadc_aries_askar.Storage.Wql.Query.{Query}
use iviadc_aries_askar.Storage.Wql.Tags.{tag_query, encode_query}
use iviadc_aries_askar.Storage.Wql.Sql.{sql_encoder}
use iviadc_aries_askar.Storage.Protect.ProfileKey.{
  Primitives, ProfileKeyImpl, encrypt_tag_name, encrypt_tag_value,
}
use iviadc_aries_askar.Storage.Backend.Placeholders.{replace_arg_placeholders}

-- What `encode_tag_filter` gives: a clause with its arguments, none, or an error.
abbrev pub Filtered : Type 0
Filtered = Option (Result (Option (Bytes × List Bytes)) ErrorKind)

-- The end of `encode_tag_filter`, with what `encode_query` gave.
unfoldable pub number_filter :
    (ℕ → Bytes) → ℕ → Result (Option Bytes × List Bytes) ErrorKind → Filtered
unfolding replace_arg_placeholders
number_filter show offset (err e) = some (err e)
number_filter show offset (ok (none, args)) = some (ok none)
number_filter show offset (ok (some filter, args)) =
    elim (replace_arg_placeholders show (offset + 1) filter) [
      | none ↦ none
      | some numbered ↦ some (ok (some (numbered, args)))
    ]

module _ (x : Primitives) (pk : ProfileKeyImpl x) where
  -- The closures that encrypt a tag's name and value.
  abbrev pub enc_name : String → Result Bytes ErrorKind
  enc_name name = encrypt_tag_name x pk (x.into_bytes name)

  abbrev pub enc_value : String → Result Bytes ErrorKind
  enc_value value = encrypt_tag_value x pk (x.into_bytes value)

  unfoldable pub encode_tag_filter : (ℕ → Bytes) → Option Query → ℕ → Filtered
  unfolding tag_query encode_query sql_encoder number_filter
  encode_tag_filter show none offset = some (ok none)
  encode_tag_filter show (some query) offset =
      number_filter show offset
        (do q ← tag_query query; encode_query (sql_encoder enc_name enc_value x.into_bytes) q [])

-- ===== src/Storage/Backend/TagText.antt =====
-- The tags of an entry as the databases give them: `decode_tags` of askar-storage/src/backend/db_utils.rs and the text
-- that its queries build. The hex crate's `decode` and the database's `HEX` are parameters.
pub mod RoundTrip
pub mod Tests
use iviadc_aries_askar.Base.{
  ℕ, zero, suc, ◌+◌, ◌-◌, ◌*◌, ◌/◌, ◌%◌, ◌^◌, ◌≤◌, ◌<◌, bit_xor, bit_or, bit_and, String, ◌≡◌, refl,
  sym, ap, ap₂, ◌∙◌, subst, ◌≢◌, ◌↔◌, ◌⊎◌, inl, inr, Bool, true, false, not, ◌&&◌, ◌||◌, xor,
  Option, none, some, List, [], ◌∷◌, ◌++◌, map, reverse, append-nil, append_assoc, arith, eq_iff,
  ltb, leb, ◌==◌, if◌then◌else◌, ltb→lt, lt→ltb, leb→le, ==_iff, Bool-cases, Option-cases, length,
  get_elem?, take, drop, replicate, length-append, take-append-drop, take-append, drop-append,
  length-take, length-drop, length-replicate, length-map, Bytes, take-append_of, drop-append_of,
  length-append_of, drop-drop, drop-take, take-take, drop-append_le, take-append_le,
  take-append_split, take_all, Result, ok, err, ◌>>=◌, collect, >>=-eq-ok,
}
use iviadc_aries_askar.Storage.Protect.ProfileKey.{EncEntryTag}

pub record Hex : Type 0 where
  -- `hex::decode`
  pub decode : Bytes → Option Bytes
  -- `HEX(x)` in SQL
  pub encode : Bytes → Bytes

module _ (x : Hex) where
  -- The hexadecimal name and value of a tag, which ends before a comma or the end.
  unfoldable pub decode_tag : Bool → Bytes → Bytes → Result EncEntryTag (Unit {0})
  decode_tag plaintext name value = elim (x.decode name) [
    | none ↦ err tt
    | some n ↦ elim (x.decode value) [
      | none ↦ err tt
      | some v ↦ ok (record { name = n; value = v; is_plaintext = plaintext })
    ]
  ]

  -- Where the loops of `decode_tags` stand, with what they have read of the tag: before the flag, behind it, in the
  -- name, where `name_end` is 0, or behind the name.
  pub data Position : Type 0 where
    at_flag : Position
    behind_flag : Bool → Position
    in_name : Bool → Bytes → Position
    in_value : Bool → Bytes → Bytes → Position

  -- The loops, one byte at a time.
  unfoldable pub decode_from : Position → Bytes → Result (List EncEntryTag) (Unit {0})
  unfolding decode_tag
  decode_from at_flag [] = ok []
  decode_from at_flag (c ∷ s) = decode_from (behind_flag (c == b'1')) s
  decode_from (behind_flag plaintext) [] = err tt
  decode_from (behind_flag plaintext) (c ∷ s) = decode_from (in_name plaintext []) s
  decode_from (in_name plaintext name) [] = err tt
  decode_from (in_name plaintext name) (c ∷ s) = elim (c == b',') [
    | true ↦ err tt
    | false ↦ elim (c == b':') [
      | true ↦ decode_from (in_value plaintext name []) s
      | false ↦ decode_from (in_name plaintext (name ++ (c ∷ []))) s
    ]
  ]
  decode_from (in_value plaintext name value) [] = do
    tag ← decode_tag plaintext name value
    ok (tag ∷ [])
  decode_from (in_value plaintext name value) (c ∷ s) = elim (c == b',') [
    | true ↦ (do
      tag ← decode_tag plaintext name value
      tags ← decode_from at_flag s
      ok (tag ∷ tags))
    | false ↦ elim (c == b':') [
      | true ↦ err tt
      | false ↦ decode_from (in_value plaintext name (value ++ (c ∷ []))) s
    ]
  ]

  unfoldable pub decode_tags : Bytes → Result (List EncEntryTag) (Unit {0})
  unfolding decode_from
  decode_tags tags = decode_from at_flag tags

  -- `it.plaintext || ':' || HEX(it.name) || ':' || HEX(it.value)`
  unfoldable pub tag_text : EncEntryTag → Bytes
  tag_text tag =
      (if tag.is_plaintext then b'1' else b'0')
      ∷ b':'
      ∷ (x.encode tag.name ++ (b':' ∷ x.encode tag.value))

  -- `GROUP_CONCAT`; of no tags it is NULL, which is read as no bytes.
  unfoldable pub behind_first : List EncEntryTag → Bytes
  unfolding tag_text
  behind_first [] = []
  behind_first (tag ∷ tags) = b',' ∷ (tag_text tag ++ behind_first tags)

  unfoldable pub group_concat : List EncEntryTag → Bytes
  unfolding tag_text behind_first
  group_concat [] = []
  group_concat (tag ∷ tags) = tag_text tag ++ behind_first tags

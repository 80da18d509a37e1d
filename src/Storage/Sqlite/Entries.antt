-- ===== src/Storage/Sqlite/Entries.antt =====
-- Entries of a session with a SQLite store: `update`, `fetch`, `perform_insert` and `perform_remove` of
-- askar-storage/src/backend/sqlite/mod.rs, for a session that has its profile's id and key.
use iviadc_aries_askar.Base.{
  ℕ, String, Bool, true, false, not, ◌&&◌, Option, none, some, List, [], ◌==◌, Bytes, Result, ok,
  err, ◌>>=◌,
}
use iviadc_aries_askar.Storage.Error.{ErrorKind, duplicate, not_found, unexpected}
use iviadc_aries_askar.Storage.Backend.Params.{ℤ}
use iviadc_aries_askar.Storage.Backend.TagText.{Hex, group_concat, decode_tags}
use iviadc_aries_askar.Storage.Protect.ProfileKey.{
  Primitives, ProfileKeyImpl, EntryTag, EncEntryTag, encrypt_entry_category, encrypt_entry_name,
  encrypt_entry_value, encrypt_entry_tags, decrypt_entry_value, decrypt_entry_tags,
}
use iviadc_aries_askar.Storage.Sqlite.{
  ItemKey, Tables, insert_query, update_query, tag_delete_query, tag_insert_query, delete_query,
  fetch_query,
}
use iviadc_aries_askar.Storage.Entry.{Entry, EntryKind, kind_number}

-- chrono's clock: the time, and `checked_add_signed` of milliseconds to it.
pub record Clock : Type 0 where
  pub now : ℕ
  pub checked_add : ℤ → Option ℕ

-- `expiry_timestamp` of db_utils.rs
unfoldable pub expiry_timestamp : Clock → ℤ → Result ℕ ErrorKind
expiry_timestamp clock expire_ms = elim (clock.checked_add expire_ms) [
  | some t ↦ ok t
  | none ↦ err unexpected
]

-- `expiry_ms.map(expiry_timestamp).transpose()`
unfoldable pub expiry_of : Clock → Option ℤ → Result (Option ℕ) ErrorKind
unfolding expiry_timestamp
expiry_of clock none = ok none
expiry_of clock (some ms) = do t ← expiry_timestamp clock ms; ok (some t)

abbrev pub Stored : Type 0
Stored = Result (Unit {0}) ErrorKind × Tables

unfoldable pub add_tags : ℕ → Option (List EncEntryTag) → Tables → Tables
unfolding tag_insert_query
add_tags row_id none t = t
add_tags row_id (some tags) t = tag_insert_query row_id tags t

-- The statements of `perform_insert`; `new_row` picks the first. Nothing is rolled back here: what is given back after
-- an error is what the statements before it left.
unfoldable pub write_row :
    Bool → ItemKey → Bytes → Option (List EncEntryTag) → Option ℕ → Tables → Stored
unfolding insert_query update_query tag_delete_query add_tags
write_row true k enc_value enc_tags expiry t =
    let (inserted, t') = insert_query k enc_value expiry t in
    elim inserted [
      | none ↦ (err duplicate, t')
      | some row_id ↦ (ok tt, add_tags row_id enc_tags t')
    ]
write_row false k enc_value enc_tags expiry t =
    let (updated, t') = update_query k enc_value expiry t in
    elim updated [
      | none ↦ (err not_found, t')
      | some row_id ↦ (ok tt, add_tags row_id enc_tags (tag_delete_query row_id t'))
    ]

unfoldable pub perform_insert :
    Clock → ItemKey → Bytes → Option (List EncEntryTag) → Option ℤ → Bool → Tables → Stored
unfolding expiry_of write_row
perform_insert clock k enc_value enc_tags expiry_ms new_row t = elim (expiry_of clock expiry_ms) [
  | err e ↦ (err e, t)
  | ok expiry ↦ write_row new_row k enc_value enc_tags expiry t
]

-- The outcome of a deletion, by whether a missing row is an error.
unfoldable pub removed : Bool → Tables → Stored
removed true t = (err not_found, t)
removed false t = (ok tt, t)

unfoldable pub perform_remove : ItemKey → Bool → Tables → Stored
unfolding delete_query removed
perform_remove k ignore_error t =
    let (count, t') = delete_query k t in removed (count == 0 && not ignore_error) t'

pub data EntryOperation : Type 0 where
  insert replace remove : EntryOperation

-- `op == EntryOperation::Insert`
unfoldable pub is_insert : EntryOperation → Bool
is_insert insert = true
is_insert _ = false

module _ (x : Primitives) (pk : ProfileKeyImpl x) (profile_id : ℕ) where
  -- `tags.transpose()?.map(|t| key.encrypt_entry_tags(t)).transpose()`
  unfoldable pub encrypt_tags :
      Option (List EntryTag) → Result (Option (List EncEntryTag)) ErrorKind
  encrypt_tags none = ok none
  encrypt_tags (some tags) = do ts ← encrypt_entry_tags x pk tags; ok (some ts)

  unfoldable pub encrypt_key : EntryKind → String → String → Result ItemKey ErrorKind
  unfolding kind_number
  encrypt_key kind category name = do
    c ← encrypt_entry_category x pk (x.into_bytes category)
    n ← encrypt_entry_name x pk (x.into_bytes name)
    ok (record {
      of_profile = profile_id;
      of_kind = kind_number kind;
      of_category = c;
      of_name = n;
    })

  -- `value.unwrap_or_default()`
  unfoldable pub value_or_default : Option Bytes → Bytes
  value_or_default none = []
  value_or_default (some v) = v

  -- What `update` encrypts before it writes, with the random nonce.
  unfoldable pub encrypt_entry :
      Bytes
      → EntryKind
      → String
      → String
      → Option Bytes
      → Option (List EntryTag)
      → Result (ItemKey × Bytes × Option (List EncEntryTag)) ErrorKind
  unfolding encrypt_tags encrypt_key value_or_default
  encrypt_entry nonce kind category name value tags = do
    v ←
        encrypt_entry_value x pk nonce (x.into_bytes category) (x.into_bytes name)
          (value_or_default value)
    k ← encrypt_key kind category name
    ts ← encrypt_tags tags
    ok (k, v, ts)

  -- `update` with `Insert` or `Replace`.
  unfoldable pub update_entry :
      Clock
      → Bytes
      → Bool
      → EntryKind
      → String
      → String
      → Option Bytes
      → Option (List EntryTag)
      → Option ℤ
      → Tables
      → Stored
  unfolding encrypt_entry perform_insert
  update_entry clock nonce new_row kind category name value tags expiry_ms t =
      elim (encrypt_entry nonce kind category name value tags) [
        | err e ↦ (err e, t)
        | ok (k, v, ts) ↦ perform_insert clock k v ts expiry_ms new_row t
      ]

  -- `update` with `Remove`.
  unfoldable pub remove_entry : EntryKind → String → String → Tables → Stored
  unfolding encrypt_key perform_remove
  remove_entry kind category name t = elim (encrypt_key kind category name) [
    | err e ↦ (err e, t)
    | ok k ↦ perform_remove k false t
  ]

  unfoldable pub update :
      Clock
      → Bytes
      → EntryKind
      → EntryOperation
      → String
      → String
      → Option Bytes
      → Option (List EntryTag)
      → Option ℤ
      → Tables
      → Stored
  unfolding update_entry remove_entry is_insert
  update clock nonce kind remove category name value tags expiry_ms t =
      remove_entry kind category name t
  update clock nonce kind insert category name value tags expiry_ms t =
      update_entry clock nonce (is_insert insert) kind category name value tags expiry_ms t
  update clock nonce kind replace category name value tags expiry_ms t =
      update_entry clock nonce (is_insert replace) kind category name value tags expiry_ms t

  module _ (hex : Hex) where
    -- The row that was found, decrypted.
    unfoldable pub decrypt_row :
        EntryKind → String → String → Bytes × List EncEntryTag → Result Entry ErrorKind
    unfolding decode_tags group_concat
    decrypt_row kind category name (enc_value, enc_tags) = do
      value ← decrypt_entry_value x pk (x.into_bytes category) (x.into_bytes name) enc_value
      decoded ← elim (decode_tags hex (group_concat hex enc_tags)) [
        | ok ts ↦ ok ts
        | err e ↦ err unexpected
      ]
      tags ← decrypt_entry_tags x pk decoded
      ok (record {
        entry_kind = kind;
        entry_category = category;
        entry_name = name;
        entry_value = value;
        entry_tags = tags;
      })

    -- The outcome of the query, decrypted.
    unfoldable pub read_row :
        EntryKind
        → String
        → String
        → Option (Bytes × List EncEntryTag)
        → Result (Option Entry) ErrorKind
    unfolding decrypt_row
    read_row kind category name none = ok none
    read_row kind category name (some row) = do
      entry ← decrypt_row kind category name row
      ok (some entry)

    unfoldable pub fetch :
        Clock → EntryKind → String → String → Tables → Result (Option Entry) ErrorKind
    unfolding encrypt_key fetch_query read_row
    fetch clock kind category name t = do
      k ← encrypt_key kind category name
      read_row kind category name (fetch_query clock.now k t)

-- ===== src/Storage/Sqlite/Stored.antt =====
-- What a session with a SQLite store wrote, it reads: `update` and `fetch` of askar-storage/src/backend/sqlite/mod.rs.
use iviadc_aries_askar.Base.{
  ℕ, String, ◌≡◌, refl, ◌∙◌, Bool, true, Option, none, some, List, [], length, Bytes, ok, collect,
}
use iviadc_aries_askar.Storage.Backend.Params.{ℤ}
use iviadc_aries_askar.Storage.Backend.TagText.{Hex}
use iviadc_aries_askar.Storage.Backend.TagText.RoundTrip.{IsHex, decode_tags-group_concat}
use iviadc_aries_askar.Storage.Protect.ProfileKey.{
  Primitives, IsPrimitives, ProfileKeyImpl, EntryTag, EncEntryTag, decrypt_entry_tags,
}
use iviadc_aries_askar.Storage.Protect.ProfileKey.RoundTrip.{
  decrypt_entry_category-encrypt_entry_category, decrypt_entry_name-encrypt_entry_name,
  decrypt_entry_value-encrypt_entry_value, decrypt_entry_tags-encrypt_entry_tags,
}
use iviadc_aries_askar.Storage.Sqlite.{ItemKey, Tables, lives, fetch_query}
use iviadc_aries_askar.Storage.Entry.{EntryKind, kind_number}
use iviadc_aries_askar.Storage.Sqlite.Entries.{
  Clock, expiry_of, perform_insert, encrypt_tags, encrypt_key, encrypt_entry, value_or_default,
  update_entry, fetch, read_row, decrypt_row,
}
use iviadc_aries_askar.Storage.Sqlite.Rows.{TagsHaveItems, tags_or_nil}
use iviadc_aries_askar.Storage.Sqlite.Found.{write_row-fetch_query}

abbrev pub entry_tags_or_nil : Option (List EntryTag) → List EntryTag
entry_tags_or_nil none = []
entry_tags_or_nil (some tags) = tags

module _ (x : Primitives) (laws : IsPrimitives x) (pk : ProfileKeyImpl x) (profile_id : ℕ) where
  -- The keys of entries can be encrypted.
  pub encrypt_key-ok :
      (kind : EntryKind) (category name : String)
      → (k : ItemKey) × (encrypt_key x pk profile_id kind category name ≡ ok k)
  unfolding encrypt_key
  encrypt_key-ok kind category name =
      let (c, ec, _) = decrypt_entry_category-encrypt_entry_category x laws pk category in
      let (n, en, _) = decrypt_entry_name-encrypt_entry_name x laws pk name in
      (
        record {
          of_profile = profile_id;
          of_kind = kind_number kind;
          of_category = c;
          of_name = n;
        },
        rw (ec, en) refl,
      )

  encrypt_tags-ok :
      (tags : Option (List EntryTag))
      → (es : Option (List EncEntryTag)) × (encrypt_tags x pk profile_id tags ≡ ok es)
        × (decrypt_entry_tags x pk (tags_or_nil es) ≡ ok (entry_tags_or_nil tags))
  unfolding encrypt_tags decrypt_entry_tags collect
  encrypt_tags-ok none = (none, refl, refl)
  encrypt_tags-ok (some tags) =
      let (es, e, d) = decrypt_entry_tags-encrypt_entry_tags x laws pk tags in
      (some es, rw e refl, d)

  -- What is encrypted of an entry, and how it is decrypted.
  encrypt_entry-ok :
      (hex : Hex)
      → IsHex hex
      → (nonce : Bytes) (kind : EntryKind) (category name : String) (value : Option Bytes)
        (tags : Option (List EntryTag))
      → length nonce ≡ x.nonce_size
      → (k : ItemKey) × (v : Bytes) × (es : Option (List EncEntryTag)) × (encrypt_key x pk
            profile_id kind category name
          ≡ ok k)
        × (encrypt_entry x pk profile_id nonce kind category name value tags ≡ ok (k, v, es))
        × (decrypt_row x pk profile_id hex kind category name (v, tags_or_nil es)
            ≡ ok (record {
              entry_kind = kind;
              entry_category = category;
              entry_name = name;
              entry_value = value_or_default x pk profile_id value;
              entry_tags = entry_tags_or_nil tags;
            }))
  unfolding encrypt_entry decrypt_row
  encrypt_entry-ok hex hh nonce kind category name value tags fits =
      let (k, ek) = encrypt_key-ok kind category name in
      let (es, et, dt) = encrypt_tags-ok tags in
      let (v, ev, dv) =
        decrypt_entry_value-encrypt_entry_value x laws pk nonce (x.into_bytes category)
          (x.into_bytes name) (value_or_default x pk profile_id value) fits in
      (
        k,
        v,
        es,
        ek,
        rw (ev, ek, et) refl,
        rw (dv, decode_tags-group_concat hex hh (tags_or_nil es), dt) refl,
      )

pub fetch-read_row :
    (x : Primitives) (pk : ProfileKeyImpl x) (profile_id : ℕ) (hex : Hex) (clock : Clock)
    (kind : EntryKind) (category name : String) (t : Tables) (k : ItemKey)
    → encrypt_key x pk profile_id kind category name ≡ ok k
    → fetch x pk profile_id hex clock kind category name t
      ≡ read_row x pk profile_id hex kind category name (fetch_query clock.now k t)
unfolding fetch
fetch-read_row x pk profile_id hex clock kind category name t k e = rw (fetch, e) refl

-- An entry that `update` inserted or replaced is what `fetch` gives for its kind, category and name: its value, and its tags and no
-- others. The cipher, the HMAC and the hexadecimal text keep their laws, the nonce has its length,
-- the tags in the tables belong to rows, and the entry has not expired.
pub fetch-update_entry :
    (x : Primitives)
    → IsPrimitives x
    → (hex : Hex) → IsHex hex
    → (pk : ProfileKeyImpl x) (profile_id : ℕ) (clock : Clock) (nonce : Bytes) (new_row : Bool)
      (kind : EntryKind) (category name : String) (value : Option Bytes)
      (tags : Option (List EntryTag)) (expiry_ms : Option ℤ) (expiry : Option ℕ) (t t' : Tables)
    → length nonce ≡ x.nonce_size
    → TagsHaveItems t.items t.items_tags
    → expiry_of clock expiry_ms ≡ ok expiry
    → lives clock.now expiry ≡ true
    → update_entry x pk profile_id clock nonce new_row kind category name value tags expiry_ms t
      ≡ (ok tt, t')
    → fetch x pk profile_id hex clock kind category name t'
      ≡ ok (
          some (record {
            entry_kind = kind;
            entry_category = category;
            entry_name = name;
            entry_value = value_or_default x pk profile_id value;
            entry_tags = entry_tags_or_nil tags;
          }))
unfolding update_entry perform_insert read_row
fetch-update_entry x laws hex hh pk profile_id clock nonce new_row kind category name value tags
      expiry_ms expiry t t' fits fk ee l h =
    let (k, v, es, ek, ev, ed) =
      encrypt_entry-ok x laws pk profile_id hex hh nonce kind category name value tags fits in
    let written = rw (update_entry, ev, perform_insert, ee) at h in
    let found = write_row-fetch_query new_row clock.now k v es expiry t t' fk l written in
    fetch-read_row x pk profile_id hex clock kind category name t' k ek ∙ rw (found, ed) refl

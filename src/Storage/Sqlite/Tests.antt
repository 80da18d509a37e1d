-- ===== src/Storage/Sqlite/Tests.antt =====
-- Instances of the theorems on the entries of a SQLite store: a small store with one entry.
use iviadc_aries_askar.Base.{
  ap, err, length, ℕ, ◌≡◌, refl, true, none, some, List, [], ◌∷◌, ok, collect,
}
use iviadc_aries_askar.Storage.Error.{duplicate}
use iviadc_aries_askar.Storage.Entry.{item}
use iviadc_aries_askar.Storage.Backend.Params.{pos}
use iviadc_aries_askar.Storage.Backend.TagText.Tests.{small_hex, small_hex-IsHex}
use iviadc_aries_askar.Storage.Protect.ProfileKey.{
  encrypt_entry_value, derive_value_key, lift, derive_key_bytes, encrypt, encrypt_entry_category,
  encrypt_searchable, encrypt_entry_name, encrypt_entry_tags, encrypt_tag, encrypt_tag_name,
  encrypt_tag_value, EntryTag, encrypted, plaintext,
}
use iviadc_aries_askar.Storage.Protect.ProfileKey.Tests.{
  small, small-IsPrimitives, profile_key, encode,
}
use iviadc_aries_askar.Crypto.Bits.{xor_into}
use iviadc_aries_askar.Storage.Sqlite.{has_id, Tables, lives}
use iviadc_aries_askar.Storage.Sqlite.Entries.{
  value_or_default, Clock, Stored, expiry_of, insert, update_entry, update, fetch, remove_entry,
}
use iviadc_aries_askar.Storage.Sqlite.Stored.{fetch-update_entry}
use iviadc_aries_askar.Storage.Sqlite.Rows.{TagsHaveItems}
use iviadc_aries_askar.Storage.Sqlite.Invariant.{IsTables}
use iviadc_aries_askar.Storage.Sqlite.Kept.{update-IsTables}
use iviadc_aries_askar.Storage.Sqlite.Removed.{fetch-remove_entry, update-err}

abbrev clock : Clock
clock = record { now = 5000; checked_add = λ _. some 9000 }

abbrev no_tables : Tables
no_tables = record { items = []; items_tags = [] }

abbrev tags : List EntryTag
tags = plaintext "a" "b" ∷ encrypted "c" "d" ∷ []

unfoldable inserted : Stored
unfolding small profile_key
inserted =
    update_entry small profile_key 1 clock (3 ∷ 4 ∷ []) true item "cat" "name" (some (1 ∷ 2 ∷ []))
      (some tags) (some (pos 4000)) no_tables

inserted_ok : inserted.0 ≡ ok tt
unfolding inserted update_entry small profile_key encode xor_into encrypt_entry_value
    derive_value_key lift derive_key_bytes encrypt encrypt_entry_category encrypt_searchable
    encrypt_entry_name encrypt_entry_tags encrypt_tag encrypt_tag_name encrypt_tag_value collect
inserted_ok = refl

-- The nonce has its length.
nonce_fits : length {A = ℕ} (3 ∷ 4 ∷ []) ≡ small.nonce_size
unfolding small
nonce_fits = refl

lives_long : lives 5000 (some 9000) ≡ true
unfolding lives
lives_long = refl

fetch-update_entry_example :
    fetch small profile_key 1 small_hex clock item "cat" "name" inserted.1
    ≡ ok (
        some (record {
          entry_kind = item;
          entry_category = "cat";
          entry_name = "name";
          entry_value = 1 ∷ 2 ∷ [];
          entry_tags = tags;
        }))
unfolding inserted expiry_of value_or_default
fetch-update_entry_example =
    fetch-update_entry small small-IsPrimitives small_hex small_hex-IsHex profile_key 1 clock
      (3 ∷ 4 ∷ []) true item "cat" "name" (some (1 ∷ 2 ∷ [])) (some tags) (some (pos 4000))
      (some 9000) no_tables inserted.1 nonce_fits tt refl lives_long
      (ap (λ r. (r, inserted.1)) inserted_ok)

fetch-remove_entry_example :
    fetch small profile_key 1 small_hex clock item "cat" "name"
      (remove_entry small profile_key 1 item "cat" "name" inserted.1).1
    ≡ ok none
fetch-remove_entry_example =
    fetch-remove_entry small small-IsPrimitives small_hex profile_key 1 clock item "cat" "name"
      inserted.1

update-IsTables_example :
    IsTables
      (update small profile_key 1 clock
        (3 ∷ 4 ∷ [])
        item
        insert
        "cat"
        "name"
        (some (1 ∷ 2 ∷ []))
        (some tags)
        none
        no_tables).1
update-IsTables_example =
    update-IsTables small profile_key 1 clock (3 ∷ 4 ∷ []) item insert "cat" "name"
      (some (1 ∷ 2 ∷ [])) (some tags) none no_tables (tt, tt)

-- The same entry once more.
unfoldable again : Stored
again =
    update small profile_key 1 clock (5 ∷ 6 ∷ []) item insert "cat" "name" none none none inserted.1

again_refused : again.0 ≡ err duplicate
unfolding again update inserted update_entry small profile_key encode xor_into encrypt_entry_value
    derive_value_key lift derive_key_bytes encrypt encrypt_entry_category encrypt_searchable
    encrypt_entry_name encrypt_entry_tags encrypt_tag encrypt_tag_name encrypt_tag_value collect
again_refused = refl

inserted-TagsHaveItems : TagsHaveItems inserted.1.items inserted.1.items_tags
unfolding inserted update_entry small profile_key encode xor_into encrypt_entry_value
    derive_value_key lift derive_key_bytes encrypt encrypt_entry_category encrypt_searchable
    encrypt_entry_name encrypt_entry_tags encrypt_tag encrypt_tag_name encrypt_tag_value collect
    has_id
inserted-TagsHaveItems = (refl, (refl, tt))

update-err_example : again.1 ≡ inserted.1
unfolding again
update-err_example =
    update-err small profile_key 1 clock (5 ∷ 6 ∷ []) item insert "cat" "name" none none none
      inserted.1 again.1 duplicate inserted-TagsHaveItems (ap (λ r. (r, again.1)) again_refused)

-- ===== src/Storage/Backend/Scan/Tests.antt =====
-- Instances of the theorems on scans.
use iviadc_aries_askar.Base.{
  ℕ, ◌≡◌, refl, some, List, [], ◌∷◌, map, length, replicate, Bytes, Result, ok, err, collect,
}
use iviadc_aries_askar.Storage.Entry.{Entry, item}
use iviadc_aries_askar.Storage.Backend.Scan.{
  EncScanEntry, pages, pages_from, concat, scan_pages, fetch_all,
}
use iviadc_aries_askar.Storage.Error.{ErrorKind}
use iviadc_aries_askar.Crypto.Bits.{xor_into}
use iviadc_aries_askar.Storage.Protect.ProfileKey.{
  encrypted, plaintext, EncEntryTag, encrypt_entry_category, encrypt_entry_name,
  encrypt_entry_value, encrypt_entry_tags, encrypt_tag, encrypt_tag_name, encrypt_tag_value,
  encrypt_searchable, lift, derive_key_bytes, encrypt, derive_value_key,
}
use iviadc_aries_askar.Storage.Protect.ProfileKey.Tests.{
  small, small-IsPrimitives, profile_key, encode,
}
use iviadc_aries_askar.Storage.Backend.TagText.{group_concat}
use iviadc_aries_askar.Storage.Backend.TagText.Tests.{small_hex, small_hex-IsHex}
use iviadc_aries_askar.Storage.Backend.Scan.RoundTrip.{Holds, scan_pages-AllHold}
use iviadc_aries_askar.Storage.Backend.Scan.Pages.{ArePages, pages_lem}

abbrev seventy : List ℕ
seventy = replicate 70 7

pages_lem_example : ArePages (pages seventy) × (concat (pages seventy) ≡ seventy)
pages_lem_example = pages_lem seventy

three_pages : map length (pages seventy) ≡ 32 ∷ 32 ∷ 6 ∷ []
unfolding pages pages_from
three_pages = refl

abbrev kitty : Entry
kitty = record {
  entry_kind = item;
  entry_category = "cat";
  entry_name = "kitty";
  entry_value = 4 ∷ 5 ∷ 6 ∷ [];
  entry_tags = encrypted "colour" "black" ∷ plaintext "legs" "4" ∷ [];
}

abbrev encryption : Result Bytes ErrorKind → Bytes
encryption (ok c) = c
encryption (err e) = []

abbrev encrypted_tags : Result (List EncEntryTag) ErrorKind → List EncEntryTag
encrypted_tags (ok cs) = cs
encrypted_tags (err e) = []

abbrev kitty_tags : List EncEntryTag
kitty_tags = encrypted_tags (encrypt_entry_tags small profile_key kitty.entry_tags)

abbrev kitty_row : EncScanEntry
kitty_row = record {
  row_kind = item;
  row_category = encryption (encrypt_entry_category small profile_key (encode "cat"));
  row_name = encryption (encrypt_entry_name small profile_key (encode "kitty"));
  row_value = encryption (
      encrypt_entry_value small profile_key (1 ∷ 2 ∷ []) (encode "cat") (encode "kitty")
        (4 ∷ 5 ∷ 6 ∷ []));
  row_tags = group_concat small_hex kitty_tags;
}

kitty-Holds : Holds small small_hex profile_key kitty_row kitty
unfolding encrypt_entry_category encrypt_entry_name encrypt_entry_value encrypt_entry_tags
    encrypt_tag encrypt_tag_name encrypt_tag_value encrypt_searchable lift derive_key_bytes small
    profile_key encode xor_into collect encrypt derive_value_key
kitty-Holds = (refl, refl, refl, (1 ∷ 2 ∷ [], refl, refl), (kitty_tags, refl, refl))

scan_pages-AllHold_example :
    (scan_pages small small_hex profile_key (some "cat") (kitty_row ∷ []) ≡ ok (pages (kitty ∷ [])))
    × (fetch_all small small_hex profile_key (some "cat") (kitty_row ∷ []) ≡ ok (kitty ∷ []))
scan_pages-AllHold_example =
    scan_pages-AllHold small small_hex profile_key small-IsPrimitives small_hex-IsHex (some "cat")
      (kitty_row ∷ []) (kitty ∷ []) (kitty-Holds, refl, tt)

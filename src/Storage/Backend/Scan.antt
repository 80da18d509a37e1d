-- ===== src/Storage/Backend/Scan.antt =====
-- Scans: the pages of `perform_scan` in askar-storage/src/backend/sqlite/mod.rs, and `decrypt_scan_batch` of
-- backend/db_utils.rs. A stream of pages is the list of the pages that it yields.
pub mod Pages
pub mod RoundTrip
mod Tests
use iviadc_aries_askar.Base.{
  ℕ, zero, suc, ◌+◌, ◌-◌, ◌*◌, ◌/◌, ◌%◌, ◌^◌, ◌≤◌, ◌<◌, bit_xor, bit_or, bit_and, String, ◌≡◌, refl,
  sym, ap, ap₂, ◌∙◌, subst, ◌≢◌, ◌↔◌, ◌⊎◌, inl, inr, Bool, true, false, not, ◌&&◌, ◌||◌, xor,
  Option, none, some, List, [], ◌∷◌, ◌++◌, map, reverse, append-nil, append_assoc, arith, eq_iff,
  ltb, leb, ◌==◌, if◌then◌else◌, ltb→lt, lt→ltb, leb→le, ==_iff, Bool-cases, Option-cases, length,
  get_elem?, take, drop, replicate, length-append, take-append-drop, take-append, drop-append,
  length-take, length-drop, length-replicate, length-map, Bytes, take-append_of, drop-append_of,
  length-append_of, drop-drop, drop-take, take-take, drop-append_le, take-append_le,
  take-append_split, take_all, Result, ok, err, ◌>>=◌, collect, >>=-eq-ok,
}
use iviadc_aries_askar.Storage.Error.{ErrorKind, unexpected}
use iviadc_aries_askar.Storage.Entry.{EntryKind, Entry}
use iviadc_aries_askar.Storage.Backend.TagText.{Hex, decode_tags}
use iviadc_aries_askar.Storage.Protect.ProfileKey.{
  Primitives, ProfileKeyImpl, decrypt_entry_category, decrypt_entry_name, decrypt_entry_value,
  decrypt_entry_tags,
}

abbrev pub page_size : ℕ
page_size = 32

-- The rest of the loop over the rows, with the batch that it has gathered.
unfoldable pub pages_from {ℓ} : {A : Type ℓ} → List A → List A → List (List A)
pages_from [] [] = []
pages_from (b ∷ bs) [] = (b ∷ bs) ∷ []
pages_from batch (row ∷ rows) =
    let full = batch ++ (row ∷ []) in
    elim (length full == page_size) [
      | true ↦ full ∷ pages_from [] rows
      | false ↦ pages_from full rows
    ]

unfoldable pub pages {ℓ} : {A : Type ℓ} → List A → List (List A)
unfolding pages_from
pages rows = pages_from [] rows

-- `extend` over the pages.
unfoldable pub concat {ℓ} : {A : Type ℓ} → List (List A) → List A
concat [] = []
concat (page ∷ rest) = page ++ concat rest

pub record EncScanEntry : Type 0 where
  pub row_kind : EntryKind
  pub row_category : Bytes
  pub row_name : Bytes
  pub row_value : Bytes
  pub row_tags : Bytes

module _ (x : Primitives) (hex : Hex) (pk : ProfileKeyImpl x) where
  unfoldable pub category_of : Option String → Bytes → Result String ErrorKind
  category_of none enc_category = decrypt_entry_category x pk enc_category
  category_of (some category) enc_category = ok category

  unfoldable pub decrypt_scan_entry : Option String → EncScanEntry → Result Entry ErrorKind
  unfolding category_of decode_tags
  decrypt_scan_entry category row = do
    c ← category_of category row.row_category
    n ← decrypt_entry_name x pk row.row_name
    v ← decrypt_entry_value x pk (x.into_bytes c) (x.into_bytes n) row.row_value
    decoded ← elim (decode_tags hex row.row_tags) [ ok ts ↦ ok ts | err e ↦ err unexpected ]
    tags ← decrypt_entry_tags x pk decoded
    ok (record {
      entry_kind = row.row_kind;
      entry_category = c;
      entry_name = n;
      entry_value = v;
      entry_tags = tags;
    })

  unfoldable pub decrypt_scan_batch :
      Option String → List EncScanEntry → Result (List Entry) ErrorKind
  unfolding decrypt_scan_entry collect
  decrypt_scan_batch category rows = collect (decrypt_scan_entry category) rows

  -- The entries of a scan, page by page, up to the first error.
  unfoldable pub scan_pages :
      Option String → List EncScanEntry → Result (List (List Entry)) ErrorKind
  unfolding pages decrypt_scan_batch collect
  scan_pages category rows = collect (decrypt_scan_batch category) (pages rows)

  -- `fetch_all`: the rows of all pages, then decrypted.
  unfoldable pub fetch_all : Option String → List EncScanEntry → Result (List Entry) ErrorKind
  unfolding pages decrypt_scan_batch concat
  fetch_all category rows = decrypt_scan_batch category (concat (pages rows))

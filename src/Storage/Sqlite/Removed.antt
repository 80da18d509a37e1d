-- ===== src/Storage/Sqlite/Removed.antt =====
-- Removal and failure: `perform_remove` and the errors of `update` in askar-storage/src/backend/sqlite/mod.rs.
use iviadc_aries_askar.Base.{
  Result-cases, ◌&&◌, ◌∙◌, sym, ap, Result, err, ok, ◌==◌, Option, Bool, ℕ, String, ◌≡◌, refl, inl,
  inr, true, false, not, none, some, List, [], ◌∷◌, arith, Bool-cases, length, Bytes,
}
use iviadc_aries_askar.Storage.Error.{ErrorKind}
use iviadc_aries_askar.Storage.Backend.Params.{ℤ}
use iviadc_aries_askar.Storage.Backend.TagText.{Hex}
use iviadc_aries_askar.Storage.Protect.ProfileKey.{
  Primitives, IsPrimitives, ProfileKeyImpl, EntryTag, EncEntryTag,
}
use iviadc_aries_askar.Storage.Sqlite.{
  Item, ItemTag, Tables, ItemKey, has_key, find_item, keep, is_live, has_id, delete_items,
  delete_query, fetch_query,
}
use iviadc_aries_askar.Storage.Entry.{EntryKind}
use iviadc_aries_askar.Storage.Sqlite.Entries.{
  removed, perform_remove, remove_entry, encrypt_key, encrypt_entry, update_entry, update,
  write_row, expiry_of, perform_insert, EntryOperation, insert, replace, remove, Clock, fetch,
  read_row,
}
use iviadc_aries_askar.Storage.Sqlite.Kept.{perform_remove_tables}
use iviadc_aries_askar.Storage.Sqlite.Rows.{TagsHaveItems, written_row, write_row_lem}
use iviadc_aries_askar.Storage.Sqlite.Stored.{encrypt_key-ok, fetch-read_row}

find_item-removed :
    (now : ℕ) (k : ItemKey) (is : List Item)
    → find_item (λ j. has_key k j && is_live now j) (keep (λ i. not (has_key k i)) is) ≡ none
unfolding find_item keep
find_item-removed now k [] = refl
find_item-removed now k (i ∷ is) = elim (Bool-cases (has_key k i)) [
  | inl e ↦ rw (keep, e) (find_item-removed now k is)
  | inr e ↦ rw (keep, e, find_item, e) (find_item-removed now k is)
]

fetch_query-delete_items :
    (now : ℕ) (k : ItemKey) (t : Tables) → fetch_query now k (delete_items (has_key k) t) ≡ none
unfolding fetch_query delete_items
fetch_query-delete_items now k t = rw (fetch_query, find_item-removed now k t.items) refl

-- Where no row goes, all stay.
keep_none :
    (p : Item → Bool) (is : List Item) → length (keep p is) ≡ 0 → keep (λ i. not (p i)) is ≡ is
unfolding keep
keep_none p [] h = refl
keep_none p (i ∷ is) h = elim (Bool-cases (p i)) [
  | inl e ↦ let some_left = rw (keep, e) at h in absurd (omega (arith, some_left))
  | inr e ↦ rw (keep, e) (ap (λ r. i ∷ r) (keep_none p is (rw (keep, e) at h)))
]

keep_tags :
    (is : List Item) (rs : List ItemTag)
    → TagsHaveItems is rs
    → keep (λ r. has_id is r.item_id) rs ≡ rs
unfolding keep
keep_tags is [] h = refl
keep_tags is (r ∷ rs) (h, hs) = rw (keep, h) (ap (λ t. r ∷ t) (keep_tags is rs hs))

delete_items_none :
    (k : ItemKey) (t : Tables)
    → TagsHaveItems t.items t.items_tags
    → length (keep (has_key k) t.items) ≡ 0
    → delete_items (has_key k) t ≡ t
unfolding delete_items
delete_items_none k t fk h =
    rw (keep_none (has_key k) t.items h, keep_tags t.items t.items_tags fk) refl

-- What `remove` leaves is gone: whether it finds a row or not, a `fetch` of the same kind, category and name gives nothing afterwards.
pub fetch-remove_entry :
    (x : Primitives)
    → IsPrimitives x
    → (hex : Hex) (pk : ProfileKeyImpl x) (profile_id : ℕ) (clock : Clock) (kind : EntryKind)
      (category name : String) (t : Tables)
    → fetch x pk profile_id hex clock kind category name
        (remove_entry x pk profile_id kind category name t).1
      ≡ ok none
unfolding remove_entry read_row
fetch-remove_entry x laws hex pk profile_id clock kind category name t =
    let (k, e) = encrypt_key-ok x laws pk profile_id kind category name in
    let gone : (remove_entry x pk profile_id kind category name t).1 ≡ delete_items (has_key k) t =
      rw (remove_entry, e) (perform_remove_tables k false t) in
    rw
      (
        gone,
        fetch-read_row x pk profile_id hex clock kind category name (delete_items (has_key k) t) k
            e,
        fetch_query-delete_items clock.now k t,
      )
      refl

written_row-err :
    (new_row : Bool) (k : ItemKey) (v : Bytes) (ts : Option (List EncEntryTag)) (expiry : Option ℕ)
    (t t' : Tables) (o : Option Item) (e : ErrorKind)
    → written_row new_row k v ts expiry t o ≡ (err e, t')
    → t' ≡ t
unfolding written_row
written_row-err true k v ts expiry t t' (some i) e h = sym (ap (λ p. p.1) h)
written_row-err false k v ts expiry t t' none e h = sym (ap (λ p. p.1) h)
written_row-err true k v ts expiry t t' none e h =
    let bad : ◌≡◌ {A = Result (Unit {0}) ErrorKind} (ok tt) (err e) = ap (λ p. p.0) h in cc
written_row-err false k v ts expiry t t' (some i) e h =
    let bad : ◌≡◌ {A = Result (Unit {0}) ErrorKind} (ok tt) (err e) = ap (λ p. p.0) h in cc

pub write_row-err :
    (new_row : Bool) (k : ItemKey) (v : Bytes) (ts : Option (List EncEntryTag)) (expiry : Option ℕ)
    (t t' : Tables) (e : ErrorKind)
    → write_row new_row k v ts expiry t ≡ (err e, t')
    → t' ≡ t
write_row-err new_row k v ts expiry t t' e h =
    written_row-err new_row k v ts expiry t t' _ e (sym (write_row_lem new_row k v ts expiry t) ∙ h)

perform_insert-err :
    (clock : Clock) (k : ItemKey) (v : Bytes) (ts : Option (List EncEntryTag))
    (expiry_ms : Option ℤ) (new_row : Bool) (t t' : Tables) (e : ErrorKind)
    → perform_insert clock k v ts expiry_ms new_row t ≡ (err e, t')
    → t' ≡ t
unfolding perform_insert
perform_insert-err clock k v ts expiry_ms new_row t t' e h =
    elim (Result-cases (expiry_of clock expiry_ms)) [
      | inl (expiry, ee) ↦ write_row-err new_row k v ts expiry t t' e (rw (perform_insert, ee) at h)
      | inr (failure, ee) ↦ sym (ap (λ p. p.1) (rw (perform_insert, ee) at h))
    ]

removed-err :
    (b : Bool) (t u t' : Tables) (e : ErrorKind)
    → (b ≡ true → u ≡ t)
    → removed b u ≡ (err e, t')
    → t' ≡ t
unfolding removed
removed-err true t u t' e same h = sym (ap (λ p. p.1) h) ∙ same refl
removed-err false t u t' e same h =
    let bad : ◌≡◌ {A = Result (Unit {0}) ErrorKind} (ok tt) (err e) = ap (λ p. p.0) h in cc

perform_remove-err :
    (k : ItemKey) (t t' : Tables) (e : ErrorKind)
    → TagsHaveItems t.items t.items_tags
    → perform_remove k false t ≡ (err e, t')
    → t' ≡ t
unfolding perform_remove delete_query
perform_remove-err k t t' e fk h =
    removed-err (length (keep (has_key k) t.items) == 0 && true) t (delete_items (has_key k) t) t' e
      (λ b. delete_items_none k t fk (ground arith)) h

update_entry-err :
    (x : Primitives) (pk : ProfileKeyImpl x) (profile_id : ℕ) (clock : Clock) (nonce : Bytes)
    (new_row : Bool) (kind : EntryKind) (category name : String) (value : Option Bytes)
    (tags : Option (List EntryTag)) (expiry_ms : Option ℤ) (t t' : Tables) (e : ErrorKind)
    → update_entry x pk profile_id clock nonce new_row kind category name value tags expiry_ms t
      ≡ (err e, t')
    → t' ≡ t
unfolding update_entry
update_entry-err x pk profile_id clock nonce new_row kind category name value tags expiry_ms t t' e
      h =
    elim (Result-cases (encrypt_entry x pk profile_id nonce kind category name value tags)) [
      | inl ((k, v, ts), ee) ↦
          perform_insert-err clock k v ts expiry_ms new_row t t' e (rw (update_entry, ee) at h)
      | inr (failure, ee) ↦ sym (ap (λ p. p.1) (rw (update_entry, ee) at h))
    ]

-- An `update` that is refused leaves the tables as they were, without any rollback: where the encryption fails or the
-- expiry is out of range no statement has run, and where the row is there already, or is missing, the statement that
-- finds this out has changed nothing. Every tag belongs to a row, and the database itself does not fail.
pub update-err :
    (x : Primitives) (pk : ProfileKeyImpl x) (profile_id : ℕ) (clock : Clock) (nonce : Bytes)
    (kind : EntryKind) (operation : EntryOperation) (category name : String) (value : Option Bytes)
    (tags : Option (List EntryTag)) (expiry_ms : Option ℤ) (t t' : Tables) (e : ErrorKind)
    → TagsHaveItems t.items t.items_tags
    → update x pk profile_id clock nonce kind operation category name value tags expiry_ms t
      ≡ (err e, t')
    → t' ≡ t
unfolding update remove_entry
update-err x pk profile_id clock nonce kind insert category name value tags expiry_ms t t' e fk h =
    update_entry-err x pk profile_id clock nonce true kind category name value tags expiry_ms t t' e
      h
update-err x pk profile_id clock nonce kind replace category name value tags expiry_ms t t' e fk h =
    update_entry-err x pk profile_id clock nonce false kind category name value tags expiry_ms t t'
      e h
update-err x pk profile_id clock nonce kind remove category name value tags expiry_ms t t' e fk h =
    elim (Result-cases (encrypt_key x pk profile_id kind category name)) [
      | inl (k, ek) ↦ perform_remove-err k t t' e fk (rw (remove_entry, ek) at h)
      | inr (failure, ek) ↦ sym (ap (λ p. p.1) (rw (remove_entry, ek) at h))
    ]

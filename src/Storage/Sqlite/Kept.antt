-- ===== src/Storage/Sqlite/Kept.antt =====
-- `update` of askar-storage/src/backend/sqlite/mod.rs keeps the unique index and the foreign key, and an error changes nothing.
use iviadc_aries_askar.Base.{
  Result-cases, String, ℕ, ◌≡◌, refl, inl, inr, Bool, true, false, not, Option, none, some, List,
  [], ◌∷◌, ◌++◌, map, arith, Bool-cases, Bytes, Result, ok, err,
}
use iviadc_aries_askar.Storage.Error.{ErrorKind}
use iviadc_aries_askar.Storage.Backend.Params.{ℤ}
use iviadc_aries_askar.Storage.Protect.ProfileKey.{
  EntryTag, ProfileKeyImpl, Primitives, EncEntryTag,
}
use iviadc_aries_askar.Storage.Sqlite.{
  delete_query, Item, Tables, ItemKey, has_key, find_item, next_id, set_value, tag_delete_query,
  tag_rows, tag_insert_query, has_id, delete_items,
}
use iviadc_aries_askar.Storage.Entry.{EntryKind}
use iviadc_aries_askar.Storage.Sqlite.Entries.{
  removed, encrypt_key, encrypt_entry, insert, replace, remove, EntryOperation, remove_entry,
  update_entry, perform_remove, update, Clock, Stored, add_tags, write_row, expiry_of,
  perform_insert,
}
use iviadc_aries_askar.Storage.Sqlite.Rows.{new_item, written_row, write_row_lem, ==-refl}
use iviadc_aries_askar.Storage.Sqlite.Invariant.{
  IsTables, append-HaveUniqueKeys, keep-HaveUniqueKeys, set_value-HaveUniqueKeys, has_id-append,
  has_id-set_value, TagsHaveItems-mono, TagsHaveItems-append, tag_rows-TagsHaveItems,
  keep-TagsHaveItems, cascade-TagsHaveItems,
}

has_id-append_new : (is : List Item) (i : Item) → has_id (is ++ (i ∷ [])) i.id ≡ true
unfolding has_id
has_id-append_new [] i = rw (==-refl i.id) refl
has_id-append_new (j ∷ is) i = ground (arith, has_id-append_new is i)

has_id-find_item :
    (p : Item → Bool) (is : List Item) (i : Item) → find_item p is ≡ some i → has_id is i.id ≡ true
unfolding has_id find_item
has_id-find_item p [] i h = cc
has_id-find_item p (j ∷ is) i h = elim (Bool-cases (p j)) [
  | inl e ↦
      let found = rw (find_item, e) at h in let same : j ≡ i = cc in rw (same, ==-refl i.id) refl
  | inr e ↦ let rest = has_id-find_item p is i (rw (find_item, e) at h) in ground (arith, rest)
]

add_tags-IsTables :
    (n : ℕ) (ts : Option (List EncEntryTag)) (t : Tables)
    → has_id t.items n ≡ true
    → IsTables t
    → IsTables (add_tags n ts t)
unfolding add_tags tag_insert_query
add_tags-IsTables n none t h v = v
add_tags-IsTables n (some tags) t h (u, fk) = (
  u,
  TagsHaveItems-append t.items t.items_tags (tag_rows n tags) fk
      (tag_rows-TagsHaveItems t.items n tags h),
)

written_row-IsTables :
    (new_row : Bool) (k : ItemKey) (v : Bytes) (ts : Option (List EncEntryTag)) (expiry : Option ℕ)
    (t : Tables) (o : Option Item)
    → find_item (has_key k) t.items ≡ o
    → IsTables t
    → IsTables (written_row new_row k v ts expiry t o).1
unfolding written_row tag_delete_query
written_row-IsTables true k v ts expiry t none e (u, fk) =
    let row = new_item k (next_id t.items) v expiry in
    add_tags-IsTables (next_id t.items) ts (record t { items = t.items ++ (row ∷ []) })
      (has_id-append_new t.items row)
      (
        append-HaveUniqueKeys t.items row u e,
        TagsHaveItems-mono t.items (t.items ++ (row ∷ [])) t.items_tags
            (λ n. has_id-append t.items (row ∷ []) n) fk,
      )
written_row-IsTables true k v ts expiry t (some i) e h = h
written_row-IsTables false k v ts expiry t none e h = h
written_row-IsTables false k v ts expiry t (some i) e (u, fk) =
    let is = map (set_value k v expiry) t.items in
    add_tags-IsTables i.id ts (tag_delete_query i.id (record t { items = is }))
      (rw (has_id-set_value k v expiry t.items i.id) (has_id-find_item (has_key k) t.items i e))
      (
        set_value-HaveUniqueKeys k v expiry t.items u,
        keep-TagsHaveItems is _ t.items_tags (
            TagsHaveItems-mono t.items is t.items_tags
              (λ n h. rw (has_id-set_value k v expiry t.items n) h) fk),
      )

delete_items-IsTables :
    (gone : Item → Bool) (t : Tables) → IsTables t → IsTables (delete_items gone t)
unfolding delete_items
delete_items-IsTables gone t (u, fk) =
    (keep-HaveUniqueKeys (λ i. not (gone i)) t.items u, cascade-TagsHaveItems _ t.items_tags)

write_row-IsTables :
    (new_row : Bool) (k : ItemKey) (v : Bytes) (ts : Option (List EncEntryTag)) (expiry : Option ℕ)
    (t : Tables)
    → IsTables t
    → IsTables (write_row new_row k v ts expiry t).1
write_row-IsTables new_row k v ts expiry t h =
    rw (write_row_lem new_row k v ts expiry t)
      (written_row-IsTables new_row k v ts expiry t _ refl h)

perform_insert-IsTables :
    (clock : Clock) (k : ItemKey) (v : Bytes) (ts : Option (List EncEntryTag))
    (expiry_ms : Option ℤ) (new_row : Bool) (t : Tables)
    → IsTables t
    → IsTables (perform_insert clock k v ts expiry_ms new_row t).1
unfolding perform_insert
perform_insert-IsTables clock k v ts expiry_ms new_row t h = go (expiry_of clock expiry_ms)
  where
    go :
        (r : Result (Option ℕ) ErrorKind)
        → IsTables
            (elim r as (λ _. Stored) [
              | err e ↦ (err e, t)
              | ok expiry ↦ write_row new_row k v ts expiry t
            ]).1
    go (err e) = h
    go (ok expiry) = write_row-IsTables new_row k v ts expiry t h

removed_tables : (b : Bool) (t : Tables) → (removed b t).1 ≡ t
unfolding removed
removed_tables true t = refl
removed_tables false t = refl

pub perform_remove_tables :
    (k : ItemKey) (ignore_error : Bool) (t : Tables)
    → (perform_remove k ignore_error t).1 ≡ delete_items (has_key k) t
unfolding perform_remove delete_query
perform_remove_tables k ignore_error t = removed_tables _ (delete_items (has_key k) t)

perform_remove-IsTables :
    (k : ItemKey) (ignore_error : Bool) (t : Tables)
    → IsTables t
    → IsTables (perform_remove k ignore_error t).1
perform_remove-IsTables k ignore_error t h =
    rw (perform_remove_tables k ignore_error t) (delete_items-IsTables (has_key k) t h)

module _ (x : Primitives) (pk : ProfileKeyImpl x) (profile_id : ℕ) where
  update_entry-IsTables :
      (clock : Clock) (nonce : Bytes) (new_row : Bool) (kind : EntryKind) (category name : String)
      (value : Option Bytes) (tags : Option (List EntryTag)) (expiry_ms : Option ℤ) (t : Tables)
      → IsTables t
      → IsTables
          (update_entry x pk profile_id clock nonce new_row kind category name value tags expiry_ms
            t).1
  unfolding update_entry
  update_entry-IsTables clock nonce new_row kind category name value tags expiry_ms t h =
      elim (Result-cases (encrypt_entry x pk profile_id nonce kind category name value tags)) [
        | inl ((k, v, ts), e) ↦
            rw (update_entry, e) (perform_insert-IsTables clock k v ts expiry_ms new_row t h)
        | inr (failure, e) ↦ rw (update_entry, e) h
      ]

  remove_entry-IsTables :
      (kind : EntryKind) (category name : String) (t : Tables)
      → IsTables t
      → IsTables (remove_entry x pk profile_id kind category name t).1
  unfolding remove_entry
  remove_entry-IsTables kind category name t h =
      elim (Result-cases (encrypt_key x pk profile_id kind category name)) [
        | inl (k, e) ↦ rw (remove_entry, e) (perform_remove-IsTables k false t h)
        | inr (failure, e) ↦ rw (remove_entry, e) h
      ]

-- Whatever operation `update` carries out, and whether it succeeds or not: where no two rows had the same profile, kind, category
-- and name and every tag belonged to a row, this is so afterwards.
pub update-IsTables :
    (x : Primitives) (pk : ProfileKeyImpl x) (profile_id : ℕ) (clock : Clock) (nonce : Bytes)
    (kind : EntryKind) (operation : EntryOperation) (category name : String) (value : Option Bytes)
    (tags : Option (List EntryTag)) (expiry_ms : Option ℤ) (t : Tables)
    → IsTables t
    → IsTables
        (update x pk profile_id clock nonce kind operation category name value tags expiry_ms t).1
unfolding update
update-IsTables x pk profile_id clock nonce kind insert category name value tags expiry_ms t h =
    update_entry-IsTables x pk profile_id clock nonce true kind category name value tags expiry_ms t
      h
update-IsTables x pk profile_id clock nonce kind replace category name value tags expiry_ms t h =
    update_entry-IsTables x pk profile_id clock nonce false kind category name value tags expiry_ms
      t h
update-IsTables x pk profile_id clock nonce kind remove category name value tags expiry_ms t h =
    remove_entry-IsTables x pk profile_id kind category name t h

-- ===== src/Storage/Sqlite/Rows.antt =====
-- Rows that are found after they were written, for the statements of askar-storage/src/backend/sqlite/mod.rs.
use iviadc_aries_askar.Base.{
  ◌≢◌, map, Option-cases, ok, Option, ℕ, ◌≤◌, ◌≡◌, refl, inl, inr, ◌≢◌, Option-cases, Result, ok,
  err, Bool, true, false, not, ◌&&◌, none, some, List, [], ◌∷◌, ◌++◌, arith, ◌==◌, ==_iff,
  Bool-cases, Bytes,
}
use iviadc_aries_askar.Storage.Sqlite.Entries.{Stored, add_tags, write_row}
use iviadc_aries_askar.Storage.Error.{ErrorKind, duplicate, not_found}
use iviadc_aries_askar.Storage.Protect.ProfileKey.{EncEntryTag}
use iviadc_aries_askar.Storage.Sqlite.{
  update_query, set_value, tag_delete_query, insert_query, tag_insert_query, Tables, fetch_query,
  Item, ItemTag, ItemKey, same_bytes, has_key, find_item, keep, next_id, is_live, tag_rows, has_id,
  tags_of,
}

pub ==-refl : (n : ℕ) → (n == n) ≡ true
==-refl n = (==_iff n n).1 refl

same_bytes_refl : (s : Bytes) → same_bytes s s ≡ true
unfolding same_bytes
same_bytes_refl [] = refl
same_bytes_refl (c ∷ s) = rw (==-refl c, same_bytes_refl s) refl

pub not_ok : (e : ErrorKind) → ◌≢◌ {A = Result (Unit {0}) ErrorKind} (err e) (ok tt)
not_ok e h = cc

-- Every tag belongs to a row of `items`, as the foreign key demands.
abbrev pub TagsHaveItems : List Item → List ItemTag → Type 0
TagsHaveItems is [] = Unit
TagsHaveItems is (r ∷ rs) = (has_id is r.item_id ≡ true) × TagsHaveItems is rs

pub has_id-next_id : (is : List Item) (n : ℕ) → next_id is ≤ n → has_id is n ≡ false
unfolding has_id next_id
has_id-next_id [] n h = refl
has_id-next_id (i ∷ is) n h = ground (arith, has_id-next_id is n)

-- A new row has no tags.
pub tags_of-next_id :
    (is : List Item) (rs : List ItemTag) → TagsHaveItems is rs → tags_of (next_id is) rs ≡ []
unfolding tags_of
tags_of-next_id is [] h = refl
tags_of-next_id is (r ∷ rs) (h, hs) =
    ground (arith, tags_of-next_id is rs hs, has_id-next_id is r.item_id)

tags_of-append :
    (n : ℕ) (rs ss : List ItemTag) → tags_of n (rs ++ ss) ≡ tags_of n rs ++ tags_of n ss
unfolding tags_of
tags_of-append n [] ss = refl
tags_of-append n (r ∷ rs) ss = elim (Bool-cases (r.item_id == n)) [
  | inl e ↦ rw (e, tags_of-append n rs ss) refl
  | inr e ↦ rw (e, tags_of-append n rs ss) refl
]

tags_of-tag_rows : (n : ℕ) (tags : List EncEntryTag) → tags_of n (tag_rows n tags) ≡ tags
unfolding tags_of tag_rows
tags_of-tag_rows n [] = refl
tags_of-tag_rows n (tag ∷ tags) = rw (==-refl n, tags_of-tag_rows n tags) refl

pub tags_of-keep :
    (n : ℕ) (rs : List ItemTag) → tags_of n (keep (λ r. not (r.item_id == n)) rs) ≡ []
unfolding tags_of keep
tags_of-keep n [] = refl
tags_of-keep n (r ∷ rs) = ground (arith, tags_of-keep n rs)

-- The row that is found lives, so it is found among those that live.
find_item-live :
    (now : ℕ) (k : ItemKey) (is : List Item) (i : Item)
    → find_item (has_key k) is ≡ some i
    → is_live now i ≡ true
    → find_item (λ j. has_key k j && is_live now j) is ≡ some i
unfolding find_item
find_item-live now k [] i h l = cc
find_item-live now k (j ∷ js) i h l = elim (Bool-cases (has_key k j)) [
  | inl e ↦
      let found = rw (find_item, e) at h in let same : j ≡ i = cc in rw (find_item, e, same, l) refl
  | inr e ↦ rw (find_item, e) (find_item-live now k js i (rw (find_item, e) at h) l)
]

pub find_item-append :
    (p : Item → Bool) (is : List Item) (j : Item)
    → find_item p is ≡ none
    → p j ≡ true
    → find_item p (is ++ (j ∷ [])) ≡ some j
unfolding find_item
find_item-append p [] j h e = rw e refl
find_item-append p (i ∷ is) j h e = elim (Bool-cases (p i)) [
  | inl g ↦ let found = rw (find_item, g) at h in cc
  | inr g ↦ rw (find_item, g) (find_item-append p is j (rw (find_item, g) at h) e)
]

abbrev pub tags_or_nil : Option (List EncEntryTag) → List EncEntryTag
tags_or_nil none = []
tags_or_nil (some tags) = tags

-- Where the row has no tags yet, those that are added are all it has.
pub tags_of-add_tags :
    (n : ℕ) (ts : Option (List EncEntryTag)) (t : Tables)
    → tags_of n t.items_tags ≡ []
    → tags_of n (add_tags n ts t).items_tags ≡ tags_or_nil ts
unfolding add_tags tag_insert_query
tags_of-add_tags n none t h = h
tags_of-add_tags n (some tags) t h =
    rw (tags_of-append n t.items_tags (tag_rows n tags), h, tags_of-tag_rows n tags) refl

pub items-add_tags :
    (n : ℕ) (ts : Option (List EncEntryTag)) (t : Tables) → (add_tags n ts t).items ≡ t.items
unfolding add_tags tag_insert_query
items-add_tags n none t = refl
items-add_tags n (some tags) t = refl

-- What `fetch_query` gives, by the row that has the key and its tags.
pub fetch_query_row :
    (now : ℕ) (k : ItemKey) (t : Tables) (i : Item)
    → find_item (has_key k) t.items ≡ some i
    → is_live now i ≡ true
    → fetch_query now k t ≡ some (i.item_value, tags_of i.id t.items_tags)
unfolding fetch_query
fetch_query_row now k t i h l = rw (fetch_query, find_item-live now k t.items i h l) refl

abbrev pub new_item : ItemKey → ℕ → Bytes → Option ℕ → Item
new_item k n v expiry = record {
  id = n;
  profile_id = k.of_profile;
  kind = k.of_kind;
  category = k.of_category;
  item_name = k.of_name;
  item_value = v;
  expiry = expiry;
}

pub new_item-has_key :
    (k : ItemKey) (n : ℕ) (v : Bytes) (expiry : Option ℕ) → has_key k (new_item k n v expiry) ≡ true
unfolding has_key
new_item-has_key k n v expiry =
    rw
      (
        ==-refl k.of_profile,
        ==-refl k.of_kind,
        same_bytes_refl k.of_category,
        same_bytes_refl k.of_name,
      )
      refl

insert_new :
    (k : ItemKey) (v : Bytes) (expiry : Option ℕ) (t : Tables)
    → find_item (has_key k) t.items ≡ none
    → insert_query k v expiry t ≡ (
      some (next_id t.items),
      record t { items = t.items ++ (new_item k (next_id t.items) v expiry ∷ []) },
    )
unfolding insert_query
insert_new k v expiry t e = rw (insert_query, e) refl

insert_present :
    (k : ItemKey) (v : Bytes) (expiry : Option ℕ) (t : Tables) (i : Item)
    → find_item (has_key k) t.items ≡ some i
    → insert_query k v expiry t ≡ (none, t)
unfolding insert_query
insert_present k v expiry t i e = rw (insert_query, e) refl

update_missing :
    (k : ItemKey) (v : Bytes) (expiry : Option ℕ) (t : Tables)
    → find_item (has_key k) t.items ≡ none
    → update_query k v expiry t ≡ (none, t)
unfolding update_query
update_missing k v expiry t e = rw (update_query, e) refl

update_present :
    (k : ItemKey) (v : Bytes) (expiry : Option ℕ) (t : Tables) (i : Item)
    → find_item (has_key k) t.items ≡ some i
    → update_query k v expiry t
      ≡ (some i.id, record t { items = map (set_value k v expiry) t.items })
unfolding update_query
update_present k v expiry t i e = rw (update_query, e) refl

-- What `perform_insert` makes of the tables, by whether a row has the key.
unfoldable pub written_row :
    Bool → ItemKey → Bytes → Option (List EncEntryTag) → Option ℕ → Tables → Option Item → Stored
written_row true k v ts expiry t none =
    let n = next_id t.items in
    (ok tt, add_tags n ts (record t { items = t.items ++ (new_item k n v expiry ∷ []) }))
written_row true k v ts expiry t (some i) = (err duplicate, t)
written_row false k v ts expiry t none = (err not_found, t)
written_row false k v ts expiry t (some i) = (
  ok tt,
  add_tags i.id ts
      (tag_delete_query i.id (record t { items = map (set_value k v expiry) t.items })),
)

pub write_row_lem :
    (new_row : Bool) (k : ItemKey) (v : Bytes) (ts : Option (List EncEntryTag)) (expiry : Option ℕ)
    (t : Tables)
    → write_row new_row k v ts expiry t
      ≡ written_row new_row k v ts expiry t (find_item (has_key k) t.items)
unfolding write_row written_row
write_row_lem true k v ts expiry t = elim (Option-cases (find_item (has_key k) t.items)) [
  | inl e ↦ rw (e, write_row, insert_new k v expiry t e) refl
  | inr (i, e) ↦ rw (e, write_row, insert_present k v expiry t i e) refl
]
write_row_lem false k v ts expiry t = elim (Option-cases (find_item (has_key k) t.items)) [
  | inl e ↦ rw (e, write_row, update_missing k v expiry t e) refl
  | inr (i, e) ↦ rw (e, write_row, update_present k v expiry t i e) refl
]

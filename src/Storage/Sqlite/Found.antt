-- ===== src/Storage/Sqlite/Found.antt =====
-- A row that was written is found: the statements of askar-storage/src/backend/sqlite/mod.rs.
use iviadc_aries_askar.Base.{
  ℕ, ◌≡◌, refl, sym, ap, ◌∙◌, inl, inr, Bool, true, false, Option, none, some, List, [], ◌∷◌, ◌++◌,
  map, if◌then◌else◌, Bool-cases, Bytes, ok,
}
use iviadc_aries_askar.Storage.Sqlite.Entries.{add_tags, write_row}
use iviadc_aries_askar.Storage.Error.{duplicate, not_found}
use iviadc_aries_askar.Storage.Protect.ProfileKey.{EncEntryTag}
use iviadc_aries_askar.Storage.Sqlite.{
  set_value, tag_delete_query, lives, Tables, fetch_query, Item, ItemKey, has_key, find_item,
  next_id, is_live,
}
use iviadc_aries_askar.Storage.Sqlite.Rows.{
  TagsHaveItems, tags_or_nil, new_item, new_item-has_key, written_row, write_row_lem, not_ok,
  tags_of-next_id, tags_of-keep, find_item-append, items-add_tags, tags_of-add_tags,
  fetch_query_row,
}

set_value_lem :
    (k : ItemKey) (v : Bytes) (expiry : Option ℕ) (i : Item)
    → has_key k i ≡ true
    → set_value k v expiry i ≡ record i { item_value = v; expiry = expiry }
unfolding set_value
set_value_lem k v expiry i e = rw (set_value, e) refl

pub set_value-has_key :
    (k j : ItemKey) (v : Bytes) (expiry : Option ℕ) (i : Item)
    → has_key j (set_value k v expiry i) ≡ has_key j i
unfolding set_value has_key
set_value-has_key k j v expiry i = go (has_key k i)
  where
    go :
        (b : Bool)
        → has_key j (if b then record i { item_value = v; expiry = expiry } else i) ≡ has_key j i
    go true = refl
    go false = refl

find_item-set_value :
    (k : ItemKey) (v : Bytes) (expiry : Option ℕ) (is : List Item) (i : Item)
    → find_item (has_key k) is ≡ some i
    → find_item (has_key k) (map (set_value k v expiry) is)
      ≡ some (record i { item_value = v; expiry = expiry })
unfolding find_item
find_item-set_value k v expiry [] i h = cc
find_item-set_value k v expiry (j ∷ js) i h = elim (Bool-cases (has_key k j)) [
  | inl e ↦
      let found = rw (find_item, e) at h in
      let same : j ≡ i = cc in
      rw (find_item, set_value-has_key k k v expiry j, e, set_value_lem k v expiry j e, same) refl
  | inr e ↦
      rw (find_item, set_value-has_key k k v expiry j, e)
        (find_item-set_value k v expiry js i (rw (find_item, e) at h))
]

-- The row that is there after the write, and its tags.
written_row-found :
    (new_row : Bool) (now : ℕ) (k : ItemKey) (v : Bytes) (ts : Option (List EncEntryTag))
    (expiry : Option ℕ) (t t' : Tables) (o : Option Item)
    → find_item (has_key k) t.items ≡ o
    → TagsHaveItems t.items t.items_tags
    → lives now expiry ≡ true
    → written_row new_row k v ts expiry t o ≡ (ok tt, t')
    → fetch_query now k t' ≡ some (v, tags_or_nil ts)
unfolding is_live written_row tag_delete_query
written_row-found true now k v ts expiry t t' none e fk l h =
    let n = next_id t.items in
    let row = new_item k n v expiry in
    let t₁ : Tables = record t { items = t.items ++ (row ∷ []) } in
    let same : add_tags n ts t₁ ≡ t' = ap (λ p. p.1) h in
    let found : find_item (has_key k) (add_tags n ts t₁).items ≡ some row =
      rw (items-add_tags n ts t₁)
        (find_item-append (has_key k) t.items row e (new_item-has_key k n v expiry)) in
    rw
      (
        ← same,
        fetch_query_row now k (add_tags n ts t₁) row found l,
        tags_of-add_tags n ts t₁ (tags_of-next_id t.items t.items_tags fk),
      )
      refl
written_row-found false now k v ts expiry t t' (some i) e fk l h =
    let t₁ : Tables =
      tag_delete_query i.id (record t { items = map (set_value k v expiry) t.items }) in
    let same : add_tags i.id ts t₁ ≡ t' = ap (λ p. p.1) h in
    let found : find_item (has_key k) (add_tags i.id ts t₁).items
        ≡ some (record i { item_value = v; expiry = expiry }) =
      rw (items-add_tags i.id ts t₁) (find_item-set_value k v expiry t.items i e) in
    rw
      (
        ← same,
        fetch_query_row now k (add_tags i.id ts t₁) _ found l,
        tags_of-add_tags i.id ts t₁ (tags_of-keep i.id t.items_tags),
      )
      refl
written_row-found true now k v ts expiry t t' (some i) e fk l h =
    absurd (not_ok duplicate (ap (λ p. p.0) h))
written_row-found false now k v ts expiry t t' none e fk l h =
    absurd (not_ok not_found (ap (λ p. p.0) h))

-- A row that was written is found, with its tags and no others, if it does not expire before.
pub write_row-fetch_query :
    (new_row : Bool) (now : ℕ) (k : ItemKey) (v : Bytes) (ts : Option (List EncEntryTag))
    (expiry : Option ℕ) (t t' : Tables)
    → TagsHaveItems t.items t.items_tags
    → lives now expiry ≡ true
    → write_row new_row k v ts expiry t ≡ (ok tt, t')
    → fetch_query now k t' ≡ some (v, tags_or_nil ts)
write_row-fetch_query new_row now k v ts expiry t t' fk l h =
    written_row-found new_row now k v ts expiry t t' (find_item (has_key k) t.items) refl fk l
      (sym (write_row_lem new_row k v ts expiry t) ∙ h)

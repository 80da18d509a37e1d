-- ===== src/Storage/Sqlite.antt =====
-- The tables of a SQLite store and its statements: askar-storage/src/backend/sqlite/mod.rs and provision.rs. A statement
-- is a function on the tables, as the text of the statement says; that the database itself fails is left out.
pub mod Entries
pub mod Profiles
pub mod Rows
pub mod Found
mod Tests
pub mod Stored
pub mod Invariant
pub mod Kept
pub mod Removed
use iviadc_aries_askar.Base.{
  ℕ, zero, suc, ◌+◌, ◌-◌, ◌*◌, ◌/◌, ◌%◌, ◌^◌, ◌≤◌, ◌<◌, bit_xor, bit_or, bit_and, String, ◌≡◌, refl,
  sym, ap, ap₂, ◌∙◌, subst, ◌≢◌, ◌↔◌, ◌⊎◌, inl, inr, Bool, true, false, not, ◌&&◌, ◌||◌, xor,
  Option, none, some, List, [], ◌∷◌, ◌++◌, map, reverse, append-nil, append_assoc, arith, eq_iff,
  ltb, leb, ◌==◌, if◌then◌else◌, ltb→lt, lt→ltb, leb→le, ==_iff, Bool-cases, Option-cases, length,
  get_elem?, take, drop, replicate, length-append, take-append-drop, take-append, drop-append,
  length-take, length-drop, length-replicate, length-map, Bytes, take-append_of, drop-append_of,
  length-append_of, drop-drop, drop-take, take-take, drop-append_le, take-append_le,
  take-append_split, take_all, Result, ok, err, ◌>>=◌, collect, >>=-eq-ok,
}
use iviadc_aries_askar.Storage.Protect.ProfileKey.{EncEntryTag}

-- A row of `items`. A time is in milliseconds.
pub record Item : Type 0 where
  pub id : ℕ
  pub profile_id : ℕ
  pub kind : ℕ
  pub category : Bytes
  pub item_name : Bytes
  pub item_value : Bytes
  pub expiry : Option ℕ

-- A row of `items_tags`
pub record ItemTag : Type 0 where
  pub item_id : ℕ
  pub tag : EncEntryTag

pub record Tables : Type 0 where
  pub items : List Item
  pub items_tags : List ItemTag

unfoldable pub same_bytes : Bytes → Bytes → Bool
same_bytes [] [] = true
same_bytes (c ∷ s) (d ∷ t) = let rest = same_bytes s t in c == d && rest
same_bytes _ _ = false

-- The four columns of the unique index `ix_items_uniq`.
pub record ItemKey : Type 0 where
  pub of_profile : ℕ
  pub of_kind : ℕ
  pub of_category : Bytes
  pub of_name : Bytes

unfoldable pub has_key : ItemKey → Item → Bool
unfolding same_bytes
has_key k i =
    i.profile_id == k.of_profile
    && (i.kind == k.of_kind
        && (same_bytes i.category k.of_category && same_bytes i.item_name k.of_name))

unfoldable pub find_item : (Item → Bool) → List Item → Option Item
find_item p [] = none
find_item p (i ∷ is) = let rest = find_item p is in if p i then some i else rest

unfoldable pub keep : {A : Type 0} → (A → Bool) → List A → List A
keep p [] = []
keep p (a ∷ as') = let rest = keep p as' in if p a then a ∷ rest else rest

-- The id that SQLite gives to a new row: one more than the largest.
unfoldable pub next_id : List Item → ℕ
next_id [] = 1
next_id (i ∷ is) = let rest = next_id is in if ltb i.id rest then rest else i.id + 1

-- `DATETIME(expiry) > DATETIME('now')`, or no expiry: `DATETIME` keeps whole seconds.
unfoldable pub lives : ℕ → Option ℕ → Bool
lives now none = true
lives now (some t) = ltb (now / 1000) (t / 1000)

unfoldable pub is_live : ℕ → Item → Bool
unfolding lives
is_live now i = lives now i.expiry

-- `INSERT_QUERY`: the id of the new row, or `none` if a row with the key is there.
unfoldable pub insert_query : ItemKey → Bytes → Option ℕ → Tables → Option ℕ × Tables
unfolding find_item has_key next_id
insert_query k value expiry t = elim (find_item (has_key k) t.items) [
  | some i ↦ (none, t)
  | none ↦
      let row : Item = record {
        id = next_id t.items;
        profile_id = k.of_profile;
        kind = k.of_kind;
        category = k.of_category;
        item_name = k.of_name;
        item_value = value;
        expiry = expiry;
      } in
      (some (next_id t.items), record t { items = t.items ++ (row ∷ []) })
]

-- The row of the key with another value and expiry.
unfoldable pub set_value : ItemKey → Bytes → Option ℕ → Item → Item
unfolding has_key
set_value k value expiry i =
    if has_key k i then record i { item_value = value; expiry = expiry } else i

-- `UPDATE_QUERY`: the id of the row.
unfoldable pub update_query : ItemKey → Bytes → Option ℕ → Tables → Option ℕ × Tables
unfolding find_item has_key set_value
update_query k value expiry t = elim (find_item (has_key k) t.items) [
  | none ↦ (none, t)
  | some i ↦ (some i.id, record t { items = map (set_value k value expiry) t.items })
]

-- `TAG_DELETE_QUERY`
unfoldable pub tag_delete_query : ℕ → Tables → Tables
unfolding keep
tag_delete_query row_id t = record t {
  items_tags = keep (λ r. not (r.item_id == row_id)) t.items_tags;
}

-- The rows that `TAG_INSERT_QUERY` adds for a list of tags.
unfoldable pub tag_rows : ℕ → List EncEntryTag → List ItemTag
tag_rows row_id [] = []
tag_rows row_id (tag ∷ tags) = record { item_id = row_id; tag = tag } ∷ tag_rows row_id tags

unfoldable pub tag_insert_query : ℕ → List EncEntryTag → Tables → Tables
unfolding tag_rows
tag_insert_query row_id tags t = record t { items_tags = t.items_tags ++ tag_rows row_id tags }

-- A row of the list has the id.
unfoldable pub has_id : List Item → ℕ → Bool
has_id [] n = false
has_id (i ∷ is) n = let rest = has_id is n in i.id == n || rest

-- The rows that a deletion leaves. It cascades: the tags of the rows that are gone go with them.
unfoldable pub delete_items : (Item → Bool) → Tables → Tables
unfolding keep has_id
delete_items gone t =
    let kept = keep (λ i. not (gone i)) t.items in
    record { items = kept; items_tags = keep (λ r. has_id kept r.item_id) t.items_tags }

-- `DELETE_QUERY`: how many rows were deleted.
unfoldable pub delete_query : ItemKey → Tables → ℕ × Tables
unfolding keep has_key delete_items
delete_query k t = (length (keep (has_key k) t.items), delete_items (has_key k) t)

-- The tags of a row, as the subquery of `FETCH_QUERY` goes through them.
unfoldable pub tags_of : ℕ → List ItemTag → List EncEntryTag
tags_of n [] = []
tags_of n (r ∷ rs) = let rest = tags_of n rs in if r.item_id == n then r.tag ∷ rest else rest

-- `FETCH_QUERY`: the value and the tags.
unfoldable pub fetch_query : ℕ → ItemKey → Tables → Option (Bytes × List EncEntryTag)
unfolding find_item has_key is_live tags_of
fetch_query now k t = elim (find_item (λ i. has_key k i && is_live now i) t.items) [
  | none ↦ none
  | some i ↦ some (i.item_value, tags_of i.id t.items_tags)
]

-- ===== src/Storage/Sqlite/Invariant.antt =====
-- What every operation on the tables of a SQLite store keeps: the unique index on `items` and the foreign key of `items_tags`, as
-- askar-storage/src/backend/sqlite/provision.rs declares them.
use iviadc_aries_askar.Base.{
  ℕ, ◌≡◌, refl, ◌≢◌, inl, inr, Bool, true, false, Option, none, some, List, [], ◌∷◌, ◌++◌, map,
  arith, ◌==◌, Bool-cases, Bytes,
}
use iviadc_aries_askar.Storage.Protect.ProfileKey.{EncEntryTag}
use iviadc_aries_askar.Storage.Sqlite.{
  Item, ItemTag, Tables, ItemKey, same_bytes, has_key, find_item, keep, set_value, tag_rows, has_id,
}
use iviadc_aries_askar.Storage.Sqlite.Rows.{TagsHaveItems}
use iviadc_aries_askar.Storage.Sqlite.Found.{set_value-has_key}

abbrev pub key_of : Item → ItemKey
key_of i = record {
  of_profile = i.profile_id;
  of_kind = i.kind;
  of_category = i.category;
  of_name = i.item_name;
}

-- No two rows have the same key.
abbrev pub HaveUniqueKeys : List Item → Type 0
HaveUniqueKeys [] = Unit
HaveUniqueKeys (i ∷ is) = (find_item (has_key (key_of i)) is ≡ none) × HaveUniqueKeys is

abbrev pub IsTables : Tables → Type 0
IsTables t = HaveUniqueKeys t.items × TagsHaveItems t.items t.items_tags

pub some_not_none : (i : Item) → ◌≢◌ {A = Option Item} (some i) none
some_not_none i h = cc

find_item-none_append :
    (p : Item → Bool) (is : List Item) (j : Item)
    → find_item p is ≡ none
    → p j ≡ false
    → find_item p (is ++ (j ∷ [])) ≡ none
unfolding find_item
find_item-none_append p [] j h e = rw e refl
find_item-none_append p (i ∷ is) j h e = elim (Bool-cases (p i)) [
  | inl g ↦ let found = rw (find_item, g) at h in cc
  | inr g ↦ rw (find_item, g) (find_item-none_append p is j (rw (find_item, g) at h) e)
]

==-sym : (a b : ℕ) → (a == b) ≡ (b == a)
==-sym a b = ground arith

same_bytes-sym : (s t : Bytes) → same_bytes s t ≡ same_bytes t s
unfolding same_bytes
same_bytes-sym [] [] = refl
same_bytes-sym [] (d ∷ t) = refl
same_bytes-sym (c ∷ s) [] = refl
same_bytes-sym (c ∷ s) (d ∷ t) = rw (==-sym c d, same_bytes-sym s t) refl

has_key-sym : (i j : Item) → has_key (key_of i) j ≡ has_key (key_of j) i
unfolding has_key
has_key-sym i j =
    rw
      (
        ==-sym j.profile_id i.profile_id,
        ==-sym j.kind i.kind,
        same_bytes-sym j.category i.category,
        same_bytes-sym j.item_name i.item_name,
      )
      refl

-- A row with a new key joins the others.
pub append-HaveUniqueKeys :
    (is : List Item) (j : Item)
    → HaveUniqueKeys is
    → find_item (has_key (key_of j)) is ≡ none
    → HaveUniqueKeys (is ++ (j ∷ []))
unfolding find_item
append-HaveUniqueKeys [] j u h = (refl, tt)
append-HaveUniqueKeys (i ∷ is) j (ui, u) h = elim (Bool-cases (has_key (key_of j) i)) [
  | inl g ↦ let found = rw (find_item, g) at h in absurd (some_not_none i found)
  | inr g ↦ (
    find_item-none_append (has_key (key_of i)) is j ui (rw (has_key-sym i j) g),
    append-HaveUniqueKeys is j u (rw (find_item, g) at h),
  )
]

find_item-keep :
    (p q : Item → Bool) (is : List Item) → find_item p is ≡ none → find_item p (keep q is) ≡ none
unfolding find_item keep
find_item-keep p q [] h = refl
find_item-keep p q (i ∷ is) h = elim (Bool-cases (p i)) [
  | inl g ↦ let found = rw (find_item, g) at h in cc
  | inr g ↦ elim (Bool-cases (q i)) [
    | inl e ↦ rw (keep, e, find_item, g) (find_item-keep p q is (rw (find_item, g) at h))
    | inr e ↦ rw (keep, e) (find_item-keep p q is (rw (find_item, g) at h))
  ]
]

pub keep-HaveUniqueKeys :
    (q : Item → Bool) (is : List Item) → HaveUniqueKeys is → HaveUniqueKeys (keep q is)
unfolding keep
keep-HaveUniqueKeys q [] u = tt
keep-HaveUniqueKeys q (i ∷ is) (ui, u) = elim (Bool-cases (q i)) [
  | inl e ↦ rw (keep, e) (find_item-keep (has_key (key_of i)) q is ui, keep-HaveUniqueKeys q is u)
  | inr e ↦ rw (keep, e) (keep-HaveUniqueKeys q is u)
]

set_value-key_of :
    (k : ItemKey) (v : Bytes) (expiry : Option ℕ) (i : Item)
    → key_of (set_value k v expiry i) ≡ key_of i
unfolding set_value
set_value-key_of k v expiry i = elim (Bool-cases (has_key k i)) [
  | inl e ↦ rw (set_value, e) refl
  | inr e ↦ rw (set_value, e) refl
]

set_value-id :
    (k : ItemKey) (v : Bytes) (expiry : Option ℕ) (i : Item) → (set_value k v expiry i).id ≡ i.id
unfolding set_value
set_value-id k v expiry i = elim (Bool-cases (has_key k i)) [
  | inl e ↦ rw (set_value, e) refl
  | inr e ↦ rw (set_value, e) refl
]

find_item-map_set :
    (k j : ItemKey) (v : Bytes) (expiry : Option ℕ) (is : List Item)
    → find_item (has_key j) is ≡ none
    → find_item (has_key j) (map (set_value k v expiry) is) ≡ none
unfolding find_item
find_item-map_set k j v expiry [] h = refl
find_item-map_set k j v expiry (i ∷ is) h = elim (Bool-cases (has_key j i)) [
  | inl g ↦ let found = rw (find_item, g) at h in absurd (some_not_none i found)
  | inr g ↦
      rw (find_item, set_value-has_key k j v expiry i, g)
        (find_item-map_set k j v expiry is (rw (find_item, g) at h))
]

-- Another value and expiry change no key.
pub set_value-HaveUniqueKeys :
    (k : ItemKey) (v : Bytes) (expiry : Option ℕ) (is : List Item)
    → HaveUniqueKeys is
    → HaveUniqueKeys (map (set_value k v expiry) is)
set_value-HaveUniqueKeys k v expiry [] u = tt
set_value-HaveUniqueKeys k v expiry (i ∷ is) (ui, u) = (
  rw (set_value-key_of k v expiry i) (find_item-map_set k (key_of i) v expiry is ui),
  set_value-HaveUniqueKeys k v expiry is u,
)

pub has_id-append : (is js : List Item) (n : ℕ) → has_id is n ≡ true → has_id (is ++ js) n ≡ true
unfolding has_id
has_id-append [] js n h = cc
has_id-append (i ∷ is) js n h = ground (arith, has_id-append is js n)

pub has_id-set_value :
    (k : ItemKey) (v : Bytes) (expiry : Option ℕ) (is : List Item) (n : ℕ)
    → has_id (map (set_value k v expiry) is) n ≡ has_id is n
unfolding has_id
has_id-set_value k v expiry [] n = refl
has_id-set_value k v expiry (i ∷ is) n =
    rw (set_value-id k v expiry i, has_id-set_value k v expiry is n) refl

-- Where every id is kept, the tags keep their rows.
pub TagsHaveItems-mono :
    (is js : List Item) (rs : List ItemTag)
    → ((n : ℕ) → has_id is n ≡ true → has_id js n ≡ true)
    → TagsHaveItems is rs
    → TagsHaveItems js rs
TagsHaveItems-mono is js [] f h = tt
TagsHaveItems-mono is js (r ∷ rs) f (h, hs) = (f r.item_id h, TagsHaveItems-mono is js rs f hs)

pub TagsHaveItems-append :
    (is : List Item) (rs ss : List ItemTag)
    → TagsHaveItems is rs
    → TagsHaveItems is ss
    → TagsHaveItems is (rs ++ ss)
TagsHaveItems-append is [] ss h hs = hs
TagsHaveItems-append is (r ∷ rs) ss (h, hr) hs = (h, TagsHaveItems-append is rs ss hr hs)

pub tag_rows-TagsHaveItems :
    (is : List Item) (n : ℕ) (tags : List EncEntryTag)
    → has_id is n ≡ true
    → TagsHaveItems is (tag_rows n tags)
unfolding tag_rows
tag_rows-TagsHaveItems is n [] h = tt
tag_rows-TagsHaveItems is n (tag ∷ tags) h = (h, tag_rows-TagsHaveItems is n tags h)

pub keep-TagsHaveItems :
    (is : List Item) (q : ItemTag → Bool) (rs : List ItemTag)
    → TagsHaveItems is rs
    → TagsHaveItems is (keep q rs)
unfolding keep
keep-TagsHaveItems is q [] h = tt
keep-TagsHaveItems is q (r ∷ rs) (h, hs) = elim (Bool-cases (q r)) [
  | inl e ↦ rw (keep, e) (h, keep-TagsHaveItems is q rs hs)
  | inr e ↦ rw (keep, e) (keep-TagsHaveItems is q rs hs)
]

-- What the cascade leaves.
pub cascade-TagsHaveItems :
    (is : List Item) (rs : List ItemTag) → TagsHaveItems is (keep (λ r. has_id is r.item_id) rs)
unfolding keep
cascade-TagsHaveItems is [] = tt
cascade-TagsHaveItems is (r ∷ rs) = elim (Bool-cases (has_id is r.item_id)) [
  | inl e ↦ rw (keep, e) (e, cascade-TagsHaveItems is rs)
  | inr e ↦ rw (keep, e) (cascade-TagsHaveItems is rs)
]

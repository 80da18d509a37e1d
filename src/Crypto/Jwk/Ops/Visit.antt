-- ===== src/Crypto/Jwk/Ops/Visit.antt =====
-- Which lists of names are read as a set of operations, and as which one (askar-crypto/src/jwk/ops.rs, `visit_seq`).
use iviadc_aries_askar.Base.{
  ◌<◌, String, ◌≡◌, refl, sym, ap, ◌∙◌, inl, inr, Bool, true, false, ◌||◌, Option, none, some, List,
  [], ◌∷◌, arith, if◌then◌else◌, Bool-cases, Result, ok, err,
}
use iviadc_aries_askar.Crypto.Jwk.Ops.{
  KeyOps, encrypt, decrypt, sign, verify, wrap_key, unwrap_key, derive_key, derive_bits, KeyOpsSet,
  value_of, insert, contains, visit_seq, visit_from, as_str, try_from_str,
}
use iviadc_aries_askar.Crypto.Jwk.Ops.Union.{same, contains-insert}

-- The name is of the operation.
abbrev pub is_name_of : Option KeyOps → KeyOps → Bool
is_name_of none op = false
is_name_of (some found) op = same found op

-- The operation is named in the list.
unfoldable pub named : KeyOps → List String → Bool
named op [] = false
named op (name ∷ names) = is_name_of (try_from_str name) op || named op names

or_nothing : (b : Bool) → (b || false) ≡ b
or_nothing true = refl
or_nothing false = refl

or_assoc : (a b c : Bool) → ((a || b) || c) ≡ (a || (b || c))
or_assoc true b c = refl
or_assoc false b c = refl

-- What the loop does after it looked up a name.
abbrev after : Option KeyOps → KeyOpsSet → List String → Result KeyOpsSet String
after none v names = visit_from v names
after (some op) v names = if contains v op then err (as_str op) else visit_from (insert v op) names

visit_step :
    (v : KeyOpsSet) (name : String) (names : List String) (o : Option KeyOps)
    → try_from_str name ≡ o
    → visit_from v (name ∷ names) ≡ after o v names
unfolding visit_from
visit_step v name names none e = rw (e, visit_from) refl
visit_step v name names (some op) e = rw (e, visit_from) refl

went_on :
    (b : Bool) (name : String) (r : Result KeyOpsSet String) (result : KeyOpsSet)
    → (if b then err name else r) ≡ ok result
    → r ≡ ok result
went_on true name r result h = cc
went_on false name r result h = h

module _ (names : List String) (result : KeyOpsSet) (op : KeyOps) where
  after-contains :
      (o : Option KeyOps) (v : KeyOpsSet)
      → ((w : KeyOpsSet)
          → w < 256
          → visit_from w names ≡ ok result
          → contains result op ≡ (contains w op || named op names))
      → v < 256
      → after o v names ≡ ok result
      → contains result op ≡ (contains v op || (is_name_of o op || named op names))
  after-contains none v rest below h = rest v below h
  after-contains (some found) v rest below h =
      let (small, added) = contains-insert v found op below in
      let next =
        went_on (contains v found) (as_str found) (visit_from (insert v found) names) result h in
      rest (insert v found) small next
      ∙ ap (λ t. t || named op names) added
      ∙ or_assoc (contains v op) (same found op) (named op names)

visit_from-contains :
    (v : KeyOpsSet) (names : List String) (result : KeyOpsSet) (op : KeyOps)
    → v < 256
    → visit_from v names ≡ ok result
    → contains result op ≡ (contains v op || named op names)
unfolding visit_from named
visit_from-contains v [] result op below h =
    let e : v ≡ result = cc in rw (← e) (sym (or_nothing (contains v op)))
visit_from-contains v (name ∷ names) result op below h =
    after-contains names result op (try_from_str name) v
      (λ w small h. visit_from-contains w names result op small h) below
      (sym (visit_step v name names (try_from_str name) refl) ∙ h)

contains_nothing : (op : KeyOps) → contains 0 op ≡ false
unfolding contains value_of
contains_nothing encrypt = refl
contains_nothing decrypt = refl
contains_nothing sign = refl
contains_nothing verify = refl
contains_nothing wrap_key = refl
contains_nothing unwrap_key = refl
contains_nothing derive_key = refl
contains_nothing derive_bits = refl

-- No operation is named twice; names that are of no operation may be repeated.
abbrev pub IsDistinct : List String → Type 0
IsDistinct [] = Unit
IsDistinct (name ∷ names) =
    ((op : KeyOps) → is_name_of (try_from_str name) op ≡ true → named op names ≡ false)
    × IsDistinct names

same_refl : (op : KeyOps) → same op op ≡ true
unfolding same value_of
same_refl encrypt = refl
same_refl decrypt = refl
same_refl sign = refl
same_refl verify = refl
same_refl wrap_key = refl
same_refl unwrap_key = refl
same_refl derive_key = refl
same_refl derive_bits = refl

or_true : (a b : Bool) → b ≡ true → (a || b) ≡ true
or_true true b h = refl
or_true false b h = h

-- What is still to be named is not in the set.
abbrev Unseen : KeyOpsSet → List String → Type 0
Unseen v names = (op : KeyOps) → named op names ≡ true → contains v op ≡ false

after_succeeds :
    (o : Option KeyOps) (v : KeyOpsSet) (names : List String)
    → ((w : KeyOpsSet) → w < 256 → Unseen w names → (r : KeyOpsSet) × (visit_from w names ≡ ok r))
    → v < 256
    → ((op : KeyOps) → (is_name_of o op || named op names) ≡ true → contains v op ≡ false)
    → ((op : KeyOps) → is_name_of o op ≡ true → named op names ≡ false)
    → (r : KeyOpsSet) × (after o v names ≡ ok r)
after_succeeds none v names rest below unseen once = rest v below unseen
after_succeeds (some found) v names rest below unseen once =
    let absent : contains v found ≡ false =
      unseen found (ap (λ t. t || named found names) (same_refl found)) in
    let (r, e) = rest (insert v found) (contains-insert v found found below).0 (λ op n.
      let out = unseen op (or_true (same found op) (named op names) n) in
      let added = (contains-insert v found op below).1 in
      elim (Bool-cases (same found op)) [
        | inl s ↦ let no = once op s in cc
        | inr s ↦ rw (added, out, s) refl
      ]) in
    (r, rw (absent) e)

visit_from_succeeds :
    (v : KeyOpsSet) (names : List String)
    → v < 256
    → Unseen v names
    → IsDistinct names
    → (r : KeyOpsSet) × (visit_from v names ≡ ok r)
unfolding visit_from named
visit_from_succeeds v [] below unseen d = (v, refl)
visit_from_succeeds v (name ∷ names) below unseen (once, d) =
    let (r, e) =
      after_succeeds (try_from_str name) v names
        (λ w small u. visit_from_succeeds w names small u d) below unseen once in
    (r, visit_step v name names (try_from_str name) refl ∙ e)

-- A list that names no operation twice is read as a set, and the set has just the operations that the list names.
pub visit_seq-contains :
    (names : List String)
    → IsDistinct names
    → (result : KeyOpsSet) × (visit_seq names ≡ ok result)
      × ((op : KeyOps) → contains result op ≡ named op names)
unfolding visit_seq
visit_seq-contains names d =
    let zero_below : 0 < 256 = omega arith in
    let (result, e) = visit_from_succeeds 0 names zero_below (λ op n. contains_nothing op) d in
    (
      result,
      e,
      λ op.
          visit_from-contains 0 names result op zero_below e
          ∙ ap (λ t. t || named op names) (contains_nothing op),
    )

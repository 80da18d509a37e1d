-- ===== src/Storage/Wql/Query/Meaning.antt =====
-- What a query asks of an entry: the specification of wql/query.rs, independent of its code. A test
-- says how a comparison and a presence test come out for the entry at hand.
use iviadc_aries_askar.Base.{Bool, true, false, not, ◌&&◌, ◌||◌, List, [], ◌∷◌}
use iviadc_aries_askar.Storage.Wql.Ops.{CompareOp}
use iviadc_aries_askar.Storage.Wql.Query.{
  AbstractQuery, QueryList, and, or, negate, eq, neq, gt, gte, lt, lte, like, is_in, exist, nil,
  cons,
}

pub record Test {ℓ κ} (K : Type ℓ) (V : Type κ) : Type (ℓ ⊔ κ) where
  pub compare : CompareOp → K → V → Bool
  pub present : K → Bool

module _ {ℓ} {A : Type ℓ} where
  abbrev pub any : (A → Bool) → List A → Bool
  any p [] = false
  any p (x ∷ xs) = p x || any p xs

  abbrev pub every : (A → Bool) → List A → Bool
  every p [] = true
  every p (x ∷ xs) = p x && every p xs

unfoldable mutual
  pub sat {ℓ κ} : {K : Type ℓ} {V : Type κ} → Test K V → AbstractQuery K V → Bool
  sat t (and qs) = sat_all t qs
  sat t (or qs) = sat_any t qs
  sat t (negate q) = not (sat t q)
  sat t (eq k v) = t.compare CompareOp.eq k v
  sat t (neq k v) = t.compare CompareOp.neq k v
  sat t (gt k v) = t.compare CompareOp.gt k v
  sat t (gte k v) = t.compare CompareOp.gte k v
  sat t (lt k v) = t.compare CompareOp.lt k v
  sat t (lte k v) = t.compare CompareOp.lte k v
  sat t (like k v) = t.compare CompareOp.like k v
  sat t (is_in k vs) = any (t.compare CompareOp.eq k) vs
  sat t (exist ks) = every t.present ks

  pub sat_all {ℓ κ} : {K : Type ℓ} {V : Type κ} → Test K V → QueryList K V → Bool
  sat_all t nil = true
  sat_all t (cons q qs) = sat t q && sat_all t qs

  pub sat_any {ℓ κ} : {K : Type ℓ} {V : Type κ} → Test K V → QueryList K V → Bool
  sat_any t nil = false
  sat_any t (cons q qs) = sat t q || sat_any t qs

abbrev pub IsNonempty {ℓ κ} : {K : Type ℓ} {V : Type κ} → QueryList K V → Type 0
IsNonempty nil = ⊥
IsNonempty (cons _ _) = Unit

-- No conjunction and no disjunction in the query is empty.
abbrev mutual
  pub IsFull {ℓ κ} : {K : Type ℓ} {V : Type κ} → AbstractQuery K V → Type 0
  IsFull (and qs) = IsNonempty qs × AreFull qs
  IsFull (or qs) = IsNonempty qs × AreFull qs
  IsFull (negate q) = IsFull q
  IsFull _ = Unit

  pub AreFull {ℓ κ} : {K : Type ℓ} {V : Type κ} → QueryList K V → Type 0
  AreFull nil = Unit
  AreFull (cons q qs) = IsFull q × AreFull qs

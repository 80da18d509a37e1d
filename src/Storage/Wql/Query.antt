-- ===== src/Storage/Wql/Query.antt =====
-- Abstract queries: `AbstractQuery` with `optimise`, `map_names`, `map_values` and `map` of
-- askar-storage/src/wql/query.rs. The closures that `map` takes are functions: what a closure keeps
-- between its calls is left out.
pub mod Meaning
mod Optimise
mod NormalForm
mod Map
mod Tests
use iviadc_aries_askar.Base.{String, Option, none, some, List, [], ◌∷◌, Result, ok, ◌>>=◌, collect}

-- `QueryList` is the `Vec<Self>` inside a conjunction and a disjunction.
mutual
  pub data AbstractQuery {ℓ κ} (K : Type ℓ) (V : Type κ) : Type (ℓ ⊔ κ) where
    and or : QueryList K V → AbstractQuery K V
    negate : AbstractQuery K V → AbstractQuery K V
    eq neq gt gte lt lte like : K → V → AbstractQuery K V
    is_in : K → List V → AbstractQuery K V
    exist : List K → AbstractQuery K V

  pub data QueryList {ℓ κ} (K : Type ℓ) (V : Type κ) : Type (ℓ ⊔ κ) where
    nil : QueryList K V
    cons : AbstractQuery K V → QueryList K V → QueryList K V

-- `Query`
abbrev pub Query : Type 0
Query = AbstractQuery String String

module _ {ℓ κ} {K : Type ℓ} {V : Type κ} where
  -- `impl Default`
  unfoldable pub default : AbstractQuery K V
  default = and nil

  -- The `Not` arm of `optimise`, after the inner query was optimised.
  unfoldable pub optimise_negate : Option (AbstractQuery K V) → Option (AbstractQuery K V)
  optimise_negate none = none
  optimise_negate (some (negate nested)) = some nested
  optimise_negate (some other) = some (negate other)

  -- The `And` and `Or` arms, after the subqueries were optimised: `match subqueries.len()`.
  unfoldable pub collapse :
      (QueryList K V → AbstractQuery K V) → QueryList K V → Option (AbstractQuery K V)
  collapse join nil = none
  collapse join (cons q nil) = some q
  collapse join (cons q (cons r qs)) = some (join (cons q (cons r qs)))

  -- The `In` arm.
  unfoldable pub optimise_in : K → List V → AbstractQuery K V
  optimise_in key [] = is_in key []
  optimise_in key (target ∷ []) = eq key target
  optimise_in key (target ∷ other ∷ targets) = is_in key (target ∷ other ∷ targets)

  -- One step of `filter_map`.
  unfoldable pub keep_some : Option (AbstractQuery K V) → QueryList K V → QueryList K V
  keep_some none qs = qs
  keep_some (some q) qs = cons q qs

unfoldable mutual
  unfolding optimise_negate collapse optimise_in keep_some

  pub optimise {ℓ κ} : {K : Type ℓ} {V : Type κ} → AbstractQuery K V → Option (AbstractQuery K V)
  optimise (negate q) = optimise_negate (optimise q)
  optimise (and qs) = collapse and (optimise_list qs)
  optimise (or qs) = collapse or (optimise_list qs)
  optimise (is_in key targets) = some (optimise_in key targets)
  optimise other = some other

  pub optimise_list {ℓ κ} : {K : Type ℓ} {V : Type κ} → QueryList K V → QueryList K V
  optimise_list nil = nil
  optimise_list (cons q qs) = keep_some (optimise q) (optimise_list qs)

module _ {ℓ κ ℓ' κ' μ} {K : Type ℓ} {V : Type κ} {RK : Type ℓ'} {RV : Type κ'} {E : Type μ} where
  -- An arm of `map` for a comparison: the value is converted before the name.
  unfoldable pub map_comparison :
      (RK → RV → AbstractQuery RK RV)
      → (K → Result RK E)
      → (K → V → Result RV E)
      → K
      → V
      → Result (AbstractQuery RK RV) E
  map_comparison op kf vf k v = do v' ← vf k v; k' ← kf k; ok (op k' v')

unfoldable mutual
  unfolding map_comparison collect

  pub map_query {ℓ κ ℓ' κ' μ} :
      {K : Type ℓ} {V : Type κ} {RK : Type ℓ'} {RV : Type κ'} {E : Type μ}
      → (K → Result RK E)
      → (K → V → Result RV E)
      → AbstractQuery K V
      → Result (AbstractQuery RK RV) E
  map_query kf vf (eq k v) = map_comparison eq kf vf k v
  map_query kf vf (neq k v) = map_comparison neq kf vf k v
  map_query kf vf (gt k v) = map_comparison gt kf vf k v
  map_query kf vf (gte k v) = map_comparison gte kf vf k v
  map_query kf vf (lt k v) = map_comparison lt kf vf k v
  map_query kf vf (lte k v) = map_comparison lte kf vf k v
  map_query kf vf (like k v) = map_comparison like kf vf k v
  map_query kf vf (is_in k vs) = do vs' ← collect (vf k) vs; k' ← kf k; ok (is_in k' vs')
  map_query kf vf (exist ks) = do ks' ← collect kf ks; ok (exist ks')
  map_query kf vf (and qs) = do qs' ← map_list kf vf qs; ok (and qs')
  map_query kf vf (or qs) = do qs' ← map_list kf vf qs; ok (or qs')
  map_query kf vf (negate q) = do q' ← map_query kf vf q; ok (negate q')

  pub map_list {ℓ κ ℓ' κ' μ} :
      {K : Type ℓ} {V : Type κ} {RK : Type ℓ'} {RV : Type κ'} {E : Type μ}
      → (K → Result RK E)
      → (K → V → Result RV E)
      → QueryList K V
      → Result (QueryList RK RV) E
  map_list kf vf nil = ok nil
  map_list kf vf (cons q qs) = do q' ← map_query kf vf q; qs' ← map_list kf vf qs; ok (cons q' qs')

unfoldable pub map_names {ℓ κ ℓ' μ} :
    {K : Type ℓ} {V : Type κ} {RK : Type ℓ'} {E : Type μ}
    → (K → Result RK E)
    → AbstractQuery K V
    → Result (AbstractQuery RK V) E
unfolding map_query
map_names f q = map_query f (λ k v. ok v) q

unfoldable pub map_values {ℓ κ κ' μ} :
    {K : Type ℓ} {V : Type κ} {RV : Type κ'} {E : Type μ}
    → (K → V → Result RV E)
    → AbstractQuery K V
    → Result (AbstractQuery K RV) E
unfolding map_query
map_values f q = map_query (λ k. ok k) f q

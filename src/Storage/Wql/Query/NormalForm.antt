-- ===== src/Storage/Wql/Query/NormalForm.antt =====
-- `optimise` of wql/query.rs reaches a normal form and stays there.
use iviadc_aries_askar.Base.{◌≡◌, refl, ap, ◌≢◌, Option, none, some, List, [], ◌∷◌, arith, length}
use iviadc_aries_askar.Storage.Wql.Query.{
  AbstractQuery, QueryList, and, or, negate, is_in, nil, cons, optimise, optimise_list,
  optimise_negate, collapse, optimise_in, keep_some,
}

-- Normal forms, by the shape of the query.
abbrev IsNegation {ℓ κ} : {K : Type ℓ} {V : Type κ} → AbstractQuery K V → Type 0
IsNegation (negate _) = Unit
IsNegation _ = ⊥

abbrev IsJoin {ℓ κ} : {K : Type ℓ} {V : Type κ} → QueryList K V → Type 0
IsJoin nil = ⊥
IsJoin (cons _ nil) = ⊥
IsJoin (cons _ (cons _ _)) = Unit

-- No conjunction or disjunction of fewer than two parts, no double negation, no set of one value.
abbrev mutual
  pub IsOptimised {ℓ κ} : {K : Type ℓ} {V : Type κ} → AbstractQuery K V → Type 0
  IsOptimised (and qs) = IsJoin qs × AreOptimised qs
  IsOptimised (or qs) = IsJoin qs × AreOptimised qs
  IsOptimised (negate q) = IsOptimised q × (¬ IsNegation q)
  IsOptimised (is_in k vs) = length vs ≢ 1
  IsOptimised _ = Unit

  pub AreOptimised {ℓ κ} : {K : Type ℓ} {V : Type κ} → QueryList K V → Type 0
  AreOptimised nil = Unit
  AreOptimised (cons q qs) = IsOptimised q × AreOptimised qs

abbrev IsOptimised? {ℓ κ} : {K : Type ℓ} {V : Type κ} → Option (AbstractQuery K V) → Type 0
IsOptimised? none = Unit
IsOptimised? (some q) = IsOptimised q

module _ {K V : Type 0} where
  optimise_negate-IsOptimised :
      (o : Option (AbstractQuery K V)) → IsOptimised? o → IsOptimised? (optimise_negate o)
  unfolding optimise_negate
  optimise_negate-IsOptimised none h = tt
  optimise_negate-IsOptimised (some (negate q)) h = h.0
  optimise_negate-IsOptimised (some q) h = (h, λ n. n)

  collapse-IsOptimised :
      (join : QueryList K V → AbstractQuery K V)
      → ((qs : QueryList K V) → IsJoin qs → AreOptimised qs → IsOptimised (join qs))
      → (qs : QueryList K V) → AreOptimised qs
      → IsOptimised? (collapse join qs)
  unfolding collapse
  collapse-IsOptimised join hj nil h = tt
  collapse-IsOptimised join hj (cons q nil) h = h.0
  collapse-IsOptimised join hj (cons q (cons r qs)) h = hj (cons q (cons r qs)) tt h

  keep_some-AreOptimised :
      (o : Option (AbstractQuery K V)) (qs : QueryList K V)
      → IsOptimised? o
      → AreOptimised qs
      → AreOptimised (keep_some o qs)
  unfolding keep_some
  keep_some-AreOptimised none qs h hs = hs
  keep_some-AreOptimised (some q) qs h hs = (h, hs)

  optimise_in-IsOptimised : (k : K) (vs : List V) → IsOptimised (optimise_in k vs)
  unfolding optimise_in
  optimise_in-IsOptimised k [] = omega arith
  optimise_in-IsOptimised k (v ∷ []) = tt
  optimise_in-IsOptimised k (v ∷ w ∷ vs) = omega arith

  mutual
    unfolding optimise

    optimise_shape : (q : AbstractQuery K V) → IsOptimised? (optimise q)
    optimise_shape (negate q) = optimise_negate-IsOptimised (optimise q) (optimise_shape q)
    optimise_shape (and qs) =
        collapse-IsOptimised and (λ _ j a. (j, a)) (optimise_list qs) (optimise_list_shape qs)
    optimise_shape (or qs) =
        collapse-IsOptimised or (λ _ j a. (j, a)) (optimise_list qs) (optimise_list_shape qs)
    optimise_shape (is_in k vs) = optimise_in-IsOptimised k vs
    optimise_shape q = tt

    optimise_list_shape : (qs : QueryList K V) → AreOptimised (optimise_list qs)
    optimise_list_shape nil = tt
    optimise_list_shape (cons q qs) =
        keep_some-AreOptimised (optimise q) (optimise_list qs) (optimise_shape q)
          (optimise_list_shape qs)

  -- A query in normal form is left as it is.
  optimise_negate_fixed :
      (q : AbstractQuery K V) → ¬ IsNegation q → optimise_negate (some q) ≡ some (negate q)
  unfolding optimise_negate
  optimise_negate_fixed (negate q) h = absurd (h tt)
  optimise_negate_fixed q h = refl

  collapse_fixed :
      (join : QueryList K V → AbstractQuery K V) (qs : QueryList K V)
      → IsJoin qs
      → collapse join qs ≡ some (join qs)
  unfolding collapse
  collapse_fixed join nil h = elim h [ ]
  collapse_fixed join (cons q nil) h = elim h [ ]
  collapse_fixed join (cons q (cons r qs)) h = refl

  optimise_in_fixed : (k : K) (vs : List V) → length vs ≢ 1 → optimise_in k vs ≡ is_in k vs
  unfolding optimise_in
  optimise_in_fixed k [] h = refl
  optimise_in_fixed k (v ∷ []) h = absurd (h refl)
  optimise_in_fixed k (v ∷ w ∷ vs) h = refl

  mutual
    unfolding optimise keep_some

    optimise_fixed : (q : AbstractQuery K V) → IsOptimised q → optimise q ≡ some q
    optimise_fixed (negate q) (h, n) = rw (optimise_fixed q h) (optimise_negate_fixed q n)
    optimise_fixed (and qs) (j, h) = rw (optimise_list_fixed qs h) (collapse_fixed and qs j)
    optimise_fixed (or qs) (j, h) = rw (optimise_list_fixed qs h) (collapse_fixed or qs j)
    optimise_fixed (is_in k vs) h = ap some (optimise_in_fixed k vs h)
    optimise_fixed q h = refl

    optimise_list_fixed : (qs : QueryList K V) → AreOptimised qs → optimise_list qs ≡ qs
    optimise_list_fixed nil h = refl
    optimise_list_fixed (cons q qs) (h, hs) = rw (optimise_fixed q h, optimise_list_fixed qs hs)

-- Whatever `optimise` returns is in normal form (no conjunction or disjunction of fewer than two parts, no
-- negation of a negation, no set of exactly one value), and optimising it again returns it unchanged.
pub optimise_normal :
    {K V : Type 0} (q q' : AbstractQuery K V)
    → optimise q ≡ some q'
    → IsOptimised q' × (optimise q' ≡ some q')
optimise_normal q q' e =
    let shape : IsOptimised q' = rw e at (optimise_shape q) in (shape, optimise_fixed q' shape)

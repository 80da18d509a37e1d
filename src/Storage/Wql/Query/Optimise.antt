-- ===== src/Storage/Wql/Query/Optimise.antt =====
-- `optimise` of wql/query.rs keeps the meaning of a query.
use iviadc_aries_askar.Base.{◌≡◌, refl, ap, Bool, not, Option, some, List, [], ◌∷◌, arith}
use iviadc_aries_askar.Storage.Wql.Query.{
  AbstractQuery, QueryList, and, or, negate, is_in, nil, cons, optimise, optimise_list,
  optimise_negate, collapse, optimise_in, keep_some,
}
use iviadc_aries_askar.Storage.Wql.Query.Meaning.{
  Test, sat, sat_all, sat_any, IsFull, AreFull, IsNonempty,
}

module _ {K V : Type 0} (t : Test K V) where
  -- The optimised form of a query, if any, has a given meaning.
  abbrev Means : Bool → Option (AbstractQuery K V) → Type 0
  Means b o = (q : AbstractQuery K V) × (o ≡ some q) × (sat t q ≡ b)

  optimise_negate-Means :
      (b : Bool) (q : AbstractQuery K V) → sat t q ≡ b → Means (not b) (optimise_negate (some q))
  unfolding optimise_negate sat
  optimise_negate-Means b (negate r) h = (r, refl, ground arith)
  optimise_negate-Means b q h = (negate q, refl, ap not h)

  collapse_and-Means : (qs : QueryList K V) → IsNonempty qs → Means (sat_all t qs) (collapse and qs)
  unfolding collapse sat
  collapse_and-Means nil h = elim h [ ]
  collapse_and-Means (cons q nil) h = (q, refl, ground arith)
  collapse_and-Means (cons q (cons r qs)) h = (and (cons q (cons r qs)), refl, refl)

  collapse_or-Means : (qs : QueryList K V) → IsNonempty qs → Means (sat_any t qs) (collapse or qs)
  unfolding collapse sat
  collapse_or-Means nil h = elim h [ ]
  collapse_or-Means (cons q nil) h = (q, refl, ground arith)
  collapse_or-Means (cons q (cons r qs)) h = (or (cons q (cons r qs)), refl, refl)

  sat-optimise_in : (k : K) (vs : List V) → sat t (optimise_in k vs) ≡ sat t (is_in k vs)
  unfolding optimise_in sat
  sat-optimise_in k [] = refl
  sat-optimise_in k (v ∷ []) = ground arith
  sat-optimise_in k (v ∷ w ∷ vs) = refl

  -- What the optimised list of subqueries keeps.
  abbrev ListMeans : QueryList K V → QueryList K V → Type 0
  ListMeans qs qs' =
      (sat_all t qs' ≡ sat_all t qs)
      × (sat_any t qs' ≡ sat_any t qs)
      × (IsNonempty qs → IsNonempty qs')

  keep_some-ListMeans :
      (q : AbstractQuery K V) (qs qs' : QueryList K V) (o : Option (AbstractQuery K V))
      → Means (sat t q) o
      → ListMeans qs qs'
      → ListMeans (cons q qs) (keep_some o qs')
  unfolding keep_some sat
  keep_some-ListMeans q qs qs' o (q', e, h) (hall, hany, _) =
      rw e (rw (h, hall), rw (h, hany), λ _. tt)

module _ {K V : Type 0} (t : Test K V) where
  mutual
    unfolding optimise sat

    optimise-Means : (q : AbstractQuery K V) → IsFull q → Means t (sat t q) (optimise q)
    optimise-Means (negate q) f =
        let (q', e, h) = optimise-Means q f in rw e (optimise_negate-Means t (sat t q) q' h)
    optimise-Means (and qs) (ne, f) =
        let (hall, hany, hne) = optimise_list-ListMeans qs f in
        rw (← hall) (collapse_and-Means t (optimise_list qs) (hne ne))
    optimise-Means (or qs) (ne, f) =
        let (hall, hany, hne) = optimise_list-ListMeans qs f in
        rw (← hany) (collapse_or-Means t (optimise_list qs) (hne ne))
    optimise-Means (is_in k vs) f = (optimise_in k vs, refl, sat-optimise_in t k vs)
    optimise-Means q f = (q, refl, refl)

    optimise_list-ListMeans : (qs : QueryList K V) → AreFull qs → ListMeans t qs (optimise_list qs)
    optimise_list-ListMeans nil f = (refl, refl, λ h. h)
    optimise_list-ListMeans (cons q qs) (f, fs) =
        keep_some-ListMeans t q qs (optimise_list qs) (optimise q) (optimise-Means q f)
          (optimise_list-ListMeans qs fs)

-- A query in which no conjunction and no disjunction is empty always has an optimised form, and for every
-- entry this form gives the same answer as the query.
pub optimise_sound :
    {K V : Type 0} (t : Test K V) (q : AbstractQuery K V)
    → IsFull q
    → (q' : AbstractQuery K V) × (optimise q ≡ some q') × (sat t q' ≡ sat t q)
optimise_sound t q f = optimise-Means t q f

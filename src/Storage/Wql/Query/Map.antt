-- ===== src/Storage/Wql/Query/Map.antt =====
-- `map` of wql/query.rs keeps the meaning of a query when names and values keep theirs.
use iviadc_aries_askar.Base.{◌≡◌, refl, ap, not, List, [], ◌∷◌, Result, ok, collect, >>=-eq-ok}
use iviadc_aries_askar.Storage.Wql.Ops.{CompareOp}
use iviadc_aries_askar.Storage.Wql.Query.{
  AbstractQuery, QueryList, and, or, negate, eq, neq, gt, gte, lt, lte, like, is_in, exist, nil,
  cons, map_query, map_list, map_comparison,
}
use iviadc_aries_askar.Storage.Wql.Query.Meaning.{Test, sat, sat_all, sat_any, any, every}

-- The conversions of a name and a value keep what the tests say.
pub record Keeps {K V RK RV E : Type 0} (t : Test K V) (t' : Test RK RV) (kf : K → Result RK E)
    (vf : K → V → Result RV E) : Type 0 where
  pub compare_kept :
      (op : CompareOp) (k : K) (v : V) (k' : RK) (v' : RV)
      → kf k ≡ ok k'
      → vf k v ≡ ok v'
      → t'.compare op k' v' ≡ t.compare op k v
  pub present_kept : (k : K) (k' : RK) → kf k ≡ ok k' → t'.present k' ≡ t.present k

module _ {K V RK RV E : Type 0} (t : Test K V) (t' : Test RK RV) (kf : K → Result RK E)
    (vf : K → V → Result RV E) (keeps : Keeps t t' kf vf) where
  -- A comparison, read by its operator.
  map_comparison-sat :
      (op : CompareOp) (join : RK → RV → AbstractQuery RK RV)
      → ((k : RK) (v : RV) → sat t' (join k v) ≡ t'.compare op k v)
      → (k : K) (v : V) (q' : AbstractQuery RK RV) → map_comparison join kf vf k v ≡ ok q'
      → sat t' q' ≡ t.compare op k v
  unfolding map_comparison
  map_comparison-sat op join read k v q' h =
      let (v', hv, h₁) = >>=-eq-ok (vf k v) _ h in
      let (k', hk, h₂) = >>=-eq-ok (kf k) _ h₁ in
      let e : join k' v' ≡ q' = cc in rw (← e, read k' v') (keeps.compare_kept op k v k' v' hk hv)

  collect-any :
      (k : K) (k' : RK) (vs : List V) (vs' : List RV)
      → kf k ≡ ok k'
      → collect (vf k) vs ≡ ok vs'
      → any (t'.compare CompareOp.eq k') vs' ≡ any (t.compare CompareOp.eq k) vs
  unfolding collect
  collect-any k k' [] vs' hk h = let e : [] ≡ vs' = cc in rw (← e)
  collect-any k k' (v ∷ vs) vs' hk h =
      let (v', hv, h₁) = >>=-eq-ok (vf k v) _ h in
      let (ws, hs, h₂) = >>=-eq-ok (collect (vf k) vs) _ h₁ in
      let e : v' ∷ ws ≡ vs' = cc in
      rw (← e, keeps.compare_kept CompareOp.eq k v k' v' hk hv, collect-any k k' vs ws hk hs)

  collect-every :
      (ks : List K) (ks' : List RK)
      → collect kf ks ≡ ok ks'
      → every t'.present ks' ≡ every t.present ks
  unfolding collect
  collect-every [] ks' h = let e : [] ≡ ks' = cc in rw (← e)
  collect-every (k ∷ ks) ks' h =
      let (k', hk, h₁) = >>=-eq-ok (kf k) _ h in
      let (ls, hs, h₂) = >>=-eq-ok (collect kf ks) _ h₁ in
      let e : k' ∷ ls ≡ ks' = cc in rw (← e, keeps.present_kept k k' hk, collect-every ks ls hs)

  mutual
    unfolding map_query sat

    map_query-sat :
        (q : AbstractQuery K V) (q' : AbstractQuery RK RV)
        → map_query kf vf q ≡ ok q'
        → sat t' q' ≡ sat t q
    map_query-sat (eq k v) q' h = map_comparison-sat CompareOp.eq eq (λ _ _. refl) k v q' h
    map_query-sat (neq k v) q' h = map_comparison-sat CompareOp.neq neq (λ _ _. refl) k v q' h
    map_query-sat (gt k v) q' h = map_comparison-sat CompareOp.gt gt (λ _ _. refl) k v q' h
    map_query-sat (gte k v) q' h = map_comparison-sat CompareOp.gte gte (λ _ _. refl) k v q' h
    map_query-sat (lt k v) q' h = map_comparison-sat CompareOp.lt lt (λ _ _. refl) k v q' h
    map_query-sat (lte k v) q' h = map_comparison-sat CompareOp.lte lte (λ _ _. refl) k v q' h
    map_query-sat (like k v) q' h = map_comparison-sat CompareOp.like like (λ _ _. refl) k v q' h
    map_query-sat (is_in k vs) q' h =
        let (vs', hv, h₁) = >>=-eq-ok (collect (vf k) vs) _ h in
        let (k', hk, h₂) = >>=-eq-ok (kf k) _ h₁ in
        let e : is_in k' vs' ≡ q' = cc in rw (← e) (collect-any k k' vs vs' hk hv)
    map_query-sat (exist ks) q' h =
        let (ks', hk, h₁) = >>=-eq-ok (collect kf ks) _ h in
        let e : exist ks' ≡ q' = cc in rw (← e) (collect-every ks ks' hk)
    map_query-sat (and qs) q' h =
        let (qs', hq, h₁) = >>=-eq-ok (map_list kf vf qs) _ h in
        let e : and qs' ≡ q' = cc in rw (← e) (map_list-sat qs qs' hq).0
    map_query-sat (or qs) q' h =
        let (qs', hq, h₁) = >>=-eq-ok (map_list kf vf qs) _ h in
        let e : or qs' ≡ q' = cc in rw (← e) (map_list-sat qs qs' hq).1
    map_query-sat (negate q) q' h =
        let (r, hq, h₁) = >>=-eq-ok (map_query kf vf q) _ h in
        let e : negate r ≡ q' = cc in rw (← e) (ap not (map_query-sat q r hq))

    map_list-sat :
        (qs : QueryList K V) (qs' : QueryList RK RV)
        → map_list kf vf qs ≡ ok qs'
        → (sat_all t' qs' ≡ sat_all t qs) × (sat_any t' qs' ≡ sat_any t qs)
    map_list-sat nil qs' h = let e : nil ≡ qs' = cc in rw (← e) (refl, refl)
    map_list-sat (cons q qs) qs' h =
        let (r, hq, h₁) = >>=-eq-ok (map_query kf vf q) _ h in
        let (rs, hs, h₂) = >>=-eq-ok (map_list kf vf qs) _ h₁ in
        let e : cons r rs ≡ qs' = cc in
        let (hall, hany) = map_list-sat qs rs hs in
        rw (← e) (rw (map_query-sat q r hq, hall), rw (map_query-sat q r hq, hany))

-- If the conversions of names and values keep what two tests say of a comparison and of a presence, then a
-- query that `map` converts without an error has, under the second test, the meaning that the query had
-- under the first.
pub map_query_sound :
    {K V RK RV E : Type 0} (t : Test K V) (t' : Test RK RV) (kf : K → Result RK E)
    (vf : K → V → Result RV E)
    → Keeps t t' kf vf
    → (q : AbstractQuery K V) (q' : AbstractQuery RK RV) → map_query kf vf q ≡ ok q'
    → sat t' q' ≡ sat t q
map_query_sound t t' kf vf keeps q q' h = map_query-sat t t' kf vf keeps q q' h

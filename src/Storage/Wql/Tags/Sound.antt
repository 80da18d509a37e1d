-- ===== src/Storage/Wql/Tags/Sound.antt =====
-- The clause that wql/tags.rs makes of a query holds exactly where the query does.
use iviadc_aries_askar.Base.{
  String, ◌≡◌, refl, subst, Bool, true, false, not, ◌&&◌, Option, List, [], ◌∷◌, map, arith,
  if◌then◌else◌, ok, >>=-eq-ok,
}
use iviadc_aries_askar.Storage.Wql.Ops.{CompareOp, ConjunctionOp}
use iviadc_aries_askar.Storage.Wql.Query.{
  QueryList, and, or, negate, eq, neq, gt, gte, lt, lte, like, is_in, exist, nil, cons,
}
use iviadc_aries_askar.Storage.Wql.Query.Meaning.{
  Test, sat, sat_all, sat_any, any, every, IsNonempty,
}
use iviadc_aries_askar.Storage.Wql.Tags.{
  TagName, TagQuery, TagQueryEncoder, encode_tag_query, encode_list, encode_tag_exist,
  encode_each_exist, encode_one_exist, encode_query, conj_op,
}
use iviadc_aries_askar.Storage.Wql.Tags.Denotes.{
  signed, Says, AllMean, Denotes, IsEncodable, AreEncodable,
}

abbrev IsSome : {A : Type 0} → List A → Type 0
IsSome [] = ⊥
IsSome (_ ∷ _) = Unit

module _ {S Arg Clause : Type 0} (enc : TagQueryEncoder S Arg Clause) (t : Test TagName String)
    (Means : Clause → Bool → Type 0) (d : Denotes enc t Means) where
  encode_each_exist-denotes :
      (neg : Bool) (ks : List TagName) (s s' : S) (cs : List Clause)
      → encode_each_exist enc ks neg s ≡ ok (cs, s')
      → AllMean Means cs (map (λ k. signed neg (t.present k)) ks)
  unfolding encode_each_exist
  encode_each_exist-denotes neg [] s s' cs h = let e : [] ≡ cs = cc in rw (← e) tt
  encode_each_exist-denotes neg (k ∷ ks) s s' cs h =
      let ((o, s₁), h₁, h₂) = >>=-eq-ok (encode_one_exist enc k neg s) _ h in
      let ((rest, s₂), h₃, h₄) = >>=-eq-ok (encode_each_exist enc ks neg s₁) _ h₂ in
      let (c, eo, hc) = d.exist_denotes k neg s s₁ o h₁ in
      let hs = encode_each_exist-denotes neg ks s₁ s₂ rest h₃ in
      let h₅ = rw eo at h₄ in let e : c ∷ rest ≡ cs = cc in rw (← e) (hc, hs)

  -- A joined clause of at least one part.
  and-Says :
      (cs : List Clause) (bs : List Bool) (s s' : S) (o : Option Clause)
      → IsSome bs
      → AllMean Means cs bs
      → enc.encode_conj_clause ConjunctionOp.and cs s ≡ ok (o, s')
      → Says Means (every (λ b. b) bs) o
  and-Says [] [] s s' o n m h = absurd n
  and-Says [] (b ∷ bs) s s' o n m h = absurd m
  and-Says (c ∷ cs) bs s s' o n m h = d.and_denotes c cs bs s s' o m h

  or-Says :
      (cs : List Clause) (bs : List Bool) (s s' : S) (o : Option Clause)
      → IsSome bs
      → AllMean Means cs bs
      → enc.encode_conj_clause ConjunctionOp.or cs s ≡ ok (o, s')
      → Says Means (any (λ b. b) bs) o
  or-Says [] [] s s' o n m h = absurd n
  or-Says [] (b ∷ bs) s s' o n m h = absurd m
  or-Says (c ∷ cs) bs s s' o n m h = d.or_denotes c cs bs s s' o m h

  every-map : {A : Type 0} (p : A → Bool) (xs : List A) → every (λ b. b) (map p xs) ≡ every p xs
  every-map p [] = refl
  every-map p (x ∷ xs) = rw (every-map p xs) refl

  -- A test of several names is the conjunction of the tests of each, each negated or not.
  encode_tag_exist-denotes :
      (neg : Bool) (k l : TagName) (ks : List TagName) (s s' : S) (o : Option Clause)
      → encode_tag_exist enc (k ∷ l ∷ ks) neg s ≡ ok (o, s')
      → Says Means (every (λ j. signed neg (t.present j)) (k ∷ l ∷ ks)) o
  unfolding encode_tag_exist
  encode_tag_exist-denotes neg k l ks s s' o h =
      let ((cs, s₁), h₁, h₂) = >>=-eq-ok (encode_each_exist enc (k ∷ l ∷ ks) neg s) _ h in
      let hs = encode_each_exist-denotes neg (k ∷ l ∷ ks) s s₁ cs h₁ in
      let p : TagName → Bool = λ j. signed neg (t.present j) in
      subst (λ b. Says Means b o) (every-map p (k ∷ l ∷ ks))
        (and-Says cs (map p (k ∷ l ∷ ks)) s₁ s' o tt hs h₂)

  -- What the subqueries come to, each negated or not.
  abbrev truths : Bool → QueryList TagName String → List Bool
  truths neg nil = []
  truths neg (cons q qs) = signed neg (sat t q) ∷ truths neg qs

  IsSome-truths :
      (neg : Bool) (qs : QueryList TagName String) → IsNonempty qs → IsSome (truths neg qs)
  IsSome-truths neg nil n = absurd n
  IsSome-truths neg (cons q qs) n = tt

  every-truths :
      (neg : Bool) (qs : QueryList TagName String)
      → every (λ b. b) (truths neg qs) ≡ (if neg then not (sat_any t qs) else sat_all t qs)
  unfolding sat
  every-truths true nil = refl
  every-truths false nil = refl
  every-truths true (cons q qs) = rw (every-truths true qs) (ground arith)
  every-truths false (cons q qs) = rw (every-truths false qs) refl

  any-truths :
      (neg : Bool) (qs : QueryList TagName String)
      → any (λ b. b) (truths neg qs) ≡ (if neg then not (sat_all t qs) else sat_any t qs)
  unfolding sat
  any-truths true nil = refl
  any-truths false nil = refl
  any-truths true (cons q qs) = rw (any-truths true qs) (ground arith)
  any-truths false (cons q qs) = rw (any-truths false qs) refl

  -- The join of the subqueries under the operator that the negation turns.
  join_and-Says :
      (neg : Bool) (qs : QueryList TagName String) (cs : List Clause) (s s' : S) (o : Option Clause)
      → AllMean Means cs (truths neg qs)
      → IsNonempty qs
      → enc.encode_conj_clause (conj_op ConjunctionOp.and neg) cs s ≡ ok (o, s')
      → Says Means (signed neg (sat_all t qs)) o
  unfolding conj_op
  join_and-Says true qs cs s s' o m ne h =
      rw (← any-truths true qs) (or-Says cs (truths true qs) s s' o (IsSome-truths true qs ne) m h)
  join_and-Says false qs cs s s' o m ne h =
      rw (← every-truths false qs)
        (and-Says cs (truths false qs) s s' o (IsSome-truths false qs ne) m h)

  join_or-Says :
      (neg : Bool) (qs : QueryList TagName String) (cs : List Clause) (s s' : S) (o : Option Clause)
      → AllMean Means cs (truths neg qs)
      → IsNonempty qs
      → enc.encode_conj_clause (conj_op ConjunctionOp.or neg) cs s ≡ ok (o, s')
      → Says Means (signed neg (sat_any t qs)) o
  unfolding conj_op
  join_or-Says true qs cs s s' o m ne h =
      rw (← every-truths true qs)
        (and-Says cs (truths true qs) s s' o (IsSome-truths true qs ne) m h)
  join_or-Says false qs cs s s' o m ne h =
      rw (← any-truths false qs)
        (or-Says cs (truths false qs) s s' o (IsSome-truths false qs ne) m h)

  signed-not : (neg b : Bool) → signed neg (not b) ≡ signed (not neg) b
  signed-not true true = refl
  signed-not true false = refl
  signed-not false b = refl

  &&-true : (b : Bool) → (b && true) ≡ b
  &&-true true = refl
  &&-true false = refl

  mutual
    unfolding encode_tag_query sat

    encode_tag_query-Says :
        (q : TagQuery) (neg : Bool) (s s' : S) (o : Option Clause)
        → IsEncodable neg q
        → encode_tag_query enc q neg s ≡ ok (o, s')
        → Says Means (signed neg (sat t q)) o
    encode_tag_query-Says (eq k v) neg s s' o f h = d.op_denotes CompareOp.eq k v neg s s' o h
    encode_tag_query-Says (neq k v) neg s s' o f h = d.op_denotes CompareOp.neq k v neg s s' o h
    encode_tag_query-Says (gt k v) neg s s' o f h = d.op_denotes CompareOp.gt k v neg s s' o h
    encode_tag_query-Says (gte k v) neg s s' o f h = d.op_denotes CompareOp.gte k v neg s s' o h
    encode_tag_query-Says (lt k v) neg s s' o f h = d.op_denotes CompareOp.lt k v neg s s' o h
    encode_tag_query-Says (lte k v) neg s s' o f h = d.op_denotes CompareOp.lte k v neg s s' o h
    encode_tag_query-Says (like k v) neg s s' o f h = d.op_denotes CompareOp.like k v neg s s' o h
    encode_tag_query-Says (is_in k vs) neg s s' o f h = d.in_denotes k vs neg s s' o h
    encode_tag_query-Says (exist []) neg s s' o f h = absurd f
    encode_tag_query-Says (exist (k ∷ [])) neg s s' o f h =
        rw (&&-true (t.present k)) (d.exist_denotes k neg s s' o h)
    encode_tag_query-Says (exist (k ∷ l ∷ ks)) true s s' o f h = absurd (ground arith)
    encode_tag_query-Says (exist (k ∷ l ∷ ks)) false s s' o f h =
        encode_tag_exist-denotes false k l ks s s' o h
    encode_tag_query-Says (and qs) neg s s' o (ne, f) h =
        let ((cs, s₁), h₁, h₂) = >>=-eq-ok (encode_list enc qs neg s) _ h in
        join_and-Says neg qs cs s₁ s' o (encode_list-Says qs neg s s₁ cs f h₁) ne h₂
    encode_tag_query-Says (or qs) neg s s' o (ne, f) h =
        let ((cs, s₁), h₁, h₂) = >>=-eq-ok (encode_list enc qs neg s) _ h in
        join_or-Says neg qs cs s₁ s' o (encode_list-Says qs neg s s₁ cs f h₁) ne h₂
    encode_tag_query-Says (negate q) neg s s' o f h =
        rw (signed-not neg (sat t q)) (encode_tag_query-Says q (not neg) s s' o f h)

    encode_list-Says :
        (qs : QueryList TagName String) (neg : Bool) (s s' : S) (cs : List Clause)
        → AreEncodable neg qs
        → encode_list enc qs neg s ≡ ok (cs, s')
        → AllMean Means cs (truths neg qs)
    encode_list-Says nil neg s s' cs f h = let e : [] ≡ cs = cc in rw (← e) tt
    encode_list-Says (cons q qs) neg s s' cs (f, fs) h =
        let ((o, s₁), h₁, h₂) = >>=-eq-ok (encode_tag_query enc q neg s) _ h in
        let ((rest, s₂), h₃, h₄) = >>=-eq-ok (encode_list enc qs neg s₁) _ h₂ in
        let (c, eo, hc) = encode_tag_query-Says q neg s s₁ o f h₁ in
        let h₅ = rw eo at h₄ in
        let e : c ∷ rest ≡ cs = cc in rw (← e) (hc, encode_list-Says qs neg s₁ s₂ rest fs h₃)

-- If each clause that an encoder makes has the meaning of its test, and a join of clauses the meaning of the join, then
-- whenever the encoding of a query succeeds it gives a clause that means what the query says of the entry. The query
-- has no empty conjunction, disjunction or test of presence, and no test of several names under an odd number of
-- negations.
pub encode_query-Says :
    {S Arg Clause : Type 0} (enc : TagQueryEncoder S Arg Clause) (t : Test TagName String)
    (Means : Clause → Bool → Type 0)
    → Denotes enc t Means
    → (q : TagQuery) (s s' : S) (o : Option Clause) → IsEncodable false q
    → encode_query enc q s ≡ ok (o, s')
    → Says Means (sat t q) o
unfolding encode_query
encode_query-Says enc t Means d q s s' o f h =
    encode_tag_query-Says enc t Means d q false s s' o f h

every-not :
    {A : Type 0} (p : A → Bool) (k l : A) (ks : List A)
    → p k ≡ true
    → every (λ j. signed true (p j)) (k ∷ l ∷ ks) ≡ false
every-not p k l ks h = rw h

-- The negation of a test of several names is encoded wrongly: where the first name is present and the second
-- is not, the negated test holds, and the clause made for it means false.
pub negated_exist-Says :
    {S Arg Clause : Type 0} (enc : TagQueryEncoder S Arg Clause) (t : Test TagName String)
    (Means : Clause → Bool → Type 0)
    → Denotes enc t Means
    → (k l : TagName) (ks : List TagName) (s s' : S) (o : Option Clause) → t.present k ≡ true
    → t.present l ≡ false
    → encode_query enc (negate (exist (k ∷ l ∷ ks))) s ≡ ok (o, s')
    → (sat t (negate (exist (k ∷ l ∷ ks))) ≡ true) × Says Means false o
unfolding encode_query encode_tag_query sat
negated_exist-Says enc t Means d k l ks s s' o hk hl h =
    let made = encode_tag_exist-denotes enc t Means d true k l ks s s' o h in
    (rw (hk, hl), subst (λ b. Says Means b o) (every-not t.present k l ks hk) made)

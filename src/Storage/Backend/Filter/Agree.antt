-- ===== src/Storage/Backend/Filter/Agree.antt =====
-- Two encoders that run alike: the SQL clause of wql/sql.rs and the clause with its arguments in place.
use iviadc_aries_askar.Base.{
  ℕ, ◌+◌, String, ◌≡◌, refl, sym, ap, Bool, Option, none, some, List, [], ◌∷◌, ◌++◌, append-nil,
  append_assoc, length, length-append, Bytes, Result, ok, err, ◌>>=◌,
}
use iviadc_aries_askar.Storage.Error.{ErrorKind}
use iviadc_aries_askar.Storage.Wql.Ops.{CompareOp, ConjunctionOp}
use iviadc_aries_askar.Storage.Wql.Template.{Template, bound, bound-append}
use iviadc_aries_askar.Storage.Wql.Tags.{push}
use iviadc_aries_askar.Base.Decimal.{codes}
use iviadc_aries_askar.Storage.Wql.Sql.{empty_conj, pushed, match_prefix}
use iviadc_aries_askar.Storage.Wql.Sql.Inline.{
  inline_more, inline_op, inline_prefix, inline_test, inline_values, inline_empty, inline_joined,
}
use iviadc_aries_askar.Storage.Backend.Filter.Clauses.{AllFill}
use iviadc_aries_askar.Storage.Backend.Placeholders.Fills.{no_dollar, Fills, nil-Fills, text-Fills}

-- Two runs that end alike: with values that are related, or with the same error.
abbrev pub Agree :
    {A B : Type 0}
    → (A → List Bytes → B → Type 0)
    → Result (A × List Bytes) ErrorKind
    → Result (B × Unit {0}) ErrorKind
    → Type 0
Agree R (ok (a, s)) (ok (b, u)) = R a s b
Agree R (err e) (err e') = e ≡ e'
Agree R _ _ = ⊥

pub >>=-Agree :
    {A B C D : Type 0} (R : A → List Bytes → B → Type 0) (Q : C → List Bytes → D → Type 0)
    (r : Result (A × List Bytes) ErrorKind) (r' : Result (B × Unit {0}) ErrorKind)
    (next : A × List Bytes → Result (C × List Bytes) ErrorKind)
    (next' : B × Unit {0} → Result (D × Unit {0}) ErrorKind)
    → Agree R r r'
    → ((a : A) (s : List Bytes) (b : B) → R a s b → Agree Q (next (a, s)) (next' (b, tt)))
    → Agree Q (r >>= next) (r' >>= next')
>>=-Agree R Q (ok (a, s)) (ok (b, u)) next next' h k = k a s b h
>>=-Agree R Q (err e) (err e') next next' h k = h
>>=-Agree R Q (ok _) (err e) next next' h k = absurd h
>>=-Agree R Q (err e) (ok _) next next' h k = absurd h

-- The same argument, and nothing pushed.
abbrev pub Same : {A : Type 0} → List Bytes → A → List Bytes → A → Type 0
Same args a s b = (a ≡ b) × (s ≡ args)

pub Same-Agree :
    {A C D : Type 0} (Q : C → List Bytes → D → Type 0) (args : List Bytes)
    (r : Result (A × List Bytes) ErrorKind) (r' : Result (A × Unit {0}) ErrorKind)
    (next : A × List Bytes → Result (C × List Bytes) ErrorKind)
    (next' : A × Unit {0} → Result (D × Unit {0}) ErrorKind)
    → Agree (Same args) r r'
    → ((a : A) → Agree Q (next (a, args)) (next' (a, tt)))
    → Agree Q (r >>= next) (r' >>= next')
Same-Agree Q args r r' next next' h k =
    >>=-Agree (Same args) Q r r' next next' h λ a s b (e, es). rw (es, e) (k b)

pub pure-Agree :
    {A : Type 0} (args : List Bytes) (r : Result A ErrorKind)
    → Agree (Same args) (r >>= λ a. ok (a, args)) (r >>= λ a. ok (a, tt))
pure-Agree args (ok a) = (refl, refl)
pure-Agree args (err e) = refl

abbrev pub bounds : List Template → List Bytes
bounds [] = []
bounds (t ∷ ts) = bound t ++ bounds ts

module _ (show : ℕ → Bytes) (start_index : ℕ) where
  -- A clause that came out with its arguments pushed behind `args`.
  abbrev pub Placed : List Bytes → Option Bytes → List Bytes → Option Template → Type 0
  Placed args none s none = s ≡ args
  Placed args (some c) s (some t) = (s ≡ args ++ bound t) × Fills show start_index (length args) c t
  Placed args _ s _ = ⊥

  abbrev pub AllPlaced : List Bytes → List Bytes → List Bytes → List Template → Type 0
  AllPlaced args cs s ts = (s ≡ args ++ bounds ts) × AllFill show start_index (length args) cs ts

  pub push-AllPlaced :
      (args : List Bytes) (o : Option Bytes) (s : List Bytes) (o' : Option Template)
      (cs : List Bytes) (s' : List Bytes) (ts : List Template)
      → Placed args o s o'
      → AllPlaced s cs s' ts
      → AllPlaced args (push o cs) s' (push o' ts)
  push-AllPlaced args none s none cs s' ts h fs = rw h at fs
  push-AllPlaced args (some c) s (some t) cs s' ts (e, f) (e', fs) =
      let p : length s ≡ length args + length (bound t) = rw e (length-append args (bound t)) in
      (rw (e', e) (append_assoc args (bound t) (bounds ts)), (f, rw p at fs))
  push-AllPlaced args none s (some t) cs s' ts h fs = absurd h
  push-AllPlaced args (some c) s none cs s' ts h fs = absurd h

  pub join_clauses-bound :
      (op : ConjunctionOp) (ts : List Template) → bound (inline_joined op ts) ≡ bounds ts
  unfolding inline_joined bound
  join_clauses-bound op [] = refl
  join_clauses-bound op (t ∷ ts) =
      rw (bound-append t (inline_joined op ts), join_clauses-bound op ts) refl

  pub empty-Placed :
      (op : ConjunctionOp) (args s : List Bytes)
      → s ≡ args
      → Placed args (empty_conj op) s (inline_empty op)
  unfolding empty_conj inline_empty bound no_dollar
  empty-Placed ConjunctionOp.and args s h = h
  empty-Placed ConjunctionOp.or args s h = (
    rw h (sym (append-nil args)),
    text-Fills show start_index (length args) (codes "0") [] [] refl (nil-Fills show start_index _),
  )

  pub test-bound : (plain : Bool) → bound (inline_test plain) ≡ []
  unfolding bound inline_test
  test-bound plain = refl

  pub prefix-bound :
      (p : Option (String × Bytes)) (t : Template)
      → bound (inline_prefix p ++ t) ≡ pushed p ++ bound t
  unfolding bound inline_prefix
  prefix-bound none t = refl
  prefix-bound (some p) t = refl

  pub op-bound :
      (op : CompareOp) (n v : Bytes) (plain neg : Bool)
      → bound (inline_op op n v plain neg) ≡ n ∷ v ∷ pushed (match_prefix op v plain)
  unfolding bound inline_op
  op-bound op n v plain neg =
      rw
        (
          prefix-bound (match_prefix op v plain) (inline_test plain),
          test-bound plain,
          append-nil (pushed (match_prefix op v plain)),
        )
        refl

  pub more-bound : (vs : List Bytes) (t : Template) → bound (inline_more vs ++ t) ≡ vs ++ bound t
  unfolding bound inline_more
  more-bound [] t = refl
  more-bound (v ∷ vs) t = ap (λ r. v ∷ r) (more-bound vs t)

  pub values-bound :
      (vs : List Bytes) (t : Template) → bound (inline_values vs ++ t) ≡ vs ++ bound t
  unfolding bound inline_values
  values-bound [] t = refl
  values-bound (v ∷ vs) t = ap (λ r. v ∷ r) (more-bound vs t)

  pub nil-AllPlaced : (s : List Bytes) → AllPlaced s [] s []
  nil-AllPlaced s = (sym (append-nil s), tt)

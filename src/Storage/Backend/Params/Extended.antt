-- ===== src/Storage/Backend/Params/Extended.antt =====
-- The placeholders of an extended query stand for its parameters.
use iviadc_aries_askar.Base.{
  ℕ, suc, ◌+◌, ◌^◌, ◌<◌, ◌≡◌, refl, sym, ap, ◌∙◌, inl, inr, Bool, true, false, ◌&&◌, ◌||◌, Option,
  some, List, [], ◌∷◌, ◌++◌, map, append-nil, append_assoc, arith, leb, ◌==◌, Bool-cases, length,
  length-append, Bytes,
}
use iviadc_aries_askar.Base.Decimal.{codes}
use iviadc_aries_askar.Storage.Backend.Placeholders.{replace_arg_placeholders}
use iviadc_aries_askar.Storage.Backend.Placeholders.Fills.{
  Fills, no_dollar, nil-Fills, text-Fills, next-Fills, replace-Fills,
}
use iviadc_aries_askar.Storage.Wql.Template.{text, hole, Template, bound, number}
use iviadc_aries_askar.Storage.Backend.Params.{
  to_uppercase, is_some, ℤ, pos, negsuc, Param, blob, QueryParams, push_param, extend, int_or,
  OrderBy, is_select, add_filter, order_query, limited, limit_query, extend_query, starts_with,
  trim_start,
}

-- The number of parameters is counted.
abbrev pub IsCounted : QueryParams → Type 0
IsCounted p = p.count ≡ length p.args

push_param-IsCounted : (v : Param) (p : QueryParams) → IsCounted p → IsCounted (push_param v p)
unfolding push_param
push_param-IsCounted v p h = omega (arith, length-append p.args (v ∷ []), h)

extend_lem : (vs : List Bytes) (p : QueryParams) → (extend vs p).args ≡ p.args ++ map blob vs
unfolding extend push_param
extend_lem [] p = sym (append-nil p.args)
extend_lem (v ∷ vs) p =
    rw (extend_lem vs (push_param (blob v) p)) (append_assoc p.args (blob v ∷ []) (map blob vs))

extend-IsCounted : (vs : List Bytes) (p : QueryParams) → IsCounted p → IsCounted (extend vs p)
unfolding extend
extend-IsCounted [] p h = h
extend-IsCounted (v ∷ vs) p h =
    extend-IsCounted vs (push_param (blob v) p) (push_param-IsCounted (blob v) p h)

extend_count : (vs : List Bytes) (p : QueryParams) → (extend vs p).count ≡ p.count + length vs
unfolding extend push_param
extend_count [] p = omega arith
extend_count (v ∷ vs) p = omega (arith, extend_count vs (push_param (blob v) p))

limits : Template
limits = text (codes " LIMIT ") ∷ hole [] ∷ text (codes ", ") ∷ hole [] ∷ []

limits-Fills : (show : ℕ → Bytes) (n : ℕ) → Fills show n 0 (codes " LIMIT $$, $$") limits
unfolding limits no_dollar
limits-Fills show n = text-Fills show n 0 (codes " LIMIT ") _ _ refl (
    next-Fills show n 0 [] _ _ (
      text-Fills show n 1 (codes ", ") _ _ refl
        (next-Fills show n 1 [] [] [] (nil-Fills show n 2))))

limits-bound : length (bound limits) ≡ 2
unfolding limits bound
limits-bound = refl

limit_text :
    (show : ℕ → Bytes) (n : ℕ)
    → n + 2 < 2 ^ 63
    → replace_arg_placeholders show n (codes " LIMIT $$, $$")
      ≡ some (codes " LIMIT " ++ (show n ++ (codes ", " ++ show (n + 1))))
unfolding number limits
limit_text show n h =
    let e : suc n ≡ n + 1 = omega arith in
    let r =
      replace-Fills show n (codes " LIMIT $$, $$") limits (limits-Fills show n)
        (omega (arith, h, limits-bound)) in
    rw (append-nil (show (suc n)), e) at r

limited_lem :
    (show : ℕ → Bytes) (query : Bytes) (p : QueryParams) (offset limit : Option ℤ)
    → p.count + 3 < 2 ^ 63
    → limited show query p offset limit
      ≡ some (
        query
            ++ (codes " LIMIT " ++ (show (p.count + 1) ++ (codes ", " ++ show (p.count + 1 + 1)))),
        push_param (int_or (negsuc 0) limit) (push_param (int_or (pos 0) offset) p),
      )
unfolding limited
limited_lem show query p offset limit h =
    rw (limited, limit_text show (p.count + 1) (omega (arith, h))) refl

select_lem :
    (show : ℕ → Bytes) (query clause : Bytes) (args : QueryParams) (vs : List Bytes)
    (offset limit : Option ℤ) (order_by : Option OrderBy) (descending : Bool)
    → is_select (query ++ (codes " AND " ++ clause)) ≡ true
    → (is_some offset || is_some limit) ≡ true
    → extend_query show query args (some (clause, vs)) offset limit order_by descending
      ≡ limited show
          (order_query (query ++ (codes " AND " ++ clause)) order_by descending)
          (extend vs args)
          offset
          limit
unfolding extend_query add_filter limit_query
select_lem show query clause args vs offset limit order_by descending sel given =
    rw (sel, given) refl

same_limit :
    (show : ℕ → Bytes) (query : Bytes) (p : QueryParams) (a b c d : ℕ)
    → a ≡ c
    → b ≡ d
    → ◌≡◌ {A = Option (Bytes × QueryParams)}
        (some (query ++ (codes " LIMIT " ++ (show a ++ (codes ", " ++ show b))), p))
        (some (query ++ (codes " LIMIT " ++ (show c ++ (codes ", " ++ show d))), p))
same_limit show query p a b c d e f = rw (e, f) refl

both : (a b : Bool) → (a && b) ≡ true → (a ≡ true) × (b ≡ true)
both true b h = (refl, h)
both false b h = cc

starts_with-append : (s t p : Bytes) → starts_with s p ≡ true → starts_with (s ++ t) p ≡ true
unfolding starts_with
starts_with-append s t [] h = refl
starts_with-append [] t (c ∷ p) h = cc
starts_with-append (d ∷ s) t (c ∷ p) h =
    let (e, hs) = both (d == c) (starts_with s p) h in rw (e, starts_with-append s t p hs) refl

map-append {ℓ κ} :
    {A : Type ℓ} {B : Type κ} (f : A → B) (s t : List A) → map f (s ++ t) ≡ map f s ++ map f t
map-append f [] t = refl
map-append f (c ∷ s) t = ap (λ r. f c ∷ r) (map-append f s t)

trim_start-append :
    (s t : Bytes)
    → starts_with (map to_uppercase (trim_start s)) (codes "SELECT") ≡ true
    → trim_start (s ++ t) ≡ trim_start s ++ t
unfolding trim_start starts_with
trim_start-append [] t h = cc
trim_start-append (c ∷ s) t h = elim (Bool-cases ((leb 9 c && leb c 13) || c == b' ')) [
  | inl e ↦ rw e (trim_start-append s t (rw e at h))
  | inr e ↦ rw e refl
]

is_select-append : (s t : Bytes) → is_select s ≡ true → is_select (s ++ t) ≡ true
unfolding is_select
is_select-append s t h =
    rw (trim_start-append s t h, map-append to_uppercase (trim_start s) t)
      (starts_with-append (map to_uppercase (trim_start s)) (map to_uppercase t) (codes "SELECT") h)

-- What `extend_query` makes of a query with a filter and an offset or a limit: a placeholder has the number under which its
-- parameter is bound. The query begins with SELECT, the filter's placeholders are numbered behind the
-- parameters that were there, and these were counted.
pub extend_query-numbered :
    (show : ℕ → Bytes) (query : Bytes) (args : QueryParams) (t : Template) (offset limit : Option ℤ)
    (order_by : Option OrderBy) (descending : Bool)
    → is_select query ≡ true
    → IsCounted args
    → (is_some offset || is_some limit) ≡ true
    → args.count + length (bound t) + 3 < 2 ^ 63
    → (p : QueryParams) × (extend_query show query args
          (some (number show (args.count + 1) t, bound t))
          offset
          limit
          order_by
          descending
        ≡ some (
          order_query
                (query ++ (codes " AND " ++ number show (args.count + 1) t))
                order_by
                descending
              ++ (codes " LIMIT "
                  ++ (show (args.count + length (bound t) + 1)
                      ++ (codes ", " ++ show (args.count + length (bound t) + 2)))),
          p,
        ))
      × (p.args
          ≡ args.args
            ++ (map blob (bound t) ++ (int_or (pos 0) offset ∷ int_or (negsuc 0) limit ∷ [])))
      × IsCounted p
unfolding push_param bound
extend_query-numbered show query args t offset limit order_by descending sel counted given fits =
    let text = number show (args.count + 1) t in
    let params = extend (bound t) args in
    let num = extend-IsCounted (bound t) args counted in
    let len : params.count ≡ args.count + length (bound t) = extend_count (bound t) args in
    let query' = order_query (query ++ (codes " AND " ++ text)) order_by descending in
    let lim = limited_lem show query' params offset limit (omega (arith, len, fits)) in
    let e : params.count + 1 + 1 ≡ args.count + length (bound t) + 2 = omega (arith, len) in
    (
      push_param (int_or (negsuc 0) limit) (push_param (int_or (pos 0) offset) params),
      select_lem show query text args (bound t) offset limit order_by descending
            (is_select-append query (codes " AND " ++ text) sel) given
          ∙ lim
          ∙ same_limit show query' _ _ _ _ _ (omega (arith, len)) e,
      rw
          (
            extend_lem (bound t) args,
            append_assoc args.args (map blob (bound t)) (int_or (pos 0) offset ∷ []),
            append_assoc args.args (map blob (bound t) ++ (int_or (pos 0) offset ∷ []))
                (int_or (negsuc 0) limit ∷ []),
            append_assoc (map blob (bound t)) (int_or (pos 0) offset ∷ [])
                (int_or (negsuc 0) limit ∷ []),
          )
          refl,
      push_param-IsCounted (int_or (negsuc 0) limit) _
          (push_param-IsCounted (int_or (pos 0) offset) params num),
    )

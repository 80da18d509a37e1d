-- ===== src/Storage/Backend/Filter/Placed.antt =====
-- `encode_tag_filter` puts each argument where the clause wants it.
use iviadc_aries_askar.Base.{
  ℕ, ◌<◌, String, refl, Bool, not, List, [], ◌∷◌, append-nil, length, Bytes, Result, ◌>>=◌,
}
use iviadc_aries_askar.Storage.Error.{ErrorKind}
use iviadc_aries_askar.Storage.Wql.Ops.{CompareOp, ConjunctionOp}
use iviadc_aries_askar.Storage.Wql.Template.{text, Template, bound, bound-append}
use iviadc_aries_askar.Storage.Wql.Query.{
  QueryList, and, or, negate, eq, neq, gt, gte, lt, lte, like, is_in, exist, nil, cons,
}
use iviadc_aries_askar.Storage.Wql.Tags.{
  TagQueryEncoder, TagName, TagQuery, is_plaintext, encode_tag_op, encode_values, encode_tag_in,
  encode_one_exist, encode_each_exist, encode_tag_exist, conj_op, encode_tag_query, encode_list,
}
use iviadc_aries_askar.Base.Decimal.{codes}
use iviadc_aries_askar.Storage.Wql.Sql.{
  conj_clause, op_clause, in_clause, exist_clause, conj_clause, sql_encoder, value_arg, inner_name,
}
use iviadc_aries_askar.Storage.Wql.Sql.Inline.{
  inline_exist, inline_in, inline_test, inline_conj, inline_joined, inline_encoder,
}
use iviadc_aries_askar.Storage.Backend.Filter.Clauses.{
  op_text-Fills, in_text-Fills, exist_text-Fills, conj_text-Fills,
}
use iviadc_aries_askar.Storage.Backend.Filter.Agree.{
  Agree, >>=-Agree, Same, Same-Agree, pure-Agree, Placed, AllPlaced, push-AllPlaced,
  join_clauses-bound, empty-Placed, op-bound, values-bound, nil-AllPlaced,
}

module _ (show : ℕ → Bytes) (start_index : ℕ) (pos : 0 < start_index)
    (enc_name enc_value : String → Result Bytes ErrorKind) (as_bytes : String → Bytes) where
  unfoldable pub sql : TagQueryEncoder (List Bytes) Bytes Bytes
  unfolding sql_encoder
  sql = sql_encoder enc_name enc_value as_bytes

  unfoldable pub inline : TagQueryEncoder (Unit {0}) Bytes Template
  unfolding inline_encoder
  inline = inline_encoder enc_name enc_value as_bytes

  conj-Placed :
      (op : ConjunctionOp) (args cs s : List Bytes) (ts : List Template)
      → AllPlaced show start_index args cs s ts
      → Agree
          (Placed show start_index args)
          (sql.encode_conj_clause op cs s)
          (inline.encode_conj_clause op ts tt)
  unfolding sql inline conj_clause inline_conj bound
  conj-Placed op args [] s [] (e, f) =
      empty-Placed show start_index op args s (rw (append-nil args) at e)
  conj-Placed op args (c ∷ []) s (t ∷ []) (e, (f, fs)) = (rw (append-nil (bound t)) at e, f)
  conj-Placed op args (c ∷ d ∷ cs) s (t ∷ u ∷ ts) (e, fs) = (
    rw
        (
          bound-append t _,
          bound-append (inline_joined op (u ∷ ts)) _,
          append-nil (bound (inline_joined op (u ∷ ts))),
          join_clauses-bound show start_index op (u ∷ ts),
        )
        e,
    conj_text-Fills show start_index (length args) op c d cs t u ts fs,
  )
  conj-Placed op args [] s (t ∷ ts) (e, f) = absurd f
  conj-Placed op args (c ∷ cs) s [] (e, f) = absurd f
  conj-Placed op args (c ∷ []) s (t ∷ u ∷ ts) (e, (f, fs)) = absurd fs
  conj-Placed op args (c ∷ d ∷ cs) s (t ∷ []) (e, (f, fs)) = absurd fs

  name-Same :
      (name : TagName) (s : List Bytes)
      → Agree (Same s) (sql.encode_name name s) (inline.encode_name name tt)
  unfolding sql inline
  name-Same name s = pure-Agree s (enc_name (inner_name name))

  value-Same :
      (value : String) (plain : Bool) (s : List Bytes)
      → Agree (Same s) (sql.encode_value value plain s) (inline.encode_value value plain tt)
  unfolding sql inline
  value-Same value plain s = pure-Agree s (value_arg enc_name enc_value as_bytes value plain)

  op_clause-Placed :
      (op : CompareOp) (n v : Bytes) (plain neg : Bool) (s : List Bytes)
      → Agree
          (Placed show start_index s)
          (sql.encode_op_clause op n v plain neg s)
          (inline.encode_op_clause op n v plain neg tt)
  unfolding sql inline op_clause
  op_clause-Placed op n v plain neg s = (
    rw (op-bound show start_index op n v plain neg) refl,
    op_text-Fills show start_index (length s) op n v plain neg pos,
  )

  in_clause-Placed :
      (n : Bytes) (vs : List Bytes) (plain neg : Bool) (s : List Bytes)
      → Agree
          (Placed show start_index s)
          (sql.encode_in_clause n vs plain neg s)
          (inline.encode_in_clause n vs plain neg tt)
  unfolding sql inline in_clause inline_in bound
  in_clause-Placed n vs plain neg s = (
    rw (values-bound show start_index vs (text (codes ")") ∷ inline_test plain), append-nil vs)
        refl,
    in_text-Fills show start_index (length s) n vs plain neg,
  )

  exist_clause-Placed :
      (n : Bytes) (plain neg : Bool) (s : List Bytes)
      → Agree
          (Placed show start_index s)
          (sql.encode_exist_clause n plain neg s)
          (inline.encode_exist_clause n plain neg tt)
  unfolding sql inline exist_clause inline_exist bound
  exist_clause-Placed n plain neg s =
      (refl, exist_text-Fills show start_index (length s) n plain neg)

  op-Placed :
      (op : CompareOp) (name : TagName) (value : String) (neg : Bool) (s : List Bytes)
      → Agree
          (Placed show start_index s)
          (encode_tag_op sql op name value neg s)
          (encode_tag_op inline op name value neg tt)
  unfolding encode_tag_op
  op-Placed op name value neg s =
      Same-Agree (Placed show start_index s) s (sql.encode_name name s) (inline.encode_name name tt)
        _ _ (name-Same name s)
        λ n.
          Same-Agree (Placed show start_index s) s (sql.encode_value value (is_plaintext name) s)
            (inline.encode_value value (is_plaintext name) tt) _ _
            (value-Same value (is_plaintext name) s)
            λ v. op_clause-Placed op n v (is_plaintext name) neg s

  values-Same :
      (vs : List String) (plain : Bool) (s : List Bytes)
      → Agree (Same s) (encode_values sql vs plain s) (encode_values inline vs plain tt)
  unfolding encode_values
  values-Same [] plain s = (refl, refl)
  values-Same (v ∷ vs) plain s =
      Same-Agree (Same s) s (sql.encode_value v plain s) (inline.encode_value v plain tt) _ _
        (value-Same v plain s)
        λ a.
          Same-Agree (Same s) s (encode_values sql vs plain s) (encode_values inline vs plain tt) _
            _ (values-Same vs plain s) λ ws. (refl, refl)

  in-Placed :
      (name : TagName) (vs : List String) (neg : Bool) (s : List Bytes)
      → Agree
          (Placed show start_index s)
          (encode_tag_in sql name vs neg s)
          (encode_tag_in inline name vs neg tt)
  unfolding encode_tag_in
  in-Placed name vs neg s =
      Same-Agree (Placed show start_index s) s (sql.encode_name name s) (inline.encode_name name tt)
        _ _ (name-Same name s)
        λ n.
          Same-Agree (Placed show start_index s) s (encode_values sql vs (is_plaintext name) s)
            (encode_values inline vs (is_plaintext name) tt) _ _
            (values-Same vs (is_plaintext name) s)
            λ ws. in_clause-Placed n ws (is_plaintext name) neg s

  one_exist-Placed :
      (name : TagName) (neg : Bool) (s : List Bytes)
      → Agree
          (Placed show start_index s)
          (encode_one_exist sql name neg s)
          (encode_one_exist inline name neg tt)
  unfolding encode_one_exist
  one_exist-Placed name neg s =
      Same-Agree (Placed show start_index s) s (sql.encode_name name s) (inline.encode_name name tt)
        _ _ (name-Same name s) λ n. exist_clause-Placed n (is_plaintext name) neg s

  each_exist-Placed :
      (names : List TagName) (neg : Bool) (s : List Bytes)
      → Agree
          (AllPlaced show start_index s)
          (encode_each_exist sql names neg s)
          (encode_each_exist inline names neg tt)
  unfolding encode_each_exist
  each_exist-Placed [] neg s = nil-AllPlaced show start_index s
  each_exist-Placed (name ∷ names) neg s =
      >>=-Agree (Placed show start_index s) (AllPlaced show start_index s)
        (encode_one_exist sql name neg s) (encode_one_exist inline name neg tt) _ _
        (one_exist-Placed name neg s)
        λ o s₁ o' h.
          >>=-Agree (AllPlaced show start_index s₁) (AllPlaced show start_index s)
            (encode_each_exist sql names neg s₁) (encode_each_exist inline names neg tt) _ _
            (each_exist-Placed names neg s₁)
            λ cs s₂ ts hs. push-AllPlaced show start_index s o s₁ o' cs s₂ ts h hs

  -- The clauses of the parts, joined.
  join-Placed :
      (op : ConjunctionOp) (s : List Bytes) (r : Result (List Bytes × List Bytes) ErrorKind)
      (r' : Result (List Template × Unit {0}) ErrorKind)
      → Agree (AllPlaced show start_index s) r r'
      → Agree
          (Placed show start_index s)
          (r >>= λ p. sql.encode_conj_clause op p.0 p.1)
          (r' >>= λ p. inline.encode_conj_clause op p.0 p.1)
  join-Placed op s r r' h =
      >>=-Agree (AllPlaced show start_index s) (Placed show start_index s) r r' _ _ h
        λ cs s₁ ts hs. conj-Placed op s cs s₁ ts hs

  exist-Placed :
      (names : List TagName) (neg : Bool) (s : List Bytes)
      → Agree
          (Placed show start_index s)
          (encode_tag_exist sql names neg s)
          (encode_tag_exist inline names neg tt)
  unfolding encode_tag_exist
  exist-Placed [] neg s = refl
  exist-Placed (name ∷ []) neg s = one_exist-Placed name neg s
  exist-Placed (name ∷ other ∷ names) neg s =
      join-Placed ConjunctionOp.and s (encode_each_exist sql (name ∷ other ∷ names) neg s)
        (encode_each_exist inline (name ∷ other ∷ names) neg tt)
        (each_exist-Placed (name ∷ other ∷ names) neg s)

  mutual
    unfolding encode_tag_query

    pub query-Placed :
        (q : TagQuery) (neg : Bool) (s : List Bytes)
        → Agree
            (Placed show start_index s)
            (encode_tag_query sql q neg s)
            (encode_tag_query inline q neg tt)
    query-Placed (eq k v) neg s = op-Placed CompareOp.eq k v neg s
    query-Placed (neq k v) neg s = op-Placed CompareOp.neq k v neg s
    query-Placed (gt k v) neg s = op-Placed CompareOp.gt k v neg s
    query-Placed (gte k v) neg s = op-Placed CompareOp.gte k v neg s
    query-Placed (lt k v) neg s = op-Placed CompareOp.lt k v neg s
    query-Placed (lte k v) neg s = op-Placed CompareOp.lte k v neg s
    query-Placed (like k v) neg s = op-Placed CompareOp.like k v neg s
    query-Placed (is_in k vs) neg s = in-Placed k vs neg s
    query-Placed (exist ks) neg s = exist-Placed ks neg s
    query-Placed (and qs) neg s =
        join-Placed (conj_op ConjunctionOp.and neg) s (encode_list sql qs neg s)
          (encode_list inline qs neg tt) (list-Placed qs neg s)
    query-Placed (or qs) neg s =
        join-Placed (conj_op ConjunctionOp.or neg) s (encode_list sql qs neg s)
          (encode_list inline qs neg tt) (list-Placed qs neg s)
    query-Placed (negate q) neg s = query-Placed q (not neg) s

    list-Placed :
        (qs : QueryList TagName String) (neg : Bool) (s : List Bytes)
        → Agree
            (AllPlaced show start_index s)
            (encode_list sql qs neg s)
            (encode_list inline qs neg tt)
    list-Placed nil neg s = nil-AllPlaced show start_index s
    list-Placed (cons q qs) neg s =
        >>=-Agree (Placed show start_index s) (AllPlaced show start_index s)
          (encode_tag_query sql q neg s) (encode_tag_query inline q neg tt) _ _
          (query-Placed q neg s)
          λ o s₁ o' h.
            >>=-Agree (AllPlaced show start_index s₁) (AllPlaced show start_index s)
              (encode_list sql qs neg s₁) (encode_list inline qs neg tt) _ _ (list-Placed qs neg s₁)
              λ cs s₂ ts hs. push-AllPlaced show start_index s o s₁ o' cs s₂ ts h hs

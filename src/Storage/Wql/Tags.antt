-- ===== src/Storage/Wql/Tags.antt =====
-- Tag queries and their encoding into clauses: askar-storage/src/wql/tags.rs. An encoder is the
-- interface that the trait `TagQueryEncoder` states; its operations pass its state on. What an encoder
-- holds after an error is left out, since its callers drop it then.
mod Name
pub mod Denotes
pub mod Sound
mod Tests
use iviadc_aries_askar.Base.{
  String, Bool, true, false, not, Option, none, some, List, [], ◌∷◌, ◌==◌, if◌then◌else◌, Result,
  ok, err, ◌>>=◌, ◌>>◌,
}
use Prim.Native.Char.{code}
use iviadc_aries_askar.Storage.Error.{ErrorKind}
use iviadc_aries_askar.Storage.Wql.Ops
use iviadc_aries_askar.Storage.Wql.Ops.{CompareOp, ConjunctionOp}
use iviadc_aries_askar.Storage.Wql.Query.{
  AbstractQuery, QueryList, Query, and, or, negate, eq, neq, gt, gte, lt, lte, like, is_in, exist,
  nil, cons, map_names,
}

pub data TagName : Type 0 where
  encrypted plaintext : String → TagName

abbrev pub TagQuery : Type 0
TagQuery = AbstractQuery TagName String

-- `k.strip_prefix('~')`
unfoldable pub strip_tilde : String → Option String
strip_tilde String.[] = none
strip_tilde (String.◌∷◌ c s) = if code c == b'~' then some s else none

-- The closure of `tag_query`.
unfoldable pub tag_name : String → TagName
unfolding strip_tilde
tag_name k = elim (strip_tilde k) [ some plain ↦ plaintext plain | none ↦ encrypted k ]

-- `TagName::to_string`
unfoldable pub to_string : TagName → String
to_string (encrypted v) = v
to_string (plaintext v) = String.◌∷◌ "~" v

unfoldable pub validate_tag_query : TagQuery → Result (Unit {0}) ErrorKind
validate_tag_query q = ok tt

-- The closure never fails, so the error type of `map_names` is empty and `unwrap` does not panic.
unfoldable pub unwrap {ℓ} : {A : Type ℓ} → Result A ⊥ → A
unwrap (ok a) = a
unwrap (err e) = absurd e

unfoldable pub tag_query : Query → Result TagQuery ErrorKind
unfolding tag_name validate_tag_query unwrap map_names
tag_query q = do
  let result = unwrap (map_names (λ k. ok (tag_name k)) q)
  validate_tag_query result
  ok result

abbrev pub is_plaintext : TagName → Bool
is_plaintext (encrypted _) = false
is_plaintext (plaintext _) = true

-- A step of an encoder whose state is `S`.
abbrev pub Step {ℓ} : Type 0 → Type ℓ → Type ℓ
Step S A = S → Result (A × S) ErrorKind

pub record TagQueryEncoder (S Arg Clause : Type 0) : Type 0 where
  pub encode_name : TagName → Step S Arg
  pub encode_value : String → Bool → Step S Arg
  pub encode_op_clause : CompareOp → Arg → Arg → Bool → Bool → Step S (Option Clause)
  pub encode_in_clause : Arg → List Arg → Bool → Bool → Step S (Option Clause)
  pub encode_exist_clause : Arg → Bool → Bool → Step S (Option Clause)
  pub encode_conj_clause : ConjunctionOp → List Clause → Step S (Option Clause)

-- `flat_map(… .transpose())`: a subquery that gave no clause is left out.
abbrev pub push {ℓ} : {A : Type ℓ} → Option A → List A → List A
push none cs = cs
push (some c) cs = c ∷ cs

module _ {S Arg Clause : Type 0} (enc : TagQueryEncoder S Arg Clause) where
  unfoldable pub encode_tag_op : CompareOp → TagName → String → Bool → Step S (Option Clause)
  encode_tag_op op name value neg s = do
    (enc_name, s₁) ← enc.encode_name name s
    (enc_value, s₂) ← enc.encode_value value (is_plaintext name) s₁
    enc.encode_op_clause op enc_name enc_value (is_plaintext name) neg s₂

  unfoldable pub encode_values : List String → Bool → Step S (List Arg)
  encode_values [] plain s = ok ([], s)
  encode_values (v ∷ vs) plain s = do
    (a, s₁) ← enc.encode_value v plain s
    (rest, s₂) ← encode_values vs plain s₁
    ok (a ∷ rest, s₂)

  unfoldable pub encode_tag_in : TagName → List String → Bool → Step S (Option Clause)
  unfolding encode_values
  encode_tag_in name values neg s = do
    (enc_name, s₁) ← enc.encode_name name s
    (enc_values, s₂) ← encode_values values (is_plaintext name) s₁
    enc.encode_in_clause enc_name enc_values (is_plaintext name) neg s₂

  -- `encode_tag_exist` of one name.
  unfoldable pub encode_one_exist : TagName → Bool → Step S (Option Clause)
  encode_one_exist name neg s = do
    (enc_name, s₁) ← enc.encode_name name s
    enc.encode_exist_clause enc_name (is_plaintext name) neg s₁

  -- The loop over several names.
  unfoldable pub encode_each_exist : List TagName → Bool → Step S (List Clause)
  unfolding encode_one_exist
  encode_each_exist [] neg s = ok ([], s)
  encode_each_exist (name ∷ names) neg s = do
    (c, s₁) ← encode_one_exist name neg s
    (cs, s₂) ← encode_each_exist names neg s₁
    ok (push c cs, s₂)

  unfoldable pub encode_tag_exist : List TagName → Bool → Step S (Option Clause)
  unfolding encode_each_exist
  encode_tag_exist [] neg s = ok (none, s)
  encode_tag_exist (name ∷ []) neg s = encode_one_exist name neg s
  encode_tag_exist (name ∷ other ∷ names) neg s = do
    (cs, s₁) ← encode_each_exist (name ∷ other ∷ names) neg s
    enc.encode_conj_clause ConjunctionOp.and cs s₁

-- `if negate { op.negate() } else { op }`
unfoldable pub conj_op : ConjunctionOp → Bool → ConjunctionOp
unfolding Ops.negate
conj_op op neg = if neg then Ops.negate op else op

unfoldable mutual
  unfolding encode_tag_op encode_tag_in encode_tag_exist conj_op

  pub encode_tag_query :
      {S Arg Clause : Type 0}
      → TagQueryEncoder S Arg Clause
      → TagQuery
      → Bool
      → Step S (Option Clause)
  encode_tag_query enc (eq k v) neg s = encode_tag_op enc CompareOp.eq k v neg s
  encode_tag_query enc (neq k v) neg s = encode_tag_op enc CompareOp.neq k v neg s
  encode_tag_query enc (gt k v) neg s = encode_tag_op enc CompareOp.gt k v neg s
  encode_tag_query enc (gte k v) neg s = encode_tag_op enc CompareOp.gte k v neg s
  encode_tag_query enc (lt k v) neg s = encode_tag_op enc CompareOp.lt k v neg s
  encode_tag_query enc (lte k v) neg s = encode_tag_op enc CompareOp.lte k v neg s
  encode_tag_query enc (like k v) neg s = encode_tag_op enc CompareOp.like k v neg s
  encode_tag_query enc (is_in k vs) neg s = encode_tag_in enc k vs neg s
  encode_tag_query enc (exist ks) neg s = encode_tag_exist enc ks neg s
  encode_tag_query enc (and qs) neg s = do
    (cs, s₁) ← encode_list enc qs neg s
    enc.encode_conj_clause (conj_op ConjunctionOp.and neg) cs s₁
  encode_tag_query enc (or qs) neg s = do
    (cs, s₁) ← encode_list enc qs neg s
    enc.encode_conj_clause (conj_op ConjunctionOp.or neg) cs s₁
  encode_tag_query enc (negate q) neg s = encode_tag_query enc q (not neg) s

  -- The clauses of the subqueries, for `encode_tag_conj`.
  pub encode_list :
      {S Arg Clause : Type 0}
      → TagQueryEncoder S Arg Clause
      → QueryList TagName String
      → Bool
      → Step S (List Clause)
  encode_list enc nil neg s = ok ([], s)
  encode_list enc (cons q qs) neg s = do
    (c, s₁) ← encode_tag_query enc q neg s
    (cs, s₂) ← encode_list enc qs neg s₁
    ok (push c cs, s₂)

-- `TagQueryEncoder::encode_query`
unfoldable pub encode_query :
    {S Arg Clause : Type 0} → TagQueryEncoder S Arg Clause → TagQuery → Step S (Option Clause)
unfolding encode_tag_query
encode_query enc q s = encode_tag_query enc q false s

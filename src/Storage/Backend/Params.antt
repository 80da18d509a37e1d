-- ===== src/Storage/Backend/Params.antt =====
-- The parameters and the end of a query: `QueryParams`, `QueryPrepare` and `extend_query` of
-- askar-storage/src/backend/db_utils.rs. A parameter's type is the database's; a query is the list of its code points.
pub mod Extended
mod Tests
use iviadc_aries_askar.Base.{
  ℕ, zero, suc, ◌+◌, ◌-◌, ◌*◌, ◌/◌, ◌%◌, ◌^◌, ◌≤◌, ◌<◌, bit_xor, bit_or, bit_and, String, ◌≡◌, refl,
  sym, ap, ap₂, ◌∙◌, subst, ◌≢◌, ◌↔◌, ◌⊎◌, inl, inr, Bool, true, false, not, ◌&&◌, ◌||◌, xor,
  Option, none, some, List, [], ◌∷◌, ◌++◌, map, reverse, append-nil, append_assoc, arith, eq_iff,
  ltb, leb, ◌==◌, if◌then◌else◌, ltb→lt, lt→ltb, leb→le, ==_iff, Bool-cases, Option-cases, length,
  get_elem?, take, drop, replicate, length-append, take-append-drop, take-append, drop-append,
  length-take, length-drop, length-replicate, length-map, Bytes, take-append_of, drop-append_of,
  length-append_of, drop-drop, drop-take, take-take, drop-append_le, take-append_le,
  take-append_split, take_all, Result, ok, err, ◌>>=◌, collect, >>=-eq-ok,
}
use iviadc_aries_askar.Base.Decimal.{codes}
use iviadc_aries_askar.Storage.Backend.Placeholders.{placeholder, replace_arg_placeholders}

pub data ℤ : Type 0 where
  pos negsuc : ℕ → ℤ

-- What is bound to a query: an integer, bytes, or NULL.
pub data Param : Type 0 where
  int : ℤ → Param
  blob : Bytes → Param
  null : Param

pub record QueryParams : Type 0 where
  pub args : List Param
  pub count : ℕ

-- `new`
unfoldable pub no_params : QueryParams
no_params = record { args = []; count = 0 }

unfoldable pub push_param : Param → QueryParams → QueryParams
push_param val p = record { args = p.args ++ (val ∷ []); count = p.count + 1 }

unfoldable pub extend : List Bytes → QueryParams → QueryParams
unfolding push_param
extend [] p = p
extend (v ∷ vs) p = extend vs (push_param (blob v) p)

pub data OrderBy : Type 0 where
  id : OrderBy

unfoldable pub order_by_query : Bytes → OrderBy → Bool → Bytes
order_by_query query id descending =
    let ordered = query ++ codes " ORDER BY id" in
    if descending then ordered ++ codes " DESC" else ordered

-- `offset.unwrap_or(0)` and `limit.unwrap_or(-1)`
unfoldable pub int_or : ℤ → Option ℤ → Param
int_or default none = int default
int_or default (some n) = int n

abbrev pub is_some {ℓ} : {A : Type ℓ} → Option A → Bool
is_some none = false
is_some (some a) = true

module _ (show : ℕ → Bytes) where
  -- The clause that `limit_query` appends when an offset or a limit is given; `none` is a panic.
  unfoldable pub limited : Bytes → QueryParams → Option ℤ → Option ℤ → Option (Bytes × QueryParams)
  unfolding push_param int_or replace_arg_placeholders
  limited query args offset limit =
      let last_idx = args.count + 1 in
      elim (replace_arg_placeholders show last_idx (codes " LIMIT $$, $$")) [
        | none ↦ none
        | some text ↦ some (
          query ++ text,
          push_param (int_or (negsuc 0) limit) (push_param (int_or (pos 0) offset) args),
        )
      ]

  unfoldable pub limit_query :
      Bytes → QueryParams → Option ℤ → Option ℤ → Option (Bytes × QueryParams)
  unfolding limited
  limit_query query args offset limit =
      if is_some offset || is_some limit
      then limited query args offset limit
      else some (query, args)

-- `push_str(" AND ")` and the filter, its arguments behind those that are there.
unfoldable pub add_filter : Bytes → QueryParams → Option (Bytes × List Bytes) → Bytes × QueryParams
unfolding extend
add_filter query args none = (query, args)
add_filter query args (some (filter_clause, filter_args)) =
    (query ++ (codes " AND " ++ filter_clause), extend filter_args args)

-- `trim_start` and `to_uppercase` on a text of ASCII, as the queries are.
unfoldable pub trim_start : Bytes → Bytes
trim_start [] = []
trim_start (c ∷ s) =
    let rest = trim_start s in if (leb 9 c && leb c 13) || c == b' ' then rest else c ∷ s

unfoldable pub to_uppercase : ℕ → ℕ
to_uppercase c = if leb b'a' c && leb c b'z' then c - 32 else c

unfoldable pub starts_with : Bytes → Bytes → Bool
starts_with s [] = true
starts_with [] (c ∷ t) = false
starts_with (d ∷ s) (c ∷ t) = let rest = starts_with s t in d == c && rest

unfoldable pub is_select : Bytes → Bool
unfolding trim_start to_uppercase starts_with
is_select query = starts_with (map to_uppercase (trim_start query)) (codes "SELECT")

unfoldable pub order_query : Bytes → Option OrderBy → Bool → Bytes
unfolding order_by_query
order_query query none descending = query
order_query query (some order_by) descending = order_by_query query order_by descending

unfoldable pub extend_query :
    (ℕ → Bytes)
    → Bytes
    → QueryParams
    → Option (Bytes × List Bytes)
    → Option ℤ
    → Option ℤ
    → Option OrderBy
    → Bool
    → Option (Bytes × QueryParams)
unfolding add_filter is_select order_query limit_query
extend_query show query args tag_filter offset limit order_by descending =
    let (filtered, params) = add_filter query args tag_filter in
    if is_select filtered
    then limit_query show (order_query filtered order_by descending) params offset limit
    else some (filtered, params)

-- ===== src/Storage/Wql/Ops.antt =====
-- The comparison and conjunction operators of askar-storage/src/wql/tags.rs and their SQL text.
use iviadc_aries_askar.Base.{String, Option, none, some}

pub data CompareOp : Type 0 where
  eq neq gt gte lt lte like : CompareOp

pub data ConjunctionOp : Type 0 where
  and or : ConjunctionOp

-- `CompareOp::as_sql_str`
unfoldable pub as_sql_str : CompareOp → String
as_sql_str eq = "="
as_sql_str neq = "!="
as_sql_str gt = ">"
as_sql_str gte = ">="
as_sql_str lt = "<"
as_sql_str lte = "<="
as_sql_str like = "LIKE"

unfoldable pub as_sql_str_for_prefix : CompareOp → Option String
as_sql_str_for_prefix eq = some "="
as_sql_str_for_prefix neq = some "!="
as_sql_str_for_prefix gt = some ">="
as_sql_str_for_prefix gte = some ">="
as_sql_str_for_prefix lt = some "<="
as_sql_str_for_prefix lte = some "<="
as_sql_str_for_prefix like = none

-- `ConjunctionOp::as_sql_str`
unfoldable pub conj_sql_str : ConjunctionOp → String
conj_sql_str and = " AND "
conj_sql_str or = " OR "

-- `ConjunctionOp::negate`
unfoldable pub negate : ConjunctionOp → ConjunctionOp
negate and = or
negate or = and

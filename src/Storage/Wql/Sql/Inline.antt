-- ===== src/Storage/Wql/Sql/Inline.antt =====
-- The clauses of wql/sql.rs with each argument written where it belongs, in place of a placeholder: a second encoder,
-- which keeps no list of arguments.
use iviadc_aries_askar.Base.{
  String, Bool, Option, none, some, List, [], ◌∷◌, ◌++◌, Bytes, Result, ok, ◌>>=◌,
}
use iviadc_aries_askar.Base.Decimal.{codes, display}
use iviadc_aries_askar.Storage.Error.{ErrorKind}
use iviadc_aries_askar.Storage.Wql.Ops.{CompareOp, ConjunctionOp, as_sql_str, conj_sql_str}
use iviadc_aries_askar.Storage.Wql.Tags.{TagQueryEncoder}
use iviadc_aries_askar.Storage.Wql.Template.{text, hole, Template}
use iviadc_aries_askar.Storage.Wql.Sql.{
  inner_name, membership, flag, match_prefix, opening, value_arg,
}

unfoldable pub inline_test : Bool → Template
unfolding flag display
inline_test plain =
    text (codes " AND plaintext = ") ∷ text (display (flag plain)) ∷ text (codes ")") ∷ []

unfoldable pub inline_prefix : Option (String × Bytes) → Template
inline_prefix none = []
inline_prefix (some (pfx_op, v)) =
    text (codes " AND SUBSTR(value, 1, 12) ") ∷ text (codes pfx_op) ∷ text (codes " ") ∷ hole v ∷ []

unfoldable pub inline_op : CompareOp → Bytes → Bytes → Bool → Bool → Template
unfolding membership as_sql_str match_prefix inline_prefix inline_test
inline_op op name value plain neg =
    text (codes "i.id ")
    ∷ text (membership neg)
    ∷ text opening
    ∷ hole name
    ∷ text (codes " AND value ")
    ∷ text (codes (as_sql_str op))
    ∷ text (codes " ")
    ∷ hole value
    ∷ (inline_prefix (match_prefix op value plain) ++ inline_test plain)

unfoldable pub inline_more : List Bytes → Template
inline_more [] = []
inline_more (v ∷ vs) = text (codes ", ") ∷ hole v ∷ inline_more vs

unfoldable pub inline_values : List Bytes → Template
unfolding inline_more
inline_values [] = []
inline_values (v ∷ vs) = hole v ∷ inline_more vs

unfoldable pub inline_in : Bytes → List Bytes → Bool → Bool → Template
unfolding membership inline_values inline_test
inline_in name values plain neg =
    text (codes "i.id ")
    ∷ text (membership neg)
    ∷ text opening
    ∷ hole name
    ∷ text (codes " AND value IN (")
    ∷ (inline_values values ++ (text (codes ")") ∷ inline_test plain))

unfoldable pub inline_exist : Bytes → Bool → Bool → Template
unfolding membership inline_test
inline_exist name plain neg =
    text (codes "i.id ") ∷ text (membership neg) ∷ text opening ∷ hole name ∷ inline_test plain

unfoldable pub inline_joined : ConjunctionOp → List Template → Template
unfolding conj_sql_str
inline_joined op [] = []
inline_joined op (t ∷ ts) = text (codes (conj_sql_str op)) ∷ (t ++ inline_joined op ts)

unfoldable pub inline_empty : ConjunctionOp → Option Template
inline_empty ConjunctionOp.or = some (text (codes "0") ∷ [])
inline_empty ConjunctionOp.and = none

unfoldable pub inline_conj : ConjunctionOp → List Template → Option Template
unfolding inline_joined inline_empty
inline_conj op [] = inline_empty op
inline_conj op (t ∷ []) = some t
inline_conj op (t ∷ u ∷ ts) =
    some (text (codes "(") ∷ (t ++ (inline_joined op (u ∷ ts) ++ (text (codes ")") ∷ []))))

module _ (enc_name enc_value : String → Result Bytes ErrorKind) (as_bytes : String → Bytes) where
  unfoldable pub inline_encoder : TagQueryEncoder (Unit {0}) Bytes Template
  unfolding inner_name value_arg inline_op inline_in inline_exist inline_conj
  inline_encoder = record {
    encode_name = λ name s. (do n ← enc_name (inner_name name); ok (n, s));
    encode_value =
        λ value plain s. (do v ← value_arg enc_name enc_value as_bytes value plain; ok (v, s));
    encode_op_clause = λ op n v plain neg s. ok (some (inline_op op n v plain neg), s);
    encode_in_clause = λ n vs plain neg s. ok (some (inline_in n vs plain neg), s);
    encode_exist_clause = λ n plain neg s. ok (some (inline_exist n plain neg), s);
    encode_conj_clause = λ op ts s. ok (inline_conj op ts, s);
  }

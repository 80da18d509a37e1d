-- ===== src/Storage/Wql/Sql.antt =====
-- The SQL encoder of tag queries: askar-storage/src/wql/sql.rs. Its state is the list of arguments that it
-- pushed. A clause is the list of its code points; the closures that encrypt and `str::as_bytes` are parameters.
pub mod Inline
pub mod Predicate
pub mod Selects
pub mod Denotes
use iviadc_aries_askar.Base.{
  ℕ, zero, suc, ◌+◌, ◌-◌, ◌*◌, ◌/◌, ◌%◌, ◌^◌, ◌≤◌, ◌<◌, bit_xor, bit_or, bit_and, String, ◌≡◌, refl,
  sym, ap, ap₂, ◌∙◌, subst, ◌≢◌, ◌↔◌, ◌⊎◌, inl, inr, Bool, true, false, not, ◌&&◌, ◌||◌, xor,
  Option, none, some, List, [], ◌∷◌, ◌++◌, map, reverse, append-nil, append_assoc, arith, eq_iff,
  ltb, leb, ◌==◌, if◌then◌else◌, ltb→lt, lt→ltb, leb→le, ==_iff, Bool-cases, Option-cases, length,
  get_elem?, take, drop, replicate, length-append, take-append-drop, take-append, drop-append,
  length-take, length-drop, length-replicate, length-map, Bytes, take-append_of, drop-append_of,
  length-append_of, drop-drop, drop-take, take-take, drop-append_le, take-append_le,
  take-append_split, take_all, Result, ok, err, ◌>>=◌, collect, >>=-eq-ok,
}
use iviadc_aries_askar.Base.Decimal.{codes, display}
use iviadc_aries_askar.Storage.Error.{ErrorKind}
use iviadc_aries_askar.Storage.Wql.Ops.{
  CompareOp, ConjunctionOp, as_sql_str, as_sql_str_for_prefix, conj_sql_str,
}
use iviadc_aries_askar.Storage.Wql.Tags.{TagName, encrypted, plaintext, Step, TagQueryEncoder}

-- The name in either kind of tag name.
unfoldable pub inner_name : TagName → String
inner_name (encrypted name) = name
inner_name (plaintext name) = name

-- `if negate { "NOT IN" } else { "IN" }`
unfoldable pub membership : Bool → Bytes
membership neg = if neg then codes "NOT IN" else codes "IN"

-- `i32::from(is_plaintext)`
unfoldable pub flag : Bool → ℕ
flag plain = if plain then 1 else 0

-- The end of a clause.
unfoldable pub plaintext_test : Bool → Bytes
unfolding flag display
plaintext_test plain = codes " AND plaintext = " ++ (display (flag plain) ++ codes ")")

-- The test of the value's first 12 bytes and its argument, if there is one.
unfoldable pub match_prefix : CompareOp → Bytes → Bool → Option (String × Bytes)
unfolding as_sql_str_for_prefix
match_prefix op enc_value true = none
match_prefix op enc_value false = elim (as_sql_str_for_prefix op) [
  | none ↦ none
  | some pfx_op ↦ if ltb 12 (length enc_value) then some (pfx_op, take 12 enc_value) else none
]

unfoldable pub op_prefix : ℕ → Option (String × Bytes) → Bytes
unfolding display
op_prefix idx none = []
op_prefix idx (some (pfx_op, v)) =
    codes " AND SUBSTR(value, 1, 12) "
    ++ (codes pfx_op ++ (codes " " ++ (b'$' ∷ display (idx + 3))))

abbrev pub pushed : Option (String × Bytes) → List Bytes
pushed none = []
pushed (some (pfx_op, v)) = v ∷ []

abbrev pub opening : Bytes
opening = codes " (SELECT item_id FROM items_tags WHERE name = "

unfoldable pub op_text : ℕ → CompareOp → Bytes → Bool → Bool → Bytes
unfolding membership as_sql_str display plaintext_test
op_text idx op prefix plain neg =
    codes "i.id "
    ++ (membership neg
        ++ (opening
            ++ (b'$' ∷ display (idx + 1)
                ++ (codes " AND value "
                    ++ (codes (as_sql_str op)
                        ++ (codes " "
                            ++ (b'$' ∷ display (idx + 2) ++ (prefix ++ plaintext_test plain))))))))

-- `encode_op_clause`
unfoldable pub op_clause :
    CompareOp → Bytes → Bytes → Bool → Bool → Step (List Bytes) (Option Bytes)
unfolding match_prefix op_prefix op_text
op_clause op enc_name enc_value plain neg args =
    let idx = length args in
    let prefix = match_prefix op enc_value plain in
    ok (
      some (op_text idx op (op_prefix idx prefix) plain neg),
      args ++ (enc_name ∷ enc_value ∷ pushed prefix),
    )

-- `$$`, as many as there are values, with commas between; the text behind the first.
unfoldable pub more_values : List Bytes → Bytes
more_values [] = []
more_values (v ∷ vs) = codes ", " ++ (b'$' ∷ b'$' ∷ more_values vs)

unfoldable pub args_in : List Bytes → Bytes
unfolding more_values
args_in [] = []
args_in (v ∷ vs) = b'$' ∷ b'$' ∷ more_values vs

-- `encode_in_clause`
unfoldable pub in_clause : Bytes → List Bytes → Bool → Bool → Step (List Bytes) (Option Bytes)
unfolding membership args_in plaintext_test
in_clause enc_name enc_values plain neg args = ok (
  some (
      codes "i.id "
      ++ (membership neg
          ++ (opening
              ++ (b'$'
                  ∷ b'$'
                  ∷ (codes " AND value IN ("
                      ++ (args_in enc_values ++ (codes ")" ++ plaintext_test plain))))))),
  args ++ (enc_name ∷ enc_values),
)

-- `encode_exist_clause`
unfoldable pub exist_clause : Bytes → Bool → Bool → Step (List Bytes) (Option Bytes)
unfolding membership plaintext_test
exist_clause enc_name plain neg args = ok (
  some (codes "i.id " ++ (membership neg ++ (opening ++ (b'$' ∷ b'$' ∷ plaintext_test plain)))),
  args ++ (enc_name ∷ []),
)

-- The clauses behind the first, each behind the operator.
unfoldable pub join_clauses : ConjunctionOp → List Bytes → Bytes
unfolding conj_sql_str
join_clauses op [] = []
join_clauses op (c ∷ cs) = codes (conj_sql_str op) ++ (c ++ join_clauses op cs)

unfoldable pub empty_conj : ConjunctionOp → Option Bytes
empty_conj ConjunctionOp.or = some (codes "0")
empty_conj ConjunctionOp.and = none

-- `encode_conj_clause`: parentheses stand around two clauses or more.
unfoldable pub conj_clause : ConjunctionOp → List Bytes → Step (List Bytes) (Option Bytes)
unfolding join_clauses empty_conj
conj_clause op [] args = ok (empty_conj op, args)
conj_clause op (c ∷ []) args = ok (some c, args)
conj_clause op (c ∷ d ∷ cs) args =
    ok (some (codes "(" ++ (c ++ (join_clauses op (d ∷ cs) ++ codes ")"))), args)

module _ (enc_name enc_value : String → Result Bytes ErrorKind) (as_bytes : String → Bytes) where
  -- `encode_value`
  unfoldable pub value_arg : String → Bool → Result Bytes ErrorKind
  value_arg value true = ok (as_bytes value)
  value_arg value false = enc_value value

  unfoldable pub sql_encoder : TagQueryEncoder (List Bytes) Bytes Bytes
  unfolding inner_name value_arg op_clause in_clause exist_clause conj_clause
  sql_encoder = record {
    encode_name = λ name args. (do n ← enc_name (inner_name name); ok (n, args));
    encode_value = λ value plain args. (do v ← value_arg value plain; ok (v, args));
    encode_op_clause = op_clause;
    encode_in_clause = in_clause;
    encode_exist_clause = exist_clause;
    encode_conj_clause = conj_clause;
  }

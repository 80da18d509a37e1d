-- ===== src/Storage/Wql/Sql/Predicate.antt =====
-- What the SQL of wql/sql.rs asks of an entry: predicates on the rows of its encrypted tags, with their text and their
-- truth. How the database compares two values under an operator is a parameter.
use iviadc_aries_askar.Base.{
  String, Bool, true, false, not, ◌&&◌, ◌||◌, Option, none, some, List, [], ◌∷◌, ◌++◌,
  if◌then◌else◌, take, Bytes, Result, ok, err,
}
use iviadc_aries_askar.Base.Decimal.{codes}
use iviadc_aries_askar.Storage.Error.{ErrorKind}
use iviadc_aries_askar.Storage.Protect.ProfileKey.{EncEntryTag}
use iviadc_aries_askar.Storage.Wql.Ops.{CompareOp, ConjunctionOp, as_sql_str, conj_sql_str}
use iviadc_aries_askar.Storage.Wql.Query.Meaning.{Test, any}
use iviadc_aries_askar.Storage.Wql.Tags.{TagName, is_plaintext}
use iviadc_aries_askar.Storage.Wql.Tags.Denotes.{signed}
use iviadc_aries_askar.Storage.Wql.Template.{text, hole, Template}
use iviadc_aries_askar.Storage.Wql.Sql.{inner_name, value_arg}
use iviadc_aries_askar.Storage.Wql.Sql.Inline.{inline_prefix, inline_values}

-- The comparison of two values under the operator that the text names.
abbrev pub Compares : Type 0
Compares = String → Bytes → Bytes → Bool

-- What a row's value is tested for: nothing, a comparison with perhaps one of the first 12 bytes, or a list.
pub data ValueTest : Type 0 where
  any_value : ValueTest
  compared : String → Bytes → Option (String × Bytes) → ValueTest
  one_of : List Bytes → ValueTest

pub record RowTest : Type 0 where
  pub name : Bytes
  pub value : ValueTest
  pub plain : Bool

-- A predicate: the entry has, or has not, a row that passes a test; or a join of at least two.
mutual
  pub data Predicate : Type 0 where
    in_tags : Bool → RowTest → Predicate
    join : ConjunctionOp → Predicate → Predicate → PredicateList → Predicate

  pub data PredicateList : Type 0 where
    nil : PredicateList
    cons : Predicate → PredicateList → PredicateList

-- The text of the test of a value, before the rest of the clause.
unfoldable pub print_value : ValueTest → Template → Template
unfolding inline_prefix inline_values
print_value any_value rest = rest
print_value (compared op v prefix) rest =
    text (codes " AND value ")
    ∷ text (codes op)
    ∷ text (codes " ")
    ∷ hole v
    ∷ (inline_prefix prefix ++ rest)
print_value (one_of vs) rest =
    text (codes " AND value IN (") ∷ (inline_values vs ++ (text (codes ")") ∷ rest))

unfoldable pub print_row : Bool → RowTest → Template
unfolding print_value
print_row neg r =
    text (codes "i.id ")
    ∷ text (if neg then codes "NOT IN" else codes "IN")
    ∷ text (codes " (SELECT item_id FROM items_tags WHERE name = ")
    ∷ hole r.name
    ∷ print_value r.value (
        text (codes " AND plaintext = ")
        ∷ text (if r.plain then codes "1" else codes "0")
        ∷ text (codes ")")
        ∷ [])

unfoldable mutual
  unfolding print_row conj_sql_str

  pub print : Predicate → Template
  print (in_tags neg r) = print_row neg r
  print (join op p q ps) =
      text (codes "(")
      ∷ (print p
          ++ ((text (codes (conj_sql_str op)) ∷ (print q ++ print_rest op ps))
              ++ (text (codes ")") ∷ [])))

  pub print_rest : ConjunctionOp → PredicateList → Template
  print_rest op nil = []
  print_rest op (cons p ps) = text (codes (conj_sql_str op)) ∷ (print p ++ print_rest op ps)

unfoldable pub same_flag : Bool → Bool → Bool
same_flag true b = b
same_flag false b = not b

module _ (compares : Compares) where
  unfoldable pub value_holds : ValueTest → Bytes → Bool
  value_holds any_value a = true
  value_holds (compared op v none) a = compares op a v
  value_holds (compared op v (some (pfx_op, pfx))) a =
      compares op a v && compares pfx_op (take 12 a) pfx
  value_holds (one_of vs) a = any (λ v. compares "=" a v) vs

  unfoldable pub row_holds : RowTest → EncEntryTag → Bool
  unfolding value_holds same_flag
  row_holds r row =
      compares "=" row.name r.name
      && (value_holds r.value row.value && same_flag r.plain row.is_plaintext)

unfoldable mutual
  unfolding row_holds

  -- The predicate holds of an entry whose tags are the rows.
  pub eval : Compares → List EncEntryTag → Predicate → Bool
  eval compares rows (in_tags neg r) = signed neg (any (row_holds compares r) rows)
  eval compares rows (join ConjunctionOp.and p q ps) =
      eval compares rows p && (eval compares rows q && eval_all compares rows ps)
  eval compares rows (join ConjunctionOp.or p q ps) =
      eval compares rows p || (eval compares rows q || eval_any compares rows ps)

  pub eval_all : Compares → List EncEntryTag → PredicateList → Bool
  eval_all compares rows nil = true
  eval_all compares rows (cons p ps) = eval compares rows p && eval_all compares rows ps

  pub eval_any : Compares → List EncEntryTag → PredicateList → Bool
  eval_any compares rows nil = false
  eval_any compares rows (cons p ps) = eval compares rows p || eval_any compares rows ps

-- Some row has the encrypted name, the flag of the name's kind, and a value that passes the test.
unfoldable pub some_row : Compares → List EncEntryTag → Bytes → (Bytes → Bool) → Bool → Bool
unfolding same_flag
some_row compares rows n passes plain =
    any (λ row. compares "=" row.name n && (passes row.value && same_flag plain row.is_plaintext))
      rows

-- What the tests of a query come to for an entry with these rows: names and values are encrypted and then compared.
module _ (enc_name enc_value : String → Result Bytes ErrorKind) (as_bytes : String → Bytes)
    (compares : Compares) (rows : List EncEntryTag) where
  unfoldable pub tag_compare : CompareOp → TagName → String → Bool
  unfolding some_row inner_name value_arg as_sql_str
  tag_compare op k v = elim (enc_name (inner_name k)) [
    | err e ↦ false
    | ok n ↦ elim (value_arg enc_name enc_value as_bytes v (is_plaintext k)) [
      | err e ↦ false
      | ok w ↦ some_row compares rows n (λ a. compares (as_sql_str op) a w) (is_plaintext k)
    ]
  ]

  unfoldable pub tag_present : TagName → Bool
  unfolding some_row inner_name
  tag_present k = elim (enc_name (inner_name k)) [
    | err e ↦ false
    | ok n ↦ some_row compares rows n (λ a. true) (is_plaintext k)
  ]

  abbrev pub tag_test : Test TagName String
  tag_test = record { compare = tag_compare; present = tag_present }

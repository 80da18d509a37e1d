-- ===== src/Storage/Backend/Placeholders.antt =====
-- `replace_arg_placeholders` of askar-storage/src/backend/db_utils.rs: `$$` and `$N` in a clause become the
-- placeholders of the database. A text is the list of its code points, and `none` is a panic.
pub mod Fills
use iviadc_aries_askar.Base.{
  ℕ, zero, suc, ◌+◌, ◌-◌, ◌^◌, Option, none, some, [], ◌∷◌, ◌++◌, ltb, ◌==◌, if◌then◌else◌, length,
  Bytes,
}
use iviadc_aries_askar.Base.Decimal.{is_digit, value, display}

-- `i64` arithmetic on numbers that are not negative: overflow panics.
unfoldable pub checked_i64 : ℕ → Option ℕ
checked_i64 n = if ltb n (2 ^ 63) then some n else none

-- The default `QueryPrepare::placeholder`
unfoldable pub placeholder : ℕ → Bytes
unfolding display
placeholder n = b'?' ∷ display n

-- `QueryPrepare::placeholder` for PostgreSQL
unfoldable pub pg_placeholder : ℕ → Bytes
unfolding display
pg_placeholder n = b'$' ∷ display n

-- The digits at the front of a text.
unfoldable pub leading_digits : Bytes → Bytes
leading_digits [] = []
leading_digits (c ∷ s) = let rest = leading_digits s in if is_digit c then c ∷ rest else []

-- The number behind a `$`: `start_index` is at least 1 in every call, so that the difference is exact.
unfoldable pub numbered : ℕ → Bytes → Option ℕ
unfolding checked_i64 value
numbered start_index ds = elim (checked_i64 (value 0 ds)) [
  | none ↦ none
  | some n ↦ elim (checked_i64 (n + start_index)) [ some m ↦ some (m - 1) | none ↦ none ]
]

-- What stands behind a `$` at the front of the text: the number of the placeholder, and how many characters it takes up.
unfoldable pub sub_index : ℕ → ℕ → Bytes → Option (Option ℕ × ℕ)
unfolding numbered leading_digits
sub_index start_index index [] = none
sub_index start_index index (c ∷ s) =
    if c == b'$'
    then some (some index, 1)
    else if is_digit c
    then some (numbered start_index (c ∷ leading_digits s), suc (length (leading_digits s)))
    else none

unfoldable pub found : ℕ → ℕ → ℕ → Bytes → Option (Option ℕ × ℕ)
unfolding sub_index
found start_index index c s = if c == b'$' then sub_index start_index index s else none

abbrev pub prepend : Bytes → Option Bytes → Option Bytes
prepend s none = none
prepend s (some t) = some (s ++ t)

module _ (show : ℕ → Bytes) (start_index : ℕ) where
  -- The loop, with the index and the number of characters of a placeholder that are still to be skipped.
  unfoldable pub replace_from : ℕ → ℕ → Bytes → Option Bytes
  unfolding found checked_i64
  replace_from index skip [] = some []
  replace_from index (suc skip) (c ∷ s) = replace_from index skip s
  replace_from index zero (c ∷ s) = elim (found start_index index c s) [
    | none ↦ prepend (c ∷ []) (replace_from index 0 s)
    | some (none, taken) ↦ none
    | some (some n, taken) ↦ elim (checked_i64 (index + 1)) [
      | none ↦ none
      | some next ↦ prepend (show n) (replace_from next taken s)
    ]
  ]

  unfoldable pub replace_arg_placeholders : Bytes → Option Bytes
  unfolding replace_from
  replace_arg_placeholders filter = replace_from start_index 0 filter

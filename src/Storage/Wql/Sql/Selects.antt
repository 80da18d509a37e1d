-- ===== src/Storage/Wql/Sql/Selects.antt =====
-- The tests of a tag, and the rows that pass the tests of the SQL made for them (askar-storage/src/wql/sql.rs).
use iviadc_aries_askar.Base.{
  String, ◌≡◌, refl, sym, ap₂, ◌∙◌, inl, inr, Bool, true, false, ◌&&◌, ◌||◌, some, List, [], ◌∷◌,
  arith, ltb, if◌then◌else◌, Bool-cases, Option-cases, length, take, Bytes, Result, ok,
}
use iviadc_aries_askar.Base.Decimal.{codes, display}
use iviadc_aries_askar.Storage.Error.{ErrorKind}
use iviadc_aries_askar.Storage.Protect.ProfileKey.{EncEntryTag}
use iviadc_aries_askar.Storage.Wql.Ops.{CompareOp, as_sql_str, as_sql_str_for_prefix}
use iviadc_aries_askar.Storage.Wql.Query.Meaning.{any}
use iviadc_aries_askar.Storage.Wql.Template.{text, Template}
use iviadc_aries_askar.Storage.Wql.Sql.{value_arg, flag, match_prefix}
use iviadc_aries_askar.Storage.Wql.Sql.Inline.{inline_test}
use iviadc_aries_askar.Storage.Wql.Sql.Predicate.{
  Compares, compared, one_of, Predicate, print, same_flag, value_holds, row_holds, eval, some_row,
}

pub inline_test_lem :
    (plain : Bool)
    → inline_test plain
      ≡ text (codes " AND plaintext = ")
        ∷ text (if plain then codes "1" else codes "0")
        ∷ text (codes ")")
        ∷ []
unfolding inline_test flag display
inline_test_lem true = refl
inline_test_lem false = refl

module _ (enc_name enc_value : String → Result Bytes ErrorKind) (as_bytes : String → Bytes)
    (compares : Compares) (rows : List EncEntryTag) where
  -- A clause is the text of a predicate with this truth.
  abbrev pub Means : Template → Bool → Type 0
  Means c b = (p : Predicate) × (c ≡ print p) × (eval compares rows p ≡ b)

  -- Where an encrypted value passes a comparison with the encryption of some value of more than 12 bytes, their
  -- first 12 bytes pass the comparison that goes before it.
  abbrev pub PrefixesAgree : List EncEntryTag → Type 0
  PrefixesAgree [] = Unit
  PrefixesAgree (row ∷ rest) =
      ((op : CompareOp) (v : String) (w : Bytes) (pfx_op : String)
        → row.is_plaintext ≡ false
        → enc_value v ≡ ok w
        → as_sql_str_for_prefix op ≡ some pfx_op
        → compares (as_sql_str op) row.value w ≡ true
        → compares pfx_op (take 12 row.value) (take 12 w) ≡ true)
      × PrefixesAgree rest

  implied : (a b : Bool) → (a ≡ true → b ≡ true) → (a && b) ≡ a
  implied true b h = h refl
  implied false b h = refl

  when_flagged : (x y z f : Bool) → (f ≡ true → y ≡ z) → (x && (y && f)) ≡ (x && (z && f))
  when_flagged x y z true h = rw (h refl) refl
  when_flagged x true true false h = refl
  when_flagged x true false false h = refl
  when_flagged x false true false h = refl
  when_flagged x false false false h = refl

  -- The test of the first bytes takes no row away.
  prefixed :
      (op : CompareOp) (v : String) (w : Bytes) (plain : Bool) (row : EncEntryTag)
      → value_arg enc_name enc_value as_bytes v plain ≡ ok w
      → PrefixesAgree (row ∷ [])
      → same_flag plain row.is_plaintext ≡ true
      → value_holds compares (compared (as_sql_str op) w (match_prefix op w plain)) row.value
        ≡ compares (as_sql_str op) row.value w
  unfolding value_holds match_prefix same_flag value_arg
  prefixed op v w true row e (agree, _) f = refl
  prefixed op v w false row e (agree, _) f = elim (Option-cases (as_sql_str_for_prefix op)) [
    | inl n ↦ rw (match_prefix, n) refl
    | inr (pfx_op, n) ↦ elim (Bool-cases (ltb 12 (length w))) [
      | inr s ↦ rw (match_prefix, n, s) refl
      | inl l ↦
          rw (match_prefix, n, l)
            (implied (compares (as_sql_str op) row.value w)
              (compares pfx_op (take 12 row.value) (take 12 w))
              (agree op v w pfx_op (ground arith) e n))
    ]
  ]

  pub op_rows :
      (op : CompareOp) (v : String) (n w : Bytes) (plain : Bool) (rs : List EncEntryTag)
      → value_arg enc_name enc_value as_bytes v plain ≡ ok w
      → PrefixesAgree rs
      → any
          (row_holds compares (record {
            name = n;
            value = compared (as_sql_str op) w (match_prefix op w plain);
            plain = plain;
          }))
          rs
        ≡ some_row compares rs n (λ a. compares (as_sql_str op) a w) plain
  unfolding row_holds some_row
  op_rows op v n w plain [] e h = refl
  op_rows op v n w plain (row ∷ rs) e (agree, h) =
      ap₂ (λ a b. a || b)
        (when_flagged (compares "=" row.name n) _ (compares (as_sql_str op) row.value w)
          (same_flag plain row.is_plaintext) (prefixed op v w plain row e (agree, tt)))
        (op_rows op v n w plain rs e h)

  -- A row whose value is one of a list is, for one of the list, a row with that value.
  one_of_row :
      (x f : Bool) (a : Bytes) (ws : List Bytes)
      → (x && (any (λ w. compares "=" a w) ws && f)) ≡ any (λ w. x && (compares "=" a w && f)) ws
  one_of_row x f a [] = ground arith
  one_of_row x f a (w ∷ ws) = rw (← one_of_row x f a ws) (ground arith)

  any-or :
      (p q : Bytes → Bool) (ws : List Bytes) → (any p ws || any q ws) ≡ any (λ w. p w || q w) ws
  any-or p q [] = refl
  any-or p q (w ∷ ws) = rw (← any-or p q ws) (ground arith)

  any-false : (ws : List Bytes) → any (λ w. false) ws ≡ false
  any-false [] = refl
  any-false (w ∷ ws) = any-false ws

  pub in_rows :
      (n : Bytes) (ws : List Bytes) (plain : Bool) (rs : List EncEntryTag)
      → any (row_holds compares (record { name = n; value = one_of ws; plain = plain })) rs
        ≡ any (λ w. some_row compares rs n (λ a. compares "=" a w) plain) ws
  unfolding row_holds value_holds some_row
  in_rows n ws plain [] = sym (any-false ws)
  in_rows n ws plain (row ∷ rs) =
      ap₂ (λ a b. a || b)
        (one_of_row (compares "=" row.name n) (same_flag plain row.is_plaintext) row.value ws)
        (in_rows n ws plain rs)
      ∙ any-or
          (λ w.
            compares "=" row.name n
            && (compares "=" row.value w && same_flag plain row.is_plaintext))
          (λ w. some_row compares rs n (λ a. compares "=" a w) plain) ws

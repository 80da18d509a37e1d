-- ===== src/Storage/Backend/Filter/Clauses.antt =====
-- Each clause of wql/sql.rs, its placeholders replaced as backend/db_utils.rs does it, is the clause with its arguments in place.
use iviadc_aries_askar.Base.{
  ℕ, suc, ◌+◌, ◌<◌, String, ◌≡◌, refl, Bool, true, false, Option, none, some, List, [], ◌∷◌, ◌++◌,
  append_assoc, arith, if◌then◌else◌, length, take, Bytes,
}
use iviadc_aries_askar.Base.Decimal.{codes, display}
use iviadc_aries_askar.Storage.Wql.Ops.{
  as_sql_str_for_prefix, CompareOp, ConjunctionOp, as_sql_str, conj_sql_str,
}
use iviadc_aries_askar.Storage.Wql.Template.{text, Template, bound}
use iviadc_aries_askar.Storage.Wql.Sql.{
  membership, flag, plaintext_test, match_prefix, op_prefix, opening, op_text, pushed, more_values,
  args_in, join_clauses,
}
use iviadc_aries_askar.Storage.Wql.Sql.Inline.{
  inline_test, inline_prefix, inline_op, inline_more, inline_values, inline_in, inline_exist,
  inline_joined,
}
use iviadc_aries_askar.Storage.Backend.Placeholders.Fills.{
  Fills, no_dollar, Ends, nil-Fills, append-Fills, text-Fills, next-Fills, number-Fills,
}

module _ (show : ℕ → Bytes) (start_index : ℕ) where
  abbrev Fill : ℕ → Bytes → Template → Type 0
  Fill = Fills show start_index

  flag-no_dollar : (plain : Bool) → no_dollar (display (flag plain)) ≡ true
  unfolding flag display no_dollar
  flag-no_dollar true = refl
  flag-no_dollar false = refl

  membership-no_dollar : (neg : Bool) → no_dollar (membership neg) ≡ true
  unfolding membership no_dollar
  membership-no_dollar true = refl
  membership-no_dollar false = refl

  pub plaintext_test-Fills :
      (i : ℕ) (plain : Bool) → Fill i (plaintext_test plain) (inline_test plain)
  unfolding plaintext_test inline_test no_dollar
  plaintext_test-Fills i plain =
      text-Fills show start_index i (codes " AND plaintext = ") _ _ refl (
        text-Fills show start_index i _ (codes ")") _ (flag-no_dollar plain)
          (text-Fills show start_index i (codes ")") [] [] refl (nil-Fills show start_index i)))

  -- The front that all clauses share.
  pub front-Fills :
      (i : ℕ) (neg : Bool) (c : Bytes) (t : Template)
      → Fill i c t
      → Fill i
          (codes "i.id " ++ (membership neg ++ (opening ++ c)))
          (text (codes "i.id ") ∷ text (membership neg) ∷ text opening ∷ t)
  unfolding no_dollar
  front-Fills i neg c t f = text-Fills show start_index i (codes "i.id ") _ _ refl (
      text-Fills show start_index i (membership neg) _ _ (membership-no_dollar neg)
        (text-Fills show start_index i opening c t refl f))

  as_sql_str-no_dollar : (op : CompareOp) → no_dollar (codes (as_sql_str op)) ≡ true
  unfolding no_dollar as_sql_str
  as_sql_str-no_dollar CompareOp.eq = refl
  as_sql_str-no_dollar CompareOp.neq = refl
  as_sql_str-no_dollar CompareOp.gt = refl
  as_sql_str-no_dollar CompareOp.gte = refl
  as_sql_str-no_dollar CompareOp.lt = refl
  as_sql_str-no_dollar CompareOp.lte = refl
  as_sql_str-no_dollar CompareOp.like = refl

  conj_sql_str-no_dollar : (op : ConjunctionOp) → no_dollar (codes (conj_sql_str op)) ≡ true
  unfolding no_dollar conj_sql_str
  conj_sql_str-no_dollar ConjunctionOp.and = refl
  conj_sql_str-no_dollar ConjunctionOp.or = refl

  -- The operator of the test of a prefix is free of `$`.
  abbrev PrefixText : Option (String × Bytes) → Type 0
  PrefixText none = Unit
  PrefixText (some (pfx_op, v)) = no_dollar (codes pfx_op) ≡ true

  long-PrefixText :
      (pfx_op : String) (value : Bytes) (long : Bool)
      → no_dollar (codes pfx_op) ≡ true
      → PrefixText (if long then some (pfx_op, take 12 value) else none)
  long-PrefixText pfx_op value true h = h
  long-PrefixText pfx_op value false h = tt

  pfx-PrefixText : (op : CompareOp) (value : Bytes) → PrefixText (match_prefix op value false)
  unfolding match_prefix as_sql_str_for_prefix no_dollar
  pfx-PrefixText CompareOp.eq value = long-PrefixText "=" value _ refl
  pfx-PrefixText CompareOp.neq value = long-PrefixText "!=" value _ refl
  pfx-PrefixText CompareOp.gt value = long-PrefixText ">=" value _ refl
  pfx-PrefixText CompareOp.gte value = long-PrefixText ">=" value _ refl
  pfx-PrefixText CompareOp.lt value = long-PrefixText "<=" value _ refl
  pfx-PrefixText CompareOp.lte value = long-PrefixText "<=" value _ refl
  pfx-PrefixText CompareOp.like value = tt

  match_prefix-PrefixText :
      (op : CompareOp) (value : Bytes) (plain : Bool) → PrefixText (match_prefix op value plain)
  unfolding match_prefix
  match_prefix-PrefixText op value true = tt
  match_prefix-PrefixText op value false = pfx-PrefixText op value

  prefix-Fills :
      (i j : ℕ) (p : Option (String × Bytes)) (c : Bytes) (t : Template)
      → j ≡ i + 2
      → 0 < start_index
      → PrefixText p
      → Ends c
      → Fill (j + length (pushed p)) c t
      → Fill j (op_prefix i p ++ c) (inline_prefix p ++ t)
  unfolding op_prefix inline_prefix no_dollar
  prefix-Fills i j none c t num pos h ends f = let e : j + 0 ≡ j = omega arith in rw e at f
  prefix-Fills i j (some (pfx_op, v)) c t num pos h ends f =
      let e : j + 1 ≡ suc j = omega arith in
      rw (append_assoc (codes pfx_op) (codes " " ++ (b'$' ∷ display (i + 3))) c) (
        text-Fills show start_index j (codes " AND SUBSTR(value, 1, 12) ") _ _ refl (
          text-Fills show start_index j (codes pfx_op) _ _ h (
            text-Fills show start_index j (codes " ") _ _ refl
              (number-Fills show start_index j (i + 3) v c t (omega arith) pos ends (rw e at f)))))

  behind_prefix-Ends :
      (i : ℕ) (p : Option (String × Bytes)) (plain : Bool)
      → Ends (op_prefix i p ++ plaintext_test plain)
  unfolding op_prefix plaintext_test
  behind_prefix-Ends i none plain = refl
  behind_prefix-Ends i (some p) plain = refl

  pub op_text-Fills :
      (i : ℕ) (op : CompareOp) (name value : Bytes) (plain neg : Bool)
      → 0 < start_index
      → Fill i
          (op_text i op (op_prefix i (match_prefix op value plain)) plain neg)
          (inline_op op name value plain neg)
  unfolding op_text inline_op no_dollar
  op_text-Fills i op name value plain neg pos =
      let p = match_prefix op value plain in
      front-Fills i neg _ _ (
        number-Fills show start_index i (i + 1) name _ _ (omega arith) pos refl (
          text-Fills show start_index (suc i) (codes " AND value ") _ _ refl (
            text-Fills show start_index (suc i) (codes (as_sql_str op)) _ _
              (as_sql_str-no_dollar op)
              (text-Fills show start_index (suc i) (codes " ") _ _ refl (
                number-Fills show start_index (suc i) (i + 2) value _ _ (omega arith) pos
                  (behind_prefix-Ends i p plain)
                  (prefix-Fills i (suc (suc i)) p _ _ (omega arith) pos
                    (match_prefix-PrefixText op value plain) refl
                    (plaintext_test-Fills _ plain)))))))

  more_values-Fills :
      (i : ℕ) (vs : List Bytes) (c : Bytes) (t : Template)
      → Fill (i + length vs) c t
      → Fill i (more_values vs ++ c) (inline_more vs ++ t)
  unfolding more_values inline_more no_dollar
  more_values-Fills i [] c t f = let e : i + 0 ≡ i = omega arith in rw e at f
  more_values-Fills i (v ∷ vs) c t f =
      let e : i + suc (length vs) ≡ suc i + length vs = omega arith in
      let g = rw e at f in
      text-Fills show start_index i (codes ", ") _ _ refl
        (next-Fills show start_index i v _ _ (more_values-Fills (suc i) vs c t g))

  args_in-Fills :
      (i : ℕ) (vs : List Bytes) (c : Bytes) (t : Template)
      → Fill (i + length vs) c t
      → Fill i (args_in vs ++ c) (inline_values vs ++ t)
  unfolding args_in inline_values
  args_in-Fills i [] c t f = let e : i + 0 ≡ i = omega arith in rw e at f
  args_in-Fills i (v ∷ vs) c t f =
      let e : i + suc (length vs) ≡ suc i + length vs = omega arith in
      let g = rw e at f in next-Fills show start_index i v _ _ (more_values-Fills (suc i) vs c t g)

  pub in_text-Fills :
      (i : ℕ) (name : Bytes) (vs : List Bytes) (plain neg : Bool)
      → Fill i
          (codes "i.id "
            ++ (membership neg
                ++ (opening
                    ++ (b'$'
                        ∷ b'$'
                        ∷ (codes " AND value IN ("
                            ++ (args_in vs ++ (codes ")" ++ plaintext_test plain)))))))
          (inline_in name vs plain neg)
  unfolding inline_in no_dollar
  in_text-Fills i name vs plain neg = front-Fills i neg _ _ (
      next-Fills show start_index i name _ _ (
        text-Fills show start_index (suc i) (codes " AND value IN (") _ _ refl (
          args_in-Fills (suc i) vs _ _
            (text-Fills show start_index _ (codes ")") _ _ refl (plaintext_test-Fills _ plain)))))

  pub exist_text-Fills :
      (i : ℕ) (name : Bytes) (plain neg : Bool)
      → Fill i
          (codes "i.id " ++ (membership neg ++ (opening ++ (b'$' ∷ b'$' ∷ plaintext_test plain))))
          (inline_exist name plain neg)
  unfolding inline_exist
  exist_text-Fills i name plain neg =
      front-Fills i neg _ _ (next-Fills show start_index i name _ _ (plaintext_test-Fills _ plain))

  -- Clauses in a row, each where the arguments of those before it stand.
  abbrev pub AllFill : ℕ → List Bytes → List Template → Type 0
  AllFill i [] [] = Unit
  AllFill i (c ∷ cs) (t ∷ ts) = Fill i c t × AllFill (i + length (bound t)) cs ts
  AllFill i _ _ = ⊥

  pub join_clauses-Fills :
      (op : ConjunctionOp) (cs : List Bytes) (ts : List Template) (i : ℕ)
      → AllFill i cs ts
      → Fill i (join_clauses op cs) (inline_joined op ts)
  unfolding join_clauses inline_joined
  join_clauses-Fills op [] [] i h = nil-Fills show start_index i
  join_clauses-Fills op (c ∷ cs) (t ∷ ts) i (f, fs) =
      text-Fills show start_index i (codes (conj_sql_str op)) _ _ (conj_sql_str-no_dollar op) (
        append-Fills show start_index i c _ t _ f
          (join_clauses-Fills op cs ts (i + length (bound t)) fs))
  join_clauses-Fills op [] (t ∷ ts) i h = absurd h
  join_clauses-Fills op (c ∷ cs) [] i h = absurd h

  pub conj_text-Fills :
      (i : ℕ) (op : ConjunctionOp) (c d : Bytes) (cs : List Bytes) (t u : Template)
      (ts : List Template)
      → AllFill i (c ∷ d ∷ cs) (t ∷ u ∷ ts)
      → Fill i
          (codes "(" ++ (c ++ (join_clauses op (d ∷ cs) ++ codes ")")))
          (text (codes "(") ∷ (t ++ (inline_joined op (u ∷ ts) ++ (text (codes ")") ∷ []))))
  unfolding no_dollar
  conj_text-Fills i op c d cs t u ts (f, fs) = text-Fills show start_index i (codes "(") _ _ refl (
      append-Fills show start_index i c _ t _ f (
        append-Fills show start_index _ (join_clauses op (d ∷ cs)) _ _ _
          (join_clauses-Fills op (d ∷ cs) (u ∷ ts) _ fs)
          (text-Fills show start_index _ (codes ")") [] [] refl (nil-Fills show start_index _))))

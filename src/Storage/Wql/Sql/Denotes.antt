-- ===== src/Storage/Wql/Sql/Denotes.antt =====
-- Each clause of wql/sql.rs, its arguments in place, is the text of a predicate that has the truth of its test.
use iviadc_aries_askar.Base.{
  String, ◌≡◌, refl, sym, ap, ap₂, ◌∙◌, subst, Bool, true, false, ◌&&◌, ◌||◌, Option, List, [], ◌∷◌,
  ◌++◌, Bytes, Result, ok, >>=-eq-ok,
}
use iviadc_aries_askar.Base.Decimal.{codes}
use iviadc_aries_askar.Storage.Error.{ErrorKind}
use iviadc_aries_askar.Storage.Protect.ProfileKey.{EncEntryTag}
use iviadc_aries_askar.Storage.Wql.Ops.{CompareOp, ConjunctionOp, as_sql_str}
use iviadc_aries_askar.Storage.Wql.Query.Meaning.{Test, any, every}
use iviadc_aries_askar.Storage.Wql.Tags.{
  TagName, is_plaintext, encode_tag_op, encode_tag_in, encode_values, encode_one_exist,
}
use iviadc_aries_askar.Storage.Wql.Tags.Denotes.{signed, Says, AllMean, Denotes}
use iviadc_aries_askar.Storage.Wql.Template.{text, Template}
use iviadc_aries_askar.Storage.Wql.Sql.{
  TagQueryEncoder, inner_name, value_arg, membership, match_prefix,
}
use iviadc_aries_askar.Storage.Wql.Sql.Inline.{
  inline_op, inline_in, inline_exist, inline_joined, inline_conj, inline_encoder,
}
use iviadc_aries_askar.Storage.Wql.Sql.Predicate.{
  Compares, any_value, compared, one_of, RowTest, PredicateList, in_tags, join, nil, cons,
  print_value, print_row, print, print_rest, value_holds, row_holds, eval, eval_all, eval_any,
  some_row, tag_compare, tag_present, tag_test,
}
use iviadc_aries_askar.Storage.Wql.Sql.Selects.{
  inline_test_lem, Means, PrefixesAgree, op_rows, in_rows,
}

module _ (enc_name enc_value : String → Result Bytes ErrorKind) (as_bytes : String → Bytes)
    (compares : Compares) (rows : List EncEntryTag)
    (agree : PrefixesAgree enc_name enc_value as_bytes compares rows rows) where
  abbrev encoder : TagQueryEncoder (Unit {0}) Bytes Template
  encoder = inline_encoder enc_name enc_value as_bytes

  abbrev entry : Test TagName String
  entry = tag_test enc_name enc_value as_bytes compares rows

  abbrev Reads : Template → Bool → Type 0
  Reads = Means enc_name enc_value as_bytes compares rows

  named :
      (k : TagName) (s s' : Unit {0}) (n : Bytes)
      → encoder.encode_name k s ≡ ok (n, s')
      → enc_name (inner_name k) ≡ ok n
  unfolding inline_encoder
  named k s s' n h = let (m, e, h₁) = >>=-eq-ok (enc_name (inner_name k)) _ h in cc

  valued :
      (v : String) (plain : Bool) (s s' : Unit {0}) (w : Bytes)
      → encoder.encode_value v plain s ≡ ok (w, s')
      → value_arg enc_name enc_value as_bytes v plain ≡ ok w
  unfolding inline_encoder
  valued v plain s s' w h =
      let (m, e, h₁) = >>=-eq-ok (value_arg enc_name enc_value as_bytes v plain) _ h in cc

  compare_row :
      (op : CompareOp) (k : TagName) (v : String) (n w : Bytes)
      → enc_name (inner_name k) ≡ ok n
      → value_arg enc_name enc_value as_bytes v (is_plaintext k) ≡ ok w
      → entry.compare op k v
        ≡ some_row compares rows n (λ a. compares (as_sql_str op) a w) (is_plaintext k)
  unfolding tag_compare
  compare_row op k v n w en ev = rw (tag_compare, en, ev) refl

  present_row :
      (k : TagName) (n : Bytes)
      → enc_name (inner_name k) ≡ ok n
      → entry.present k ≡ some_row compares rows n (λ a. true) (is_plaintext k)
  unfolding tag_present
  present_row k n en = rw (tag_present, en) refl

  op-Reads :
      (op : CompareOp) (k : TagName) (v : String) (neg : Bool) (n w : Bytes)
      → enc_name (inner_name k) ≡ ok n
      → value_arg enc_name enc_value as_bytes v (is_plaintext k) ≡ ok w
      → Reads (inline_op op n w (is_plaintext k) neg) (signed neg (entry.compare op k v))
  unfolding inline_op membership print print_row print_value eval
  op-Reads op k v neg n w en ev =
      let r : RowTest = record {
        name = n;
        value = compared (as_sql_str op) w (match_prefix op w (is_plaintext k));
        plain = is_plaintext k;
      } in
      (
        in_tags neg r,
        rw (inline_test_lem (is_plaintext k)) refl,
        ap (signed neg) (
            op_rows enc_name enc_value as_bytes compares rows op v n w (is_plaintext k) rows ev
              agree
            ∙ sym (compare_row op k v n w en ev)),
      )

  op_denotes :
      (op : CompareOp) (k : TagName) (v : String) (neg : Bool) (s s' : Unit {0})
      (o : Option Template)
      → encode_tag_op encoder op k v neg s ≡ ok (o, s')
      → Says Reads (signed neg (entry.compare op k v)) o
  unfolding encode_tag_op inline_encoder
  op_denotes op k v neg s s' o h =
      let ((n, s₁), h₁, h₂) = >>=-eq-ok (encoder.encode_name k s) _ h in
      let ((w, s₂), h₃, h₄) = >>=-eq-ok (encoder.encode_value v (is_plaintext k) s₁) _ h₂ in
      (
        inline_op op n w (is_plaintext k) neg,
        cc,
        op-Reads op k v neg n w (named k s s₁ n h₁) (valued v (is_plaintext k) s₁ s₂ w h₃),
      )

  exist-Reads :
      (k : TagName) (neg : Bool) (n : Bytes)
      → enc_name (inner_name k) ≡ ok n
      → Reads (inline_exist n (is_plaintext k) neg) (signed neg (entry.present k))
  unfolding inline_exist membership print print_row print_value eval row_holds value_holds some_row
  exist-Reads k neg n en =
      let r : RowTest = record { name = n; value = any_value; plain = is_plaintext k } in
      (
        in_tags neg r,
        rw (inline_test_lem (is_plaintext k)) refl,
        ap (signed neg) (sym (present_row k n en)),
      )

  exist_denotes :
      (k : TagName) (neg : Bool) (s s' : Unit {0}) (o : Option Template)
      → encode_one_exist encoder k neg s ≡ ok (o, s')
      → Says Reads (signed neg (entry.present k)) o
  unfolding encode_one_exist inline_encoder
  exist_denotes k neg s s' o h =
      let ((n, s₁), h₁, h₂) = >>=-eq-ok (encoder.encode_name k s) _ h in
      (inline_exist n (is_plaintext k) neg, cc, exist-Reads k neg n (named k s s₁ n h₁))

  -- The values of a list are encrypted one by one.
  in_values :
      (k : TagName) (n : Bytes) (vs : List String) (s s' : Unit {0}) (ws : List Bytes)
      → enc_name (inner_name k) ≡ ok n
      → encode_values encoder vs (is_plaintext k) s ≡ ok (ws, s')
      → any (λ w. some_row compares rows n (λ a. compares "=" a w) (is_plaintext k)) ws
        ≡ any (entry.compare CompareOp.eq k) vs
  unfolding encode_values as_sql_str
  in_values k n [] s s' ws en h = let e : [] ≡ ws = cc in rw (← e) refl
  in_values k n (v ∷ vs) s s' ws en h =
      let ((w, s₁), h₁, h₂) = >>=-eq-ok (encoder.encode_value v (is_plaintext k) s) _ h in
      let ((rest, s₂), h₃, h₄) = >>=-eq-ok (encode_values encoder vs (is_plaintext k) s₁) _ h₂ in
      let ev = valued v (is_plaintext k) s s₁ w h₁ in
      let e : w ∷ rest ≡ ws = cc in
      let more = in_values k n vs s₁ s₂ rest en h₃ in
      subst
        (λ us.
          any (λ u. some_row compares rows n (λ a. compares "=" a u) (is_plaintext k)) us
          ≡ any (entry.compare CompareOp.eq k) (v ∷ vs))
        e (ap₂ (λ a b. a || b) (sym (compare_row CompareOp.eq k v n w en ev)) more)

  in-Reads :
      (k : TagName) (neg b : Bool) (n : Bytes) (ws : List Bytes)
      → any (λ w. some_row compares rows n (λ a. compares "=" a w) (is_plaintext k)) ws ≡ b
      → Reads (inline_in n ws (is_plaintext k) neg) (signed neg b)
  unfolding inline_in membership print print_row print_value eval
  in-Reads k neg b n ws e =
      let r : RowTest = record { name = n; value = one_of ws; plain = is_plaintext k } in
      (
        in_tags neg r,
        rw (inline_test_lem (is_plaintext k)) refl,
        ap (signed neg)
            (in_rows enc_name enc_value as_bytes compares rows n ws (is_plaintext k) rows ∙ e),
      )

  in_denotes :
      (k : TagName) (vs : List String) (neg : Bool) (s s' : Unit {0}) (o : Option Template)
      → encode_tag_in encoder k vs neg s ≡ ok (o, s')
      → Says Reads (signed neg (any (entry.compare CompareOp.eq k) vs)) o
  unfolding encode_tag_in inline_encoder
  in_denotes k vs neg s s' o h =
      let ((n, s₁), h₁, h₂) = >>=-eq-ok (encoder.encode_name k s) _ h in
      let ((ws, s₂), h₃, h₄) = >>=-eq-ok (encode_values encoder vs (is_plaintext k) s₁) _ h₂ in
      (
        inline_in n ws (is_plaintext k) neg,
        cc,
        in-Reads k neg (any (entry.compare CompareOp.eq k) vs) n ws
            (in_values k n vs s₁ s₂ ws (named k s s₁ n h₁) h₃),
      )

  -- Clauses that mean truth values are the texts of predicates.
  predicates :
      (cs : List Template) (bs : List Bool)
      → AllMean Reads cs bs
      → (ps : PredicateList) × ((op : ConjunctionOp) → inline_joined op cs ≡ print_rest op ps)
        × (eval_all compares rows ps ≡ every (λ b. b) bs)
        × (eval_any compares rows ps ≡ any (λ b. b) bs)
  unfolding inline_joined print eval
  predicates [] [] m = (nil, λ op. refl, refl, refl)
  predicates [] (b ∷ bs) m = absurd m
  predicates (c ∷ cs) [] m = absurd m
  predicates (c ∷ cs) (b ∷ bs) ((p, e, v), m) =
      let (ps, es, hall, hany) = predicates cs bs m in
      (cons p ps, λ op. rw (e, es op) refl, rw (v, hall) refl, rw (v, hany) refl)

  &&-true : (b : Bool) → (b && true) ≡ b
  &&-true true = refl
  &&-true false = refl

  ||-false : (b : Bool) → (b || false) ≡ b
  ||-false true = refl
  ||-false false = refl

  -- Two clauses or more, joined.
  abbrev joined_clause : ConjunctionOp → Template → Template → List Template → Template
  joined_clause op c d cs =
      text (codes "(") ∷ (c ++ (inline_joined op (d ∷ cs) ++ (text (codes ")") ∷ [])))

  and_Reads :
      (c d : Template) (cs : List Template) (b b' : Bool) (bs : List Bool)
      → Reads c b
      → Reads d b'
      → AllMean Reads cs bs
      → Reads (joined_clause ConjunctionOp.and c d cs) (b && (b' && every (λ x. x) bs))
  unfolding inline_joined print eval
  and_Reads c d cs b b' bs (p, e, v) (q, e', v') m =
      let (ps, es, hall, hany) = predicates cs bs m in
      (join ConjunctionOp.and p q ps, rw (e, e', es ConjunctionOp.and) refl, rw (v, v', hall) refl)

  or_Reads :
      (c d : Template) (cs : List Template) (b b' : Bool) (bs : List Bool)
      → Reads c b
      → Reads d b'
      → AllMean Reads cs bs
      → Reads (joined_clause ConjunctionOp.or c d cs) (b || (b' || any (λ x. x) bs))
  unfolding inline_joined print eval
  or_Reads c d cs b b' bs (p, e, v) (q, e', v') m =
      let (ps, es, hall, hany) = predicates cs bs m in
      (join ConjunctionOp.or p q ps, rw (e, e', es ConjunctionOp.or) refl, rw (v, v', hany) refl)

  and_denotes :
      (c : Template) (cs : List Template) (bs : List Bool) (s s' : Unit {0}) (o : Option Template)
      → AllMean Reads (c ∷ cs) bs
      → encoder.encode_conj_clause ConjunctionOp.and (c ∷ cs) s ≡ ok (o, s')
      → Says Reads (every (λ b. b) bs) o
  unfolding inline_encoder inline_conj inline_joined
  and_denotes c cs [] s s' o m h = absurd m
  and_denotes c [] (b ∷ []) s s' o ((p, e, v), _) h = (c, cc, (p, e, v ∙ sym (&&-true b)))
  and_denotes c [] (b ∷ _ ∷ _) s s' o (_, m) h = absurd m
  and_denotes c (d ∷ cs) (b ∷ []) s s' o (_, m) h = absurd m
  and_denotes c (d ∷ cs) (b ∷ b' ∷ bs) s s' o (m, (m', ms)) h =
      (joined_clause ConjunctionOp.and c d cs, cc, and_Reads c d cs b b' bs m m' ms)

  or_denotes :
      (c : Template) (cs : List Template) (bs : List Bool) (s s' : Unit {0}) (o : Option Template)
      → AllMean Reads (c ∷ cs) bs
      → encoder.encode_conj_clause ConjunctionOp.or (c ∷ cs) s ≡ ok (o, s')
      → Says Reads (any (λ b. b) bs) o
  unfolding inline_encoder inline_conj inline_joined
  or_denotes c cs [] s s' o m h = absurd m
  or_denotes c [] (b ∷ []) s s' o ((p, e, v), _) h = (c, cc, (p, e, v ∙ sym (||-false b)))
  or_denotes c [] (b ∷ _ ∷ _) s s' o (_, m) h = absurd m
  or_denotes c (d ∷ cs) (b ∷ []) s s' o (_, m) h = absurd m
  or_denotes c (d ∷ cs) (b ∷ b' ∷ bs) s s' o (m, (m', ms)) h =
      (joined_clause ConjunctionOp.or c d cs, cc, or_Reads c d cs b b' bs m m' ms)

  pub inline_encoder-Denotes : Denotes encoder entry Reads
  inline_encoder-Denotes = record {
    op_denotes = op_denotes;
    in_denotes = in_denotes;
    exist_denotes = exist_denotes;
    and_denotes = and_denotes;
    or_denotes = or_denotes;
  }

-- ===== src/Storage/Wql/Tags/Denotes.antt =====
-- What an encoder promises of its clauses: each denotes the test that it was made for.
use iviadc_aries_askar.Base.{
  String, ◌≡◌, Bool, false, not, Option, some, List, [], ◌∷◌, if◌then◌else◌, ok,
}
use iviadc_aries_askar.Storage.Wql.Ops.{CompareOp, ConjunctionOp}
use iviadc_aries_askar.Storage.Wql.Query.{QueryList, and, or, negate, exist, nil, cons}
use iviadc_aries_askar.Storage.Wql.Query.Meaning.{Test, any, every, IsNonempty}
use iviadc_aries_askar.Storage.Wql.Tags.{
  TagName, TagQuery, TagQueryEncoder, encode_tag_op, encode_tag_in, encode_one_exist,
}

-- A test, or its negation.
abbrev pub signed : Bool → Bool → Bool
signed neg b = if neg then not b else b

-- The clause that came out, which there is, means `b`.
abbrev pub Says : {Clause : Type 0} → (Clause → Bool → Type 0) → Bool → Option Clause → Type 0
Says {Clause} Means b o = (c : Clause) × (o ≡ some c) × Means c b

-- The clauses mean the truth values, one by one.
abbrev pub AllMean : {Clause : Type 0} → (Clause → Bool → Type 0) → List Clause → List Bool → Type 0
AllMean Means [] [] = Unit
AllMean Means (c ∷ cs) (b ∷ bs) = Means c b × AllMean Means cs bs
AllMean Means _ _ = ⊥

-- What a clause means is a relation: a text may have several readings, of which it has the one that it was made for.
pub record Denotes {S Arg Clause : Type 0} (enc : TagQueryEncoder S Arg Clause)
    (t : Test TagName String) (Means : Clause → Bool → Type 0) : Type 0 where
  pub op_denotes :
      (op : CompareOp) (k : TagName) (v : String) (neg : Bool) (s s' : S) (o : Option Clause)
      → encode_tag_op enc op k v neg s ≡ ok (o, s')
      → Says Means (signed neg (t.compare op k v)) o
  pub in_denotes :
      (k : TagName) (vs : List String) (neg : Bool) (s s' : S) (o : Option Clause)
      → encode_tag_in enc k vs neg s ≡ ok (o, s')
      → Says Means (signed neg (any (t.compare CompareOp.eq k) vs)) o
  pub exist_denotes :
      (k : TagName) (neg : Bool) (s s' : S) (o : Option Clause)
      → encode_one_exist enc k neg s ≡ ok (o, s')
      → Says Means (signed neg (t.present k)) o
  pub and_denotes :
      (c : Clause) (cs : List Clause) (bs : List Bool) (s s' : S) (o : Option Clause)
      → AllMean Means (c ∷ cs) bs
      → enc.encode_conj_clause ConjunctionOp.and (c ∷ cs) s ≡ ok (o, s')
      → Says Means (every (λ b. b) bs) o
  pub or_denotes :
      (c : Clause) (cs : List Clause) (bs : List Bool) (s s' : S) (o : Option Clause)
      → AllMean Means (c ∷ cs) bs
      → enc.encode_conj_clause ConjunctionOp.or (c ∷ cs) s ≡ ok (o, s')
      → Says Means (any (λ b. b) bs) o

-- The queries that are encoded faithfully under a number of negations that `neg` says is odd: every
-- conjunction, disjunction and test of presence has a part, and a test of several names stands under
-- an even number of negations.
abbrev mutual
  pub IsEncodable : Bool → TagQuery → Type 0
  IsEncodable neg (and qs) = IsNonempty qs × AreEncodable neg qs
  IsEncodable neg (or qs) = IsNonempty qs × AreEncodable neg qs
  IsEncodable neg (negate q) = IsEncodable (not neg) q
  IsEncodable neg (exist []) = ⊥
  IsEncodable neg (exist (_ ∷ [])) = Unit
  IsEncodable neg (exist (_ ∷ _ ∷ _)) = neg ≡ false
  IsEncodable neg _ = Unit

  pub AreEncodable : Bool → QueryList TagName String → Type 0
  AreEncodable neg nil = Unit
  AreEncodable neg (cons q qs) = IsEncodable neg q × AreEncodable neg qs

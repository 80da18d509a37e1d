-- ===== src/Crypto/Jwk/Ops/Union.antt =====
-- What is in a set after an insertion, by evaluation at every word of eight bits.
use iviadc_aries_askar.Base.{
  ℕ, zero, suc, ◌<◌, String, ◌≡◌, refl, sym, ap, ◌∙◌, subst, ◌≢◌, inl, inr, Bool, true, false, not,
  ◌||◌, some, List, [], ◌∷◌, arith, ltb, ◌==◌, if◌then◌else◌, ltb→lt, ==_iff, Bool-cases, get_elem?,
  Result, ok, err,
}
use iviadc_aries_askar.Crypto.Jwk.Ops.{
  KeyOps, encrypt, decrypt, sign, verify, wrap_key, unwrap_key, derive_key, derive_bits, KeyOpsSet,
  value_of, insert, contains, ops, visit_seq, visit_from, serialize, iterate, as_str, try_from_str,
}

unfoldable pub same : KeyOps → KeyOps → Bool
unfolding value_of
same a b = value_of a == value_of b

-- A test that holds at every number below the bound.
evaluate : (ℕ → Bool) → ℕ → Bool
evaluate test zero = true
evaluate test (suc bound) = if test bound then evaluate test bound else false

if-true : (a b : Bool) → (if a then b else false) ≡ true → (a ≡ true) × (b ≡ true)
if-true true b h = (refl, h)
if-true false b h = cc

evaluate_lem :
    (test : ℕ → Bool) (bound v : ℕ) → v < bound → evaluate test bound ≡ true → test v ≡ true
unfolding evaluate
evaluate_lem test zero v below h = absurd (omega arith)
evaluate_lem test (suc bound) v below h =
    let (here, rest) = if-true (test bound) (evaluate test bound) h in
    elim (Bool-cases (v == bound)) [
      | inl e ↦ subst (λ n. test n ≡ true) (sym ((==_iff v bound).0 e)) here
      | inr e ↦
          let true≢false : ◌≢◌ {A = Bool} true false = λ q. cc in
          let apart : v ≢ bound = λ p. true≢false (sym ((==_iff v bound).1 p) ∙ e) in
          evaluate_lem test bound v (omega arith) rest
    ]

-- A test that holds of every operation of a list.
every : (KeyOps → Bool) → List KeyOps → Bool
every test [] = true
every test (op ∷ rest) = if test op then every test rest else false

every_lem :
    (test : KeyOps → Bool) (rest : List KeyOps) (i : ℕ) (op : KeyOps)
    → get_elem? rest i ≡ some op
    → every test rest ≡ true
    → test op ≡ true
unfolding every
every_lem test [] i op e h = cc
every_lem test (o ∷ rest) zero op e h = let (here, _) = if-true (test o) (every test rest) h in cc
every_lem test (o ∷ rest) (suc i) op e h =
    every_lem test rest i op e (if-true (test o) (every test rest) h).1

place : KeyOps → ℕ
place encrypt = 0
place decrypt = 1
place sign = 2
place verify = 3
place wrap_key = 4
place unwrap_key = 5
place derive_key = 6
place derive_bits = 7

place_lem : (op : KeyOps) → get_elem? ops (place op) ≡ some op
unfolding place
place_lem encrypt = refl
place_lem decrypt = refl
place_lem sign = refl
place_lem verify = refl
place_lem wrap_key = refl
place_lem unwrap_key = refl
place_lem derive_key = refl
place_lem derive_bits = refl

agree : Bool → Bool → Bool
agree true b = b
agree false b = not b

agree_lem : (a b : Bool) → agree a b ≡ true → a ≡ b
unfolding agree
agree_lem true b h = sym h
agree_lem false true h = cc
agree_lem false false h = refl

inserts : ℕ → KeyOps → KeyOps → Bool
inserts v a b =
    if ltb (insert v a) 256
    then agree (contains (insert v a) b) (contains v b || same a b)
    else false

inserts_all : ℕ → Bool
inserts_all v = every (λ a. every (inserts v a) ops) ops

inserts_below : evaluate inserts_all 256 ≡ true
unfolding evaluate inserts_all inserts every agree contains insert same value_of
inserts_below = refl

-- An insertion stays within eight bits, and adds the operation alone.
pub contains-insert :
    (v : KeyOpsSet) (a b : KeyOps)
    → v < 256
    → (insert v a < 256) × (contains (insert v a) b ≡ (contains v b || same a b))
unfolding inserts_all inserts
contains-insert v a b below =
    let at_v = evaluate_lem inserts_all 256 v below inserts_below in
    let at_a = every_lem (λ a. every (inserts v a) ops) ops (place a) a (place_lem a) at_v in
    let at_b = every_lem (inserts v a) ops (place b) b (place_lem b) at_a in
    let (small, same_test) =
      if-true (ltb (insert v a) 256) (agree (contains (insert v a) b) (contains v b || same a b))
        at_b in
    (
      ltb→lt (insert v a) 256 small,
      agree_lem (contains (insert v a) b) (contains v b || same a b) same_test,
    )

returns : Result KeyOpsSet String → KeyOpsSet → Bool
returns (ok w) v = w == v
returns (err name) v = false

returns_lem : (r : Result KeyOpsSet String) (v : KeyOpsSet) → returns r v ≡ true → r ≡ ok v
unfolding returns
returns_lem (ok w) v h = ap ok ((==_iff w v).0 h)
returns_lem (err name) v h = cc

reads_back : ℕ → Bool
reads_back v = returns (visit_seq (serialize v)) v

reads_back_below : evaluate reads_back 256 ≡ true
unfolding evaluate reads_back returns visit_seq visit_from serialize iterate contains insert as_str
    try_from_str value_of
reads_back_below = refl

-- A set of operations, of the eight bits that there are, that is written as a list of names is read back as the same set.
pub visit_seq-serialize : (v : KeyOpsSet) → v < 256 → visit_seq (serialize v) ≡ ok v
unfolding reads_back
visit_seq-serialize v below =
    returns_lem (visit_seq (serialize v)) v (evaluate_lem reads_back 256 v below reads_back_below)

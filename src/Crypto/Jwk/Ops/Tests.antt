-- ===== src/Crypto/Jwk/Ops/Tests.antt =====
-- Runs of the reading of key operations, and instances of its theorems.
use iviadc_aries_askar.Base.{String, ◌≡◌, refl, true, false, List, [], ◌∷◌, arith, ok, err}
use iviadc_aries_askar.Crypto.Jwk.Ops.{
  KeyOps, encrypt, decrypt, sign, verify, wrap_key, unwrap_key, derive_key, derive_bits, KeyOpsSet,
  value_of, insert, contains, visit_seq, visit_from, as_str, try_from_str, serialize,
}
use iviadc_aries_askar.Crypto.Jwk.Ops.Union.{same, visit_seq-serialize}
use iviadc_aries_askar.Crypto.Jwk.Ops.Visit.{named, IsDistinct, visit_seq-contains}

repeated : visit_seq ("sign" ∷ "other" ∷ "sign" ∷ []) ≡ err "sign"
unfolding visit_seq visit_from try_from_str contains insert as_str value_of
repeated = refl

visit_seq-serialize_example : visit_seq (serialize 140) ≡ ok 140
visit_seq-serialize_example = visit_seq-serialize 140 (omega arith)

abbrev names : List String
names = "verify" ∷ "other" ∷ "sign" ∷ []

verify_once : (op : KeyOps) → same verify op ≡ true → named op ("other" ∷ "sign" ∷ []) ≡ false
unfolding named try_from_str same value_of
verify_once encrypt h = refl
verify_once decrypt h = refl
verify_once sign h = cc
verify_once verify h = refl
verify_once wrap_key h = refl
verify_once unwrap_key h = refl
verify_once derive_key h = refl
verify_once derive_bits h = refl

names-IsDistinct : IsDistinct names
unfolding named try_from_str same value_of
names-IsDistinct = ((λ op h. verify_once op h), ((λ op h. cc), ((λ op h. refl), tt)))

visit_seq-contains_example :
    (result : KeyOpsSet) × (visit_seq names ≡ ok result)
    × ((op : KeyOps) → contains result op ≡ named op names)
visit_seq-contains_example = visit_seq-contains names names-IsDistinct

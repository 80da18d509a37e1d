-- ===== src/Crypto/Jwk/Ops.antt =====
-- The set of operations that a key allows: askar-crypto/src/jwk/ops.rs. A set is a word with one bit for each
-- operation.
mod Union
mod Visit
mod Tests
use iviadc_aries_askar.Base.{
  ℕ, zero, suc, ◌+◌, ◌-◌, ◌*◌, ◌/◌, ◌%◌, ◌^◌, ◌≤◌, ◌<◌, bit_xor, bit_or, bit_and, String, ◌≡◌, refl,
  sym, ap, ap₂, ◌∙◌, subst, ◌≢◌, ◌↔◌, ◌⊎◌, inl, inr, Bool, true, false, not, ◌&&◌, ◌||◌, xor,
  Option, none, some, List, [], ◌∷◌, ◌++◌, map, reverse, append-nil, append_assoc, arith, eq_iff,
  ltb, leb, ◌==◌, if◌then◌else◌, ltb→lt, lt→ltb, leb→le, ==_iff, Bool-cases, Option-cases, length,
  get_elem?, take, drop, replicate, length-append, take-append-drop, take-append, drop-append,
  length-take, length-drop, length-replicate, length-map, Bytes, take-append_of, drop-append_of,
  length-append_of, drop-drop, drop-take, take-take, drop-append_le, take-append_le,
  take-append_split, take_all, Result, ok, err, ◌>>=◌, collect, >>=-eq-ok,
}

pub data KeyOps : Type 0 where
  encrypt decrypt sign verify wrap_key unwrap_key derive_key derive_bits : KeyOps

-- The discriminants.
unfoldable pub value_of : KeyOps → ℕ
value_of encrypt = 1
value_of decrypt = 2
value_of sign = 4
value_of verify = 8
value_of wrap_key = 16
value_of unwrap_key = 32
value_of derive_key = 64
value_of derive_bits = 128

unfoldable pub as_str : KeyOps → String
as_str encrypt = "encrypt"
as_str decrypt = "decrypt"
as_str sign = "sign"
as_str verify = "verify"
as_str wrap_key = "wrapKey"
as_str unwrap_key = "unwrapKey"
as_str derive_key = "deriveKey"
as_str derive_bits = "deriveBits"

unfoldable pub try_from_str : String → Option KeyOps
try_from_str key =
    if text.Mathlib.Text.◌==◌ key "sign"
    then some sign
    else if text.Mathlib.Text.◌==◌ key "verify"
    then some verify
    else if text.Mathlib.Text.◌==◌ key "encrypt"
    then some encrypt
    else if text.Mathlib.Text.◌==◌ key "decrypt"
    then some decrypt
    else if text.Mathlib.Text.◌==◌ key "wrapKey"
    then some wrap_key
    else if text.Mathlib.Text.◌==◌ key "unwrapKey"
    then some unwrap_key
    else if text.Mathlib.Text.◌==◌ key "deriveKey"
    then some derive_key
    else if text.Mathlib.Text.◌==◌ key "deriveBits"
    then some derive_bits
    else none

-- `OPS`
abbrev pub ops : List KeyOps
ops = encrypt ∷ decrypt ∷ sign ∷ verify ∷ wrap_key ∷ unwrap_key ∷ derive_key ∷ derive_bits ∷ []

-- `KeyOpsSet`
abbrev pub KeyOpsSet : Type 0
KeyOpsSet = ℕ

-- `BitOr<KeyOps> for KeyOpsSet`
unfoldable pub insert : KeyOpsSet → KeyOps → KeyOpsSet
insert value op = bit_or value (value_of op)

-- `BitAnd<KeyOps> for KeyOpsSet`
unfoldable pub contains : KeyOpsSet → KeyOps → Bool
contains value op = not (bit_and value (value_of op) == 0)

-- The operations that the iterator yields from some place of `OPS` on.
unfoldable pub iterate : List KeyOps → KeyOpsSet → List KeyOps
iterate [] value = []
iterate (op ∷ rest) value =
    let others = iterate rest value in if contains value op then op ∷ others else others

-- `Serialize for KeyOpsSet`
unfoldable pub serialize : KeyOpsSet → List String
serialize value = map as_str (iterate ops value)

-- The loop of `visit_seq`: a name that is not of an operation is passed over, and a repeated operation is an
-- error, which names it.
unfoldable pub visit_from : KeyOpsSet → List String → Result KeyOpsSet String
visit_from value [] = ok value
visit_from value (name ∷ names) =
    let skipped = visit_from value names in
    elim (try_from_str name) [
      | none ↦ skipped
      | some op ↦
          let more = visit_from (insert value op) names in
          if contains value op then err (as_str op) else more
    ]

unfoldable pub visit_seq : List String → Result KeyOpsSet String
visit_seq names = visit_from 0 names

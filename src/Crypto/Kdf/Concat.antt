-- ===== src/Crypto/Kdf/Concat.antt =====
-- ConcatKDF: the output is the front of the hashes of the counter, the message and the parameters
-- (askar-crypto/src/kdf/concat.rs, `derive_key`).
use iviadc_aries_askar.Base.{
  ℕ, zero, suc, ◌+◌, ◌-◌, ◌*◌, ◌/◌, ◌%◌, ◌^◌, ◌≤◌, ◌<◌, ◌≡◌, refl, sym, ap, ap₂, ◌∙◌, Option, none,
  some, [], ◌∷◌, ◌++◌, append_assoc, arith, length, take, Bytes, take-append_split, ok, err,
}
use Prim.Native.Nat.{min}
use iviadc_aries_askar.Crypto.Bits.{to_be_bytes}
use iviadc_aries_askar.Crypto.Error.{usage}
use iviadc_aries_askar.Crypto.Kdf.{
  Hash, IsHash, ConcatKdfParams, ConcatKdfHash, params_bytes, hash_params, hash_message, start_pass,
  finish_pass, derive_loop, derive_key, new_kdf,
}

to_be_bytes_wrap : (i : ℕ) → to_be_bytes 4 (i % 2 ^ 32) ≡ to_be_bytes 4 i
unfolding to_be_bytes
to_be_bytes_wrap i =
    let e₃ : (i % 4294967296) / 16777216 % 256 ≡ i / 16777216 % 256 = omega arith in
    let e₂ : (i % 4294967296) / 65536 % 256 ≡ i / 65536 % 256 = omega arith in
    let e₁ : (i % 4294967296) / 256 % 256 ≡ i / 256 % 256 = omega arith in
    let e₀ : (i % 4294967296) / 1 % 256 ≡ i / 1 % 256 = omega arith in
    ap₂ (λ a b. a ∷ b) e₃ (ap₂ (λ a b. a ∷ b) e₂ (ap₂ (λ a b. a ∷ b) e₁ (ap (λ a. a ∷ []) e₀)))

module _ (h : Hash) (message : Bytes) (params : ConcatKdfParams) where
  -- The hash of pass number `i`.
  unfoldable pub block : ℕ → Bytes
  block i = h.digest (to_be_bytes 4 i ++ (message ++ params_bytes params))

  -- The hashes of `n` passes from number `i`, one after the other.
  unfoldable pub blocks : ℕ → ℕ → Bytes
  unfolding block
  blocks zero i = []
  blocks (suc n) i = block i ++ blocks n (suc i)

-- The state between passes.
abbrev between : ℕ → ConcatKdfHash
between i = record { hasher = []; counter = i % 2 ^ 32 }

module _ (h : Hash) (laws : IsHash h) (message : Bytes) (params : ConcatKdfParams) where
  pass-block :
      (i : ℕ)
      → finish_pass h (hash_params params (hash_message message (start_pass (between i))))
        ≡ (block h message params i, between (suc i))
  unfolding finish_pass hash_params hash_message start_pass block
  pass-block i =
      let e : (i % 2 ^ 32 + 1) % 2 ^ 32 ≡ suc i % 2 ^ 32 = omega arith in
      rw (to_be_bytes_wrap i, append_assoc, e) refl

  length-block : (i : ℕ) → length (block h message params i) ≡ h.output_size
  unfolding block
  length-block i = laws.length_digest (to_be_bytes 4 i ++ (message ++ params_bytes params))

  -- What a pass puts before the output of the passes after it.
  after : Bytes → ℕ → Option Bytes → Option Bytes
  after hashed remain none = none
  after hashed remain (some out) = some (take (min (length hashed) remain) hashed ++ out)

  loop_step :
      (fuel i r : ℕ)
      → derive_loop h (suc fuel) message params (between i) (suc r)
        ≡ after (block h message params i) (suc r) (
            derive_loop h fuel message params
              (between (suc i))
              (suc r - min (length (block h message params i)) (suc r)))
  unfolding derive_loop after
  loop_step fuel i r =
      let next : Bytes × ConcatKdfHash → Option Bytes = λ s.
        after s.0 (suc r)
          (derive_loop h fuel message params s.1 (suc r - min (length s.0) (suc r))) in
      let computed : derive_loop h (suc fuel) message params (between i) (suc r)
          ≡ next
              (finish_pass h (hash_params params (hash_message message (start_pass (between i))))) =
        ground arith in
      computed ∙ ap next (pass-block i)

  derive_loop-blocks :
      (fuel n i remain : ℕ)
      → remain < fuel
      → remain ≤ n * h.output_size
      → derive_loop h fuel message params (between i) remain
        ≡ some (take remain (blocks h message params n i))
  unfolding blocks after derive_loop
  derive_loop-blocks zero n i remain p q = absurd (omega arith)
  derive_loop-blocks (suc fuel) n i zero p q = refl
  derive_loop-blocks (suc fuel) zero i (suc r) p q = absurd (omega arith)
  derive_loop-blocks (suc fuel) (suc n) i (suc r) p q =
      let b = block h message params i in
      let len : length b ≡ h.output_size = length-block i in
      let pos : 0 < h.output_size = laws.output_pos in
      let rest =
        derive_loop-blocks fuel n (suc i) (suc r - min (length b) (suc r)) (omega arith)
          (omega arith) in
      loop_step fuel i r
      ∙ ap (after b (suc r)) rest
      ∙ ap some (sym (take-append_split (suc r) b (blocks h message params n (suc i))))

  -- The output of `derive_key`, for a hash of a fixed and positive length, when the output's length is not refused: the loop ends, and what it wrote is the front of
  -- the hashes of enough passes, numbered from 1.
  pub derive_key-blocks :
      (n output_len : ℕ)
      → output_len ≤ h.output_size * (2 ^ 32 - 1) - 1
      → output_len ≤ n * h.output_size
      → derive_key h message params output_len
        ≡ some (ok (take output_len (blocks h message params n 1)))
  unfolding derive_key
  derive_key-blocks n output_len p q =
      let loop : derive_loop h (suc output_len) message params new_kdf output_len
          ≡ some (take output_len (blocks h message params n 1)) =
        derive_loop-blocks (suc output_len) n 1 output_len (omega arith) q in
      ground arith

  -- A longer output is refused.
  pub derive_key_refused :
      (output_len : ℕ)
      → h.output_size * (2 ^ 32 - 1) - 1 < output_len
      → derive_key h message params output_len ≡ some (err usage)
  unfolding derive_key
  derive_key_refused output_len p = ground arith

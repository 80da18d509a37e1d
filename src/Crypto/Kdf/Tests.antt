-- ===== src/Crypto/Kdf/Tests.antt =====
-- Runs and instances of the theorems on key derivation, with a small hash and a small key exchange.
use iviadc_aries_askar.Base.{
  ℕ, ◌+◌, ◌*◌, ◌%◌, ◌≤◌, ◌<◌, ◌≡◌, refl, ap, true, false, some, [], ◌∷◌, ◌++◌, arith, length, take,
  replicate, Bytes, ok, err,
}
use iviadc_aries_askar.Crypto.Error.{exceeded_buffer, unsupported}
use iviadc_aries_askar.Crypto.Bits.{to_be_bytes}
use iviadc_aries_askar.Crypto.Kdf.KeyPair.{
  Curve, IsCurve, from_secret_key, from_public_key, key_pairs,
}
use iviadc_aries_askar.Crypto.Kdf.{
  Hash, IsHash, KeyExchange, ConcatKdfParams, derive_key, ecdh_1pu, exchange_both, derive_one_pass,
  derive_loop, start_pass, hash_message, hash_params, finish_pass, params_bytes, sized,
}
use iviadc_aries_askar.Crypto.Kdf.Concat.{blocks, derive_key-blocks}
use iviadc_aries_askar.Crypto.Kdf.Agreement.{tag_info, ecdh_1pu_agrees, ecdh_1pu_tag}

-- The sum of the bytes.
total : Bytes → ℕ
total [] = 0
total (b ∷ bs) = b + total bs

abbrev small_hash : Hash
unfolding total
small_hash = record { output_size = 2; digest = λ m. total m % 256 ∷ length m % 256 ∷ [] }

small_hash-IsHash : IsHash small_hash
unfolding small_hash
small_hash-IsHash = record { output_pos = omega arith; length_digest = λ m. refl }

abbrev some_params : ConcatKdfParams
some_params = record { alg = 65 ∷ []; apu = 1 ∷ 2 ∷ []; apv = []; pub_info = 9 ∷ []; prv_info = [] }

derives_three : derive_key small_hash (7 ∷ []) some_params 3 ≡ some (ok (88 ∷ 21 ∷ 89 ∷ []))
unfolding derive_key derive_loop start_pass hash_message hash_params finish_pass params_bytes sized
    to_be_bytes small_hash total
derives_three = refl

derive_key-blocks_example :
    derive_key small_hash (7 ∷ []) some_params 3
    ≡ some (ok (take 3 (blocks small_hash (7 ∷ []) some_params 2 1)))
unfolding small_hash
derive_key-blocks_example =
    derive_key-blocks small_hash small_hash-IsHash (7 ∷ []) some_params 2 3 (omega arith)
      (omega arith)

-- Secret keys are numbers, a public key is its secret key's double, and the shared secret has one byte.
abbrev doubles : Curve
doubles = record {
  SecretKey = ℕ;
  PublicKey = ℕ;
  public_of = λ a. a * 2;
  diffie_hellman = λ a b. (a * 2 + b) % 256 ∷ [];
}

doubles-IsCurve : IsCurve doubles
doubles-IsCurve = record { agrees = λ a b. ap (λ n. n ∷ []) (omega arith) }

abbrev small_exchange : KeyExchange
small_exchange = record { Key = ℕ; exchange = λ a b. ok ((a * 2 + b) % 256 ∷ []) }

ecdh_1pu_agrees_example :
    (ecdh_1pu small_hash
        (key_pairs doubles)
        (from_secret_key doubles 3)
        (from_secret_key doubles 4)
        (from_public_key doubles 10)
        (65 ∷ [])
        []
        []
        (1 ∷ [])
        false
        2
      ≡ ecdh_1pu small_hash
          (key_pairs doubles)
          (from_public_key doubles 6)
          (from_public_key doubles 8)
          (from_secret_key doubles 5)
          (65 ∷ [])
          []
          []
          (1 ∷ [])
          true
          2)
    × (2 ≤ 32
        → 1 ≤ 124
        → (key : Bytes) × (ecdh_1pu small_hash
              (key_pairs doubles)
              (from_secret_key doubles 3)
              (from_secret_key doubles 4)
              (from_public_key doubles 10)
              (65 ∷ [])
              []
              []
              (1 ∷ [])
              false
              2
            ≡ ok key))
ecdh_1pu_agrees_example =
    ecdh_1pu_agrees small_hash doubles doubles-IsCurve 3 4 5 (65 ∷ []) [] [] (1 ∷ []) 2

-- A tag of 125 bytes.
abbrev long_tag : Bytes
long_tag = replicate 125 1

both_exchanged : exchange_both small_hash small_exchange 3 4 10 false ≡ ok (16 ∷ 18 ∷ [])
unfolding exchange_both
both_exchanged = refl

ecdh_1pu_tag_example :
    (length long_tag ≤ 124
      → ecdh_1pu small_hash small_exchange 3 4 10 [] [] [] long_tag false 2
        ≡ ok (
            derive_one_pass small_hash small_exchange
              (16 ∷ 18 ∷ [])
              (record {
                alg = [];
                apu = [];
                apv = [];
                pub_info = to_be_bytes 4 16 ++ tag_info long_tag;
                prv_info = [];
              })
              2))
    × (124 < length long_tag
        → length long_tag ≤ 128
        → ecdh_1pu small_hash small_exchange 3 4 10 [] [] [] long_tag false 2 ≡ err exceeded_buffer)
    × (128 < length long_tag
        → ecdh_1pu small_hash small_exchange 3 4 10 [] [] [] long_tag false 2 ≡ err unsupported)
ecdh_1pu_tag_example =
    ecdh_1pu_tag small_hash small_exchange 3 4 10 [] [] [] long_tag (16 ∷ 18 ∷ []) false 2
      (omega arith) both_exchanged

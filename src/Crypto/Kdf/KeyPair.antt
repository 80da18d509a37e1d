-- ===== src/Crypto/Kdf/KeyPair.antt =====
-- Key pairs and their exchange: `X25519KeyPair` of askar-crypto/src/alg/x25519.rs, which P-256, P-384 and K-256 follow
-- in p256.rs, p384.rs and k256.rs. The curve is a crate: it is a parameter.
use iviadc_aries_askar.Base.{Option, none, some, ◌≡◌, Bytes, Result, ok, err}
use iviadc_aries_askar.Crypto.Error.{ErrorKind, missing_secret_key}
use iviadc_aries_askar.Crypto.Kdf.{KeyExchange}

-- `PublicKey::from` a secret key, and `diffie_hellman`.
pub record Curve : Type 1 where
  pub SecretKey : Type 0
  pub PublicKey : Type 0
  pub public_of : SecretKey → PublicKey
  pub diffie_hellman : SecretKey → PublicKey → Bytes

-- Two secret keys agree on a secret, each with the public key of the other.
pub record IsCurve (c : Curve) : Type 0 where
  pub agrees :
      (a b : c.SecretKey) → c.diffie_hellman a (c.public_of b) ≡ c.diffie_hellman b (c.public_of a)

module _ (c : Curve) where
  open c use {SecretKey, PublicKey, public_of, diffie_hellman}

  pub record KeyPair : Type 0 where
    pub secret : Option SecretKey
    pub public : PublicKey

  unfoldable pub from_secret_key : SecretKey → KeyPair
  from_secret_key sk = record { secret = some sk; public = public_of sk }

  -- `from_public_bytes`, of a public key that was read.
  unfoldable pub from_public_key : PublicKey → KeyPair
  from_public_key pk = record { secret = none; public = pk }

  -- `write_key_exchange`: the bytes that are written.
  unfoldable pub write_key_exchange : KeyPair → KeyPair → Result Bytes ErrorKind
  write_key_exchange key other = elim key.secret [
    | some sk ↦ ok (diffie_hellman sk other.public)
    | none ↦ err missing_secret_key
  ]

  abbrev pub key_pairs : KeyExchange
  key_pairs = record { Key = KeyPair; exchange = write_key_exchange }

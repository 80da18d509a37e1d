-- ===== src/Storage/Protect/StoreKey.antt =====
-- The key of a store: askar-storage/src/protect/store_key.rs and pass_key.rs. The base58 text of a raw key, random
-- keys and nonces, and the cipher are not of the source: they are parameters.
mod Uri
mod RoundTrip
pub mod Wrap
mod Tests
use iviadc_aries_askar.Base.{
  ℕ, String, Bool, true, false, Option, none, some, ◌++◌, ltb, ◌==◌, if◌then◌else◌, length, take,
  drop, Bytes, Result, ok, err, ◌>>=◌,
}
use iviadc_aries_askar.Base.Text.{is_empty, or_default, split_once}
use iviadc_aries_askar.Storage.Error.{ErrorKind, input, unsupported}
use iviadc_aries_askar.Storage.Options.{UrlText}
use iviadc_aries_askar.Storage.Protect.Kdf.{
  Argon2, KdfMethod, argon2i, Level, interactive, moderate, default_level, decode, encode,
  derive_key, derive_new_key,
}
use iviadc_aries_askar.Storage.Protect.ProfileKey.{Primitives, lift}

-- `PassKey`
abbrev pub PassKey : Type 0
PassKey = Option String

-- `is_none`
abbrev pub is_none : PassKey → Bool
is_none none = true
is_none (some s) = false

-- `PassKey::as_ref`: a scoped copy always holds a string.
unfoldable pub pass_as_ref : PassKey → PassKey
pass_as_ref p = some (or_default p)

pub data StoreKeyMethod : Type 0 where
  derive_key_method : KdfMethod → StoreKeyMethod
  raw_key : StoreKeyMethod
  unprotected : StoreKeyMethod

pub data StoreKeyReference : Type 0 where
  derive_key_reference : KdfMethod → String → StoreKeyReference
  raw_key_reference : StoreKeyReference
  unprotected_reference : StoreKeyReference

-- `StoreKeyMethod::default`
abbrev pub default_method : StoreKeyMethod
default_method = derive_key_method (argon2i default_level)

-- `StoreKeyMethod::parse_uri`
unfoldable pub parse_method : String → Result StoreKeyMethod ErrorKind
parse_method uri =
    let prefix = (split_once b':' uri).0 in
    let derived : Result StoreKeyMethod ErrorKind =
      (decode uri >>= λ m. ok (derive_key_method m.0)) in
    if text.Mathlib.Text.◌==◌ prefix "raw"
    then ok raw_key
    else if text.Mathlib.Text.◌==◌ prefix "kdf"
    then derived
    else if text.Mathlib.Text.◌==◌ prefix "none"
    then ok unprotected
    else err unsupported

-- `From<StoreKeyReference> for StoreKeyMethod`
unfoldable pub method_of : StoreKeyReference → StoreKeyMethod
method_of (derive_key_reference method detail) = derive_key_method method
method_of raw_key_reference = raw_key
method_of unprotected_reference = unprotected

-- `StoreKeyReference::parse_uri`
unfoldable pub parse_reference : String → Result StoreKeyReference ErrorKind
parse_reference uri =
    let prefix = (split_once b':' uri).0 in
    let derived : Result StoreKeyReference ErrorKind =
      (decode uri >>= λ m. ok (derive_key_reference m.0 m.1)) in
    if text.Mathlib.Text.◌==◌ prefix "raw"
    then ok raw_key_reference
    else if text.Mathlib.Text.◌==◌ prefix "kdf"
    then derived
    else if text.Mathlib.Text.◌==◌ prefix "none"
    then ok unprotected_reference
    else err unsupported

-- The derived equality of `Level`.
unfoldable pub level_eq : Level → Level → Bool
level_eq interactive interactive = true
level_eq interactive moderate = false
level_eq moderate interactive = false
level_eq moderate moderate = true

unfoldable pub compare_method : StoreKeyReference → StoreKeyMethod → Bool
compare_method (derive_key_reference (argon2i l) detail) (derive_key_method (argon2i l')) =
    level_eq l l'
compare_method (derive_key_reference m detail) raw_key = false
compare_method (derive_key_reference m detail) unprotected = false
compare_method raw_key_reference (derive_key_method m) = false
compare_method raw_key_reference raw_key = true
compare_method raw_key_reference unprotected = false
compare_method unprotected_reference (derive_key_method m) = false
compare_method unprotected_reference raw_key = false
compare_method unprotected_reference unprotected = true

unfoldable pub into_uri : StoreKeyReference → String
into_uri (derive_key_reference method detail) = encode method (some detail)
into_uri raw_key_reference = "raw"
into_uri unprotected_reference = "none"

-- `parse_raw_store_key`'s decoding of base58 text into the 32 bytes of a key, of which it gives how many it wrote.
pub record Base58 (K : Type 0) : Type 0 where
  pub decode_onto : String → Option Bytes
  pub key_size : ℕ
  pub from_secret_bytes : Bytes → K

module _ (u : UrlText) (a : Argon2) (b : Base58 a.Key) where
  open a use {Key}
  open b use {decode_onto, key_size, from_secret_bytes}

  unfoldable pub parse_raw_store_key : String → Result (Option Key) ErrorKind
  parse_raw_store_key raw = elim (decode_onto raw) [
    | none ↦ err input
    | some key ↦ if length key == key_size then ok (some (from_secret_bytes key)) else err input
  ]

  -- `StoreKeyMethod::resolve`, with the random salt and the random key.
  unfoldable pub resolve_method :
      Bytes → Key → StoreKeyMethod → PassKey → Result (Option Key × StoreKeyReference) ErrorKind
  resolve_method salt random (derive_key_method method) none = err input
  resolve_method salt random (derive_key_method method) (some pass) = do
    (key, detail) ← derive_new_key u a salt method pass
    ok (some key, derive_key_reference method detail)
  resolve_method salt random raw_key pass = do
    key ←
        if is_empty (or_default pass)
        then ok (some random)
        else parse_raw_store_key (or_default pass)
    ok (key, raw_key_reference)
  resolve_method salt random unprotected pass = ok (none, unprotected_reference)

  -- `StoreKeyReference::resolve`
  unfoldable pub resolve_reference : StoreKeyReference → PassKey → Result (Option Key) ErrorKind
  resolve_reference (derive_key_reference method detail) none = err input
  resolve_reference (derive_key_reference method detail) (some pass) = do
    key ← derive_key u a method pass detail
    ok (some key)
  resolve_reference raw_key_reference pass =
      if is_empty (or_default pass) then err input else parse_raw_store_key (or_default pass)
  resolve_reference unprotected_reference pass = ok none

module _ (x : Primitives) where
  open x use {Key, nonce_size, encrypt_in_place, decrypt_in_place}

  -- `wrap_data`, with the random nonce.
  unfoldable pub wrap_data : Bytes → Option Key → Bytes → Result Bytes ErrorKind
  wrap_data nonce (some key) data' = do
    sealed ← lift (encrypt_in_place key data' nonce)
    ok (nonce ++ sealed)
  wrap_data nonce none data' = ok data'

  -- `unwrap_data`; `none` is the panic of the slice that is too short.
  unfoldable pub unwrap_data : Option Key → Bytes → Option (Result Bytes ErrorKind)
  unwrap_data (some key) ciphertext =
      if ltb (length ciphertext) nonce_size
      then none
      else some
          (lift (decrypt_in_place key (drop nonce_size ciphertext) (take nonce_size ciphertext)))
  unwrap_data none ciphertext = some (ok ciphertext)

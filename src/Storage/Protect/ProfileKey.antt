-- ===== src/Storage/Protect/ProfileKey.antt =====
-- Entry encryption: askar-storage/src/protect/profile_key.rs and hmac_key.rs, and the encryptor of mod.rs
-- that encrypts nothing. The cipher, the HMAC and the decoding of UTF-8 are crates that the source
-- calls: they are parameters, and so is a nonce that is drawn at random.
pub mod RoundTrip
mod ValueKey
pub mod Tests
use iviadc_aries_askar.Base.{
  ℕ, ◌≤◌, String, ◌≡◌, Bool, true, false, Option, none, some, List, ◌++◌, ltb, if◌then◌else◌,
  length, take, drop, Bytes, Result, ok, err, ◌>>=◌, collect,
}
use iviadc_aries_askar.Crypto.Bits.{to_be_bytes}
use iviadc_aries_askar.Crypto.Error as Crypto
use iviadc_aries_askar.Storage.Error.{ErrorKind, encryption, from_crypto}

-- `err?` of an error of the crypto crate.
unfoldable pub lift {ℓ} : {A : Type ℓ} → Result A Crypto.ErrorKind → Result A ErrorKind
lift (ok a) = ok a
lift (err e) = err (from_crypto e)

-- The traits of the two key types, with `String::from_utf8`.
pub record Primitives : Type 1 where
  pub Key : Type 0
  pub key_size : ℕ
  pub nonce_size : ℕ
  pub from_secret_bytes : Bytes → Key
  pub encrypt_in_place : Key → Bytes → Bytes → Result Bytes Crypto.ErrorKind
  pub decrypt_in_place : Key → Bytes → Bytes → Result Bytes Crypto.ErrorKind
  pub HmacKey : Type 0
  pub hmac_size : ℕ
  pub hmac : HmacKey → Bytes → Bytes
  pub from_utf8 : Bytes → Option String
  pub into_bytes : String → Bytes

-- What the traits promise: a sealed message opens again, an HMAC has its length, which is enough for a nonce and a
-- key, and a string's bytes decode.
pub record IsPrimitives (x : Primitives) : Type 0 where
  pub seals :
      (k : x.Key) (m nonce : Bytes)
      → length nonce ≡ x.nonce_size
      → (c : Bytes) × (x.encrypt_in_place k m nonce ≡ ok c) × (x.decrypt_in_place k c nonce ≡ ok m)
  pub length_hmac : (k : x.HmacKey) (m : Bytes) → length (x.hmac k m) ≡ x.hmac_size
  pub nonce_fits : x.nonce_size ≤ x.hmac_size
  pub key_fits : x.key_size ≤ x.hmac_size
  pub decodes : (s : String) → x.from_utf8 (x.into_bytes s) ≡ some s

pub data EntryTag : Type 0 where
  encrypted : String → String → EntryTag
  plaintext : String → String → EntryTag

pub record EncEntryTag : Type 0 where
  pub name : Bytes
  pub value : Bytes
  pub is_plaintext : Bool

module _ (x : Primitives) where
  open x use {
    Key, HmacKey, key_size, nonce_size, from_secret_bytes, encrypt_in_place, decrypt_in_place,
    hmac_size, hmac, from_utf8, into_bytes,
  }

  pub record ProfileKeyImpl : Type 0 where
    pub category_key : Key
    pub name_key : Key
    pub item_hmac_key : HmacKey
    pub tag_name_key : Key
    pub tag_value_key : Key
    pub tags_hmac_key : HmacKey

  -- `HmacDeriver::derive_key_bytes`: each input is fed in turn, so their bytes in a row are what is hashed.
  unfoldable pub derive_key_bytes : HmacKey → Bytes → ℕ → Result Bytes Crypto.ErrorKind
  derive_key_bytes k message output_len =
      if ltb hmac_size output_len
      then err Crypto.encryption
      else ok (take output_len (hmac k message))

  unfoldable pub encrypt_searchable : Bytes → Key → HmacKey → Result Bytes ErrorKind
  encrypt_searchable buffer enc_key hmac_key = do
    nonce ← lift (derive_key_bytes hmac_key buffer nonce_size)
    sealed ← lift (encrypt_in_place enc_key buffer nonce)
    ok (nonce ++ sealed)

  -- `encrypt`, with the random nonce.
  unfoldable pub encrypt : Bytes → Bytes → Key → Result Bytes ErrorKind
  encrypt nonce buffer enc_key = do
    sealed ← lift (encrypt_in_place enc_key buffer nonce)
    ok (nonce ++ sealed)

  unfoldable pub decrypt : Bytes → Key → Result Bytes ErrorKind
  decrypt ciphertext enc_key =
      if ltb (length ciphertext) nonce_size
      then err encryption
      else lift (decrypt_in_place enc_key (drop nonce_size ciphertext) (take nonce_size ciphertext))

  -- The inputs of the HMAC of a value's key.
  unfoldable pub value_key_input : Bytes → Bytes → Bytes
  value_key_input category name =
      to_be_bytes 4 (length category) ++ (category ++ (to_be_bytes 4 (length name) ++ name))

  unfoldable pub derive_value_key : ProfileKeyImpl → Bytes → Bytes → Result Key ErrorKind
  derive_value_key pk category name = do
    secret ← lift (derive_key_bytes pk.item_hmac_key (value_key_input category name) key_size)
    ok (from_secret_bytes secret)

  unfoldable pub encrypt_tag_name : ProfileKeyImpl → Bytes → Result Bytes ErrorKind
  encrypt_tag_name pk name = encrypt_searchable name pk.tag_name_key pk.tags_hmac_key

  unfoldable pub encrypt_tag_value : ProfileKeyImpl → Bytes → Result Bytes ErrorKind
  encrypt_tag_value pk value = encrypt_searchable value pk.tag_value_key pk.tags_hmac_key

  unfoldable pub decrypt_tag_name : ProfileKeyImpl → Bytes → Result Bytes ErrorKind
  decrypt_tag_name pk enc_tag_name = decrypt enc_tag_name pk.tag_name_key

  unfoldable pub decrypt_tag_value : ProfileKeyImpl → Bytes → Result Bytes ErrorKind
  decrypt_tag_value pk enc_tag_value = decrypt enc_tag_value pk.tag_value_key

  unfoldable pub encrypt_entry_category : ProfileKeyImpl → Bytes → Result Bytes ErrorKind
  encrypt_entry_category pk category = encrypt_searchable category pk.category_key pk.item_hmac_key

  unfoldable pub encrypt_entry_name : ProfileKeyImpl → Bytes → Result Bytes ErrorKind
  encrypt_entry_name pk name = encrypt_searchable name pk.name_key pk.item_hmac_key

  -- With the random nonce of `encrypt`.
  unfoldable pub encrypt_entry_value :
      ProfileKeyImpl → Bytes → Bytes → Bytes → Bytes → Result Bytes ErrorKind
  encrypt_entry_value pk nonce category name value = do
    value_key ← derive_value_key pk category name
    encrypt nonce value value_key

  unfoldable pub decode_utf8 : Bytes → Result String ErrorKind
  decode_utf8 value = elim (from_utf8 value) [ some s ↦ ok s | none ↦ err encryption ]

  unfoldable pub decrypt_entry_category : ProfileKeyImpl → Bytes → Result String ErrorKind
  decrypt_entry_category pk enc_category = decrypt enc_category pk.category_key >>= decode_utf8

  unfoldable pub decrypt_entry_name : ProfileKeyImpl → Bytes → Result String ErrorKind
  decrypt_entry_name pk enc_name = decrypt enc_name pk.name_key >>= decode_utf8

  unfoldable pub decrypt_entry_value :
      ProfileKeyImpl → Bytes → Bytes → Bytes → Result Bytes ErrorKind
  decrypt_entry_value pk category name enc_value = do
    value_key ← derive_value_key pk category name
    decrypt enc_value value_key

  unfoldable pub encrypt_tag : ProfileKeyImpl → EntryTag → Result EncEntryTag ErrorKind
  encrypt_tag pk (plaintext name value) = do
    n ← encrypt_tag_name pk (into_bytes name)
    ok (record { name = n; value = into_bytes value; is_plaintext = true })
  encrypt_tag pk (encrypted name value) = do
    n ← encrypt_tag_name pk (into_bytes name)
    v ← encrypt_tag_value pk (into_bytes value)
    ok (record { name = n; value = v; is_plaintext = false })

  unfoldable pub encrypt_entry_tags :
      ProfileKeyImpl → List EntryTag → Result (List EncEntryTag) ErrorKind
  encrypt_entry_tags pk tags = collect (encrypt_tag pk) tags

  -- The value of a tag, by the tag's flag.
  unfoldable pub decrypt_value : ProfileKeyImpl → Bool → Bytes → String → Result EntryTag ErrorKind
  decrypt_value pk true value name = do v ← decode_utf8 value; ok (plaintext name v)
  decrypt_value pk false value name = do
    v ← decrypt_tag_value pk value >>= decode_utf8
    ok (encrypted name v)

  unfoldable pub decrypt_tag : ProfileKeyImpl → EncEntryTag → Result EntryTag ErrorKind
  decrypt_tag pk tag = do
    name ← decrypt_tag_name pk tag.name >>= decode_utf8
    decrypt_value pk tag.is_plaintext tag.value name

  -- The fold stops at the first error, as a collected run does.
  unfoldable pub decrypt_entry_tags :
      ProfileKeyImpl → List EncEntryTag → Result (List EntryTag) ErrorKind
  decrypt_entry_tags pk tags = collect (decrypt_tag pk) tags

  -- `NullEncryptor`: the names and values stand as they are.
  unfoldable pub null_encrypt_tag : EntryTag → EncEntryTag
  null_encrypt_tag (encrypted name value) = record {
    name = into_bytes name;
    value = into_bytes value;
    is_plaintext = false;
  }
  null_encrypt_tag (plaintext name value) = record {
    name = into_bytes name;
    value = into_bytes value;
    is_plaintext = true;
  }

  unfoldable pub null_decrypt_tag : EncEntryTag → Result EntryTag ErrorKind
  null_decrypt_tag tag = do
    name ← decode_utf8 tag.name
    value ← decode_utf8 tag.value
    ok (if tag.is_plaintext then plaintext name value else encrypted name value)

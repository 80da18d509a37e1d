-- ===== src/Crypto/CbcHmac.antt =====
-- AES-CBC-HMAC: askar-crypto/src/alg/aes/cbc_hmac.rs. The padded CBC mode and the HMAC are crates that
-- the source calls: they are parameters. The buffer is a `Vec<u8>` or a `SecretBytes`, whose
-- extension and resizing do not fail.
pub mod RoundTrip
pub mod Checked
mod Tests
use iviadc_aries_askar.Base.{
  ℕ, ◌+◌, ◌-◌, ◌*◌, ◌%◌, ◌≡◌, ◌≤◌, Bool, true, false, not, Option, none, some, [], ◌∷◌, ◌++◌, Bytes,
  length, take, drop, replicate, ◌==◌, ltb, if◌then◌else◌, Result, ok, err,
}
use iviadc_aries_askar.Crypto.Bits.{to_be_bytes}
use iviadc_aries_askar.Crypto.Error.{ErrorKind, encryption, invalid_nonce}
use iviadc_aries_askar.Crypto.KeyWrap.{bytes_eq}

-- A cipher and a digest: the sizes of a block, of the cipher's key and of the digest;
-- `encrypt_padded_mut` of a key, an initial vector, a buffer and the length of the message in it, with
-- the buffer afterwards; `decrypt_padded_mut` with the buffer afterwards and the message's length;
-- the HMAC of a key and the bytes it was updated with.
pub record CbcHmac : Type 0 where
  pub block_size : ℕ
  pub key_size : ℕ
  pub output_size : ℕ
  pub encrypt_padded : Bytes → Bytes → Bytes → ℕ → Option Bytes
  pub decrypt_padded : Bytes → Bytes → Bytes → Bytes × Option ℕ
  pub hmac : Bytes → Bytes → Bytes

unfoldable pub extend_vec : ℕ → Bytes → Bytes
extend_vec n b = b ++ replicate n 0

-- `resize_vec`: the buffer is cut, or filled with zeros.
unfoldable pub resize_vec : ℕ → Bytes → Bytes
resize_vec n b = take n b ++ replicate (n - length b) 0

abbrev pub Opened : Type 0
Opened = Bytes × Result (Unit {0}) ErrorKind

-- The verdict on a buffer, by whether the tag matches and the length of the message, if the padding was right.
unfoldable pub finish_decrypt : Bytes → Bool → Option ℕ → Opened
unfolding resize_vec
finish_decrypt buffer tag_match none = (buffer, err encryption)
finish_decrypt buffer tag_match (some n) =
    (resize_vec n buffer, if tag_match then ok tt else err encryption)

module _ (c : CbcHmac) where
  unfoldable pub padding_length : ℕ → ℕ
  padding_length len = c.block_size - len % c.block_size

  -- `aead_padding`
  unfoldable pub aead_padding : ℕ → ℕ
  unfolding padding_length
  aead_padding msg_len = padding_length msg_len

  -- `aead_params`: the length of the nonce and of the tag.
  unfoldable pub aead_params : ℕ × ℕ
  aead_params = (c.block_size, c.key_size)

  -- The tag of the ciphertext: the HMAC under the first half of the key, cut to `TagSize`.
  unfoldable pub tag_of : Bytes → Bytes → Bytes → Bytes → Bytes
  tag_of key nonce aad ctext =
      take c.key_size
        (c.hmac (take c.key_size key) (aad ++ (nonce ++ (ctext ++ to_be_bytes 8 (length aad * 8)))))

  -- The end of `encrypt_in_place`: the tag is copied behind the ciphertext.
  unfoldable pub copy_tag : Bytes → Bytes → Bytes → ℕ → Bytes → Bytes
  unfolding tag_of
  copy_tag key nonce aad ctext_end buffer =
      take ctext_end buffer
      ++ (tag_of key nonce aad (take ctext_end buffer) ++ drop (ctext_end + c.key_size) buffer)

  -- The buffer afterwards, and the result. The bound on the associated data is `u64::MAX / 8`.
  unfoldable pub encrypt_in_place : Bytes → Bytes → Bytes → Bytes → Bytes × Result ℕ ErrorKind
  unfolding padding_length extend_vec copy_tag
  encrypt_in_place key buffer nonce aad =
      if not (length nonce == c.block_size)
      then (buffer, err invalid_nonce)
      else if ltb c.output_size c.key_size
      then (buffer, err encryption)
      else if ltb 2305843009213693951 (length aad)
      then (buffer, err encryption)
      else let msg_len = length buffer in
        let pad_len = padding_length msg_len in
        let extended = extend_vec (pad_len + c.key_size) buffer in
        elim (c.encrypt_padded (drop c.key_size key) nonce extended msg_len) [
          | none ↦ (extended, err encryption)
          | some buffer' ↦
              (copy_tag key nonce aad (msg_len + pad_len) buffer', ok (msg_len + pad_len))
        ]

  -- The end of `decrypt_in_place`, on the ciphertext, the tag and whether the tag matches.
  unfoldable pub decrypt_tagged : Bytes → Bytes → Bytes → Bytes → Bool → Opened
  unfolding finish_decrypt
  decrypt_tagged key nonce ctext tag tag_match =
      let (ctext', dec_len) = c.decrypt_padded (drop c.key_size key) nonce ctext in
      finish_decrypt (ctext' ++ tag) tag_match dec_len

  unfoldable pub decrypt_in_place : Bytes → Bytes → Bytes → Bytes → Opened
  unfolding tag_of bytes_eq decrypt_tagged
  decrypt_in_place key buffer nonce aad =
      if not (length nonce == c.block_size)
      then (buffer, err invalid_nonce)
      else if ltb 2305843009213693951 (length aad)
      then (buffer, err encryption)
      else if ltb (length buffer) c.key_size
      then (buffer, err encryption)
      else let ctext_end = length buffer - c.key_size in
        let ctext = take ctext_end buffer in
        let tag = drop ctext_end buffer in
        decrypt_tagged key nonce ctext tag (bytes_eq tag (tag_of key nonce aad ctext))

-- What the padded CBC mode and the HMAC promise: `cbc` is the ciphertext of a key, an initial vector and a
-- message, `behind` what decryption leaves behind the message.
pub record IsCbcHmac (c : CbcHmac) (cbc behind : Bytes → Bytes → Bytes → Bytes) : Type 0 where
  pub length_cbc :
      (key iv msg : Bytes)
      → length key ≡ c.key_size
      → length iv ≡ c.block_size
      → length (cbc key iv msg) ≡ length msg + padding_length c (length msg)
  pub encrypts :
      (key iv msg room : Bytes)
      → length key ≡ c.key_size
      → length iv ≡ c.block_size
      → padding_length c (length msg) ≤ length room
      → c.encrypt_padded key iv (msg ++ room) (length msg)
        ≡ some (cbc key iv msg ++ drop (padding_length c (length msg)) room)
  pub decrypts :
      (key iv msg : Bytes)
      → length key ≡ c.key_size
      → length iv ≡ c.block_size
      → c.decrypt_padded key iv (cbc key iv msg) ≡ (msg ++ behind key iv msg, some (length msg))
  pub length_behind :
      (key iv msg : Bytes) → length (behind key iv msg) ≡ padding_length c (length msg)
  pub length_hmac : (key msg : Bytes) → length (c.hmac key msg) ≡ c.output_size

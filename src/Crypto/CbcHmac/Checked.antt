-- ===== src/Crypto/CbcHmac/Checked.antt =====
-- What AES-CBC-HMAC accepts, and the sizes it writes: askar-crypto/src/alg/aes/cbc_hmac.rs.
use iviadc_aries_askar.Base.{
  ℕ, ◌+◌, ◌-◌, ◌*◌, ◌/◌, ◌≤◌, ◌<◌, ◌≡◌, refl, Bool, true, false, not, Option, none, some, arith,
  ltb, ◌==◌, if◌then◌else◌, length, take, drop, Bytes, ok, err,
}
use native.Mathlib.Nat.{mod-lt}
use native.Mathlib.Omega.{div_any}
use iviadc_aries_askar.Crypto.Error.{ErrorKind, encryption, invalid_nonce}
use iviadc_aries_askar.Crypto.KeyWrap.{bytes_eq}
use iviadc_aries_askar.Crypto.KeyWrap.Accept.{bytes_eq_sound}
use iviadc_aries_askar.Crypto.CbcHmac.{
  CbcHmac, Opened, finish_decrypt, padding_length, tag_of, decrypt_tagged, decrypt_in_place,
}

-- A check that an accepted buffer has passed.
passed :
    (b : Bool) (buffer : Bytes) (e : ErrorKind) (rest : Opened)
    → (if b then (buffer, err e) else rest).1 ≡ ok tt
    → (b ≡ false) × (rest.1 ≡ ok tt)
passed true buffer e rest h = cc
passed false buffer e rest h = (refl, h)

finish_decrypt-ok :
    (buffer : Bytes) (matches : Bool) (dec_len : Option ℕ)
    → (finish_decrypt buffer matches dec_len).1 ≡ ok tt
    → matches ≡ true
unfolding finish_decrypt
finish_decrypt-ok buffer matches none h = cc
finish_decrypt-ok buffer true (some n) h = refl
finish_decrypt-ok buffer false (some n) h = cc

-- Where decryption succeeds, whatever the cipher and the digest, the nonce has the length of a block, the associated
-- data is within the bound, the buffer has room for the tag, and it ends in the tag of the bytes before it.
pub decrypt_in_place-tag :
    (c : CbcHmac) (key buffer nonce aad : Bytes)
    → (decrypt_in_place c key buffer nonce aad).1 ≡ ok tt
    → (length nonce ≡ c.block_size)
      × (length aad ≤ 2305843009213693951)
      × (c.key_size ≤ length buffer)
      × (drop (length buffer - c.key_size) buffer
          ≡ tag_of c key nonce aad (take (length buffer - c.key_size) buffer))
unfolding decrypt_in_place decrypt_tagged
decrypt_in_place-tag c key buffer nonce aad h =
    let (n, h1) = passed (not (length nonce == c.block_size)) buffer invalid_nonce _ h in
    let (a, h2) = passed (ltb 2305843009213693951 (length aad)) buffer encryption _ h1 in
    let (s, h3) = passed (ltb (length buffer) c.key_size) buffer encryption _ h2 in
    let ctext = take (length buffer - c.key_size) buffer in
    let tag = drop (length buffer - c.key_size) buffer in
    let matches = bytes_eq tag (tag_of c key nonce aad ctext) in
    let m = finish_decrypt-ok _ matches (c.decrypt_padded (drop c.key_size key) nonce ctext).1 h3 in
    (ground arith, ground arith, ground arith, bytes_eq_sound tag (tag_of c key nonce aad ctext) m)

-- The padding fills the last block, with one byte at least.
pub padding_length_lem :
    (c : CbcHmac) (len : ℕ)
    → 0 < c.block_size
    → (0 < padding_length c len)
      × (padding_length c len ≤ c.block_size)
      × (len + padding_length c len ≡ c.block_size * (len / c.block_size) + c.block_size)
unfolding padding_length
padding_length_lem c len h =
    let r = mod-lt len h in
    let d = div_any len c.block_size in (omega arith, omega arith, omega arith)

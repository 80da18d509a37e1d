-- ===== src/Crypto/KeyWrap.antt =====
-- AES key wrap (RFC 3394): askar-crypto/src/alg/aes/key_wrap.rs. The AES block cipher is a crate
-- that the source calls: it is a parameter, keyed as `C::new(self.0.as_ref())` keys it. The buffer is
-- a `Vec<u8>` or a `SecretBytes`, whose inserts and removals do not fail.
mod Pass
mod Rounds
mod RoundTrip
pub mod Accept
mod Tests
use iviadc_aries_askar.Base.{
  ℕ, zero, suc, ◌+◌, ◌-◌, ◌*◌, ◌/◌, ◌%◌, ◌≡◌, Bool, true, false, not, ◌&&◌, [], ◌∷◌, ◌++◌, Bytes,
  length, take, drop, replicate, ◌==◌, ltb, if◌then◌else◌, Result, ok, err,
}
use iviadc_aries_askar.Crypto.Bits.{xor_into, to_be_bytes}
use iviadc_aries_askar.Crypto.Error.{ErrorKind, encryption, unsupported}

-- A keyed block cipher.
pub record BlockCipher : Type 0 where
  pub encrypt_block : Bytes → Bytes
  pub decrypt_block : Bytes → Bytes

-- What a cipher of 16-byte blocks promises.
pub record IsPermutation (c : BlockCipher) : Type 0 where
  pub length_encrypt : (b : Bytes) → length b ≡ 16 → length (c.encrypt_block b) ≡ 16
  pub length_decrypt : (b : Bytes) → length b ≡ 16 → length (c.decrypt_block b) ≡ 16
  pub decrypt_encrypt : (b : Bytes) → length b ≡ 16 → c.decrypt_block (c.encrypt_block b) ≡ b
  pub encrypt_decrypt : (b : Bytes) → length b ≡ 16 → c.encrypt_block (c.decrypt_block b) ≡ b

-- AES_KW_DEFAULT_IV
abbrev pub default_iv : Bytes
default_iv = 166 ∷ 166 ∷ 166 ∷ 166 ∷ 166 ∷ 166 ∷ 166 ∷ 166 ∷ []

-- `iv.ct_eq(&AES_KW_DEFAULT_IV)`
unfoldable pub bytes_eq : Bytes → Bytes → Bool
bytes_eq [] [] = true
bytes_eq [] (_ ∷ _) = false
bytes_eq (_ ∷ _) [] = false
bytes_eq (a ∷ xs) (b ∷ ys) = a == b && bytes_eq xs ys

module _ (c : BlockCipher) (blocks : ℕ) where
  -- The counter `((blocks * j) + i + 1) as u64`, in bytes.
  unfoldable pub counter : ℕ → ℕ → Bytes
  counter j i = to_be_bytes 8 (blocks * j + i + 1)

  -- One run of the inner loop over the chunks of 8 bytes: `n` chunks from number `i` on are left.
  -- The result is the integrity value and the bytes of these chunks.
  unfoldable pub wrap_pass : ℕ → ℕ → ℕ → Bytes → Bytes → Bytes × Bytes
  unfolding counter
  wrap_pass j zero i iv rest = (iv, rest)
  wrap_pass j (suc n) i iv rest =
      let block = c.encrypt_block (iv ++ take 8 rest) in
      let after = wrap_pass j n (suc i) (xor_into (take 8 block) (counter j i)) (drop 8 rest) in
      (after.0, drop 8 block ++ after.1)

  -- The inner loop of the decryption takes the chunks from the last to the first.
  unfoldable pub unwrap_pass : ℕ → ℕ → ℕ → Bytes → Bytes → Bytes × Bytes
  unfolding counter
  unwrap_pass j zero i iv rest = (iv, rest)
  unwrap_pass j (suc n) i iv rest =
      let after = unwrap_pass j n (suc i) iv (drop 8 rest) in
      let block = c.decrypt_block (xor_into after.0 (counter j i) ++ take 8 rest) in
      (take 8 block, drop 8 block ++ after.1)

  -- The outer loop, `for j in 0..6` from `j` on with `k` rounds left.
  unfoldable pub wrap_rounds : ℕ → ℕ → Bytes → Bytes → Bytes × Bytes
  unfolding wrap_pass
  wrap_rounds zero j iv buf = (iv, buf)
  wrap_rounds (suc k) j iv buf =
      let (iv', buf') = wrap_pass j blocks 0 iv buf in wrap_rounds k (suc j) iv' buf'

  -- The outer loop `for j in (0..6).rev()`.
  unfoldable pub unwrap_rounds : ℕ → ℕ → Bytes → Bytes → Bytes × Bytes
  unfolding unwrap_pass
  unwrap_rounds zero j iv buf = (iv, buf)
  unwrap_rounds (suc k) j iv buf =
      let (iv', buf') = unwrap_rounds k (suc j) iv buf in unwrap_pass j blocks 0 iv' buf'

-- `encrypt_in_place`: the buffer afterwards, and the result.
unfoldable pub encrypt_in_place : BlockCipher → Bytes → Bytes → Bytes → Bytes × Result ℕ ErrorKind
encrypt_in_place c buffer nonce aad =
    if not (length nonce == 0)
    then (buffer, err unsupported)
    else if not (length aad == 0)
    then (buffer, err unsupported)
    else if not (length buffer % 8 == 0)
    then (buffer, err unsupported)
    else let (iv, chunks) = wrap_rounds c (length buffer / 8) 6 0 default_iv buffer in
      (iv ++ chunks, ok (length buffer + 8))

-- `decrypt_in_place`: the buffer afterwards, and the result.
unfoldable pub decrypt_in_place :
    BlockCipher → Bytes → Bytes → Bytes → Bytes × Result (Unit {0}) ErrorKind
unfolding bytes_eq
decrypt_in_place c buffer nonce aad =
    if not (length nonce == 0)
    then (buffer, err unsupported)
    else if not (length aad == 0)
    then (buffer, err unsupported)
    else if not (length buffer % 8 == 0)
    then (buffer, err encryption)
    else if ltb (length buffer / 8) 1
    then (buffer, err encryption)
    else let (iv, chunks) =
        unwrap_rounds c (length buffer / 8 - 1) 6 0 (take 8 buffer) (drop 8 buffer) in
      (chunks, if bytes_eq iv default_iv then ok tt else err encryption)

-- ===== src/Crypto/CbcHmac/Tests.antt =====
-- Runs of AES-CBC-HMAC with small stand-ins for the cipher and the digest: blocks and keys of 2 bytes, a digest of
-- 3. The ciphertext is the padding before the message.
use iviadc_aries_askar.Base.{
  ℕ, suc, ◌+◌, ◌-◌, ◌%◌, ◌≤◌, ◌≡◌, refl, false, Option, none, some, [], ◌∷◌, ◌++◌, arith, ltb,
  if◌then◌else◌, length, take, drop, replicate, length-append, length-replicate, Bytes,
  take-append_of, drop-append_of, drop-drop, ok,
}
use iviadc_aries_askar.Crypto.Bits.{to_be_bytes}
use iviadc_aries_askar.Crypto.CbcHmac.{
  CbcHmac, IsCbcHmac, padding_length, tag_of, encrypt_in_place, decrypt_in_place,
}
use iviadc_aries_askar.Crypto.CbcHmac.RoundTrip.{cbc_hmac_round_trip}
use iviadc_aries_askar.Crypto.CbcHmac.Checked.{decrypt_in_place-tag}

unfoldable fill : ℕ → Bytes
fill n = (2 - n % 2) ∷ replicate (2 - n % 2 - 1) 0

unfoldable toy_cbc : Bytes → Bytes → Bytes → Bytes
unfolding fill
toy_cbc key iv msg = fill (length msg) ++ msg

unfoldable toy_behind : Bytes → Bytes → Bytes → Bytes
unfolding fill
toy_behind key iv msg = fill (length msg)

unfoldable toy_encrypt : Bytes → Bytes → Bytes → ℕ → Option Bytes
unfolding toy_cbc
toy_encrypt key iv buffer n =
    if ltb (length buffer) (n + (2 - n % 2))
    then none
    else some (toy_cbc key iv (take n buffer) ++ drop (n + (2 - n % 2)) buffer)

unfoldable toy_decrypt : Bytes → Bytes → Bytes → Bytes × Option ℕ
toy_decrypt key iv [] = ([], none)
toy_decrypt key iv (p ∷ rest) =
    (drop (p - 1) rest ++ (p ∷ take (p - 1) rest), some (suc (length rest) - p))

abbrev toy : CbcHmac
toy = record {
  block_size = 2;
  key_size = 2;
  output_size = 3;
  encrypt_padded = toy_encrypt;
  decrypt_padded = toy_decrypt;
  hmac = λ key msg. length msg ∷ length key ∷ 7 ∷ [];
}

length-fill : (n : ℕ) → length (fill n) ≡ 2 - n % 2
unfolding fill
length-fill n = omega (arith, length-replicate {A = ℕ} (2 - n % 2 - 1) 0)

toy-length_cbc :
    (key iv msg : Bytes)
    → length (toy_cbc key iv msg) ≡ length msg + padding_length toy (length msg)
unfolding toy_cbc padding_length
toy-length_cbc key iv msg =
    omega (arith, length-append {0} (fill (length msg)) msg, length-fill (length msg))

toy-encrypts :
    (key iv msg room : Bytes)
    → padding_length toy (length msg) ≤ length room
    → toy_encrypt key iv (msg ++ room) (length msg)
      ≡ some (toy_cbc key iv msg ++ drop (padding_length toy (length msg)) room)
unfolding toy_encrypt padding_length
toy-encrypts key iv msg room h =
    let pad = 2 - length msg % 2 in
    let fits : ltb (length (msg ++ room)) (length msg + pad) ≡ false =
      ground (arith, length-append {0} msg room) in
    rw
      (
        fits,
        take-append_of (length msg) msg room refl,
        ← drop-drop pad (length msg) (msg ++ room),
        drop-append_of (length msg) msg room refl,
      )
      refl

toy-decrypts :
    (key iv msg : Bytes)
    → toy_decrypt key iv (toy_cbc key iv msg) ≡ (msg ++ toy_behind key iv msg, some (length msg))
unfolding toy_decrypt toy_cbc toy_behind fill
toy-decrypts key iv msg =
    let p = 2 - length msg % 2 in
    let zeros : Bytes = replicate {A = ℕ} (p - 1) 0 in
    let e : length zeros ≡ p - 1 = length-replicate {A = ℕ} (p - 1) 0 in
    let n : suc (length (zeros ++ msg)) - p ≡ length msg =
      omega (arith, length-append {0} zeros msg) in
    rw (drop-append_of (p - 1) zeros msg e, take-append_of (p - 1) zeros msg e, n) refl

toy-IsCbcHmac : IsCbcHmac toy toy_cbc toy_behind
unfolding padding_length toy_behind
toy-IsCbcHmac = record {
  length_cbc = λ key iv msg _ _. toy-length_cbc key iv msg;
  encrypts = λ key iv msg room _ _. toy-encrypts key iv msg room;
  decrypts = λ key iv msg _ _. toy-decrypts key iv msg;
  length_behind = λ key iv msg. length-fill (length msg);
  length_hmac = λ key msg. refl;
}

abbrev toy_key : Bytes
toy_key = 1 ∷ 2 ∷ 3 ∷ 4 ∷ []

abbrev toy_nonce : Bytes
toy_nonce = 5 ∷ 6 ∷ []

abbrev toy_aad : Bytes
toy_aad = 9 ∷ []

cbc_hmac_round_trip_example :
    ((encrypt_in_place toy toy_key (10 ∷ 11 ∷ 12 ∷ []) toy_nonce toy_aad).1 ≡ ok 4)
    × (decrypt_in_place toy toy_key
          (encrypt_in_place toy toy_key (10 ∷ 11 ∷ 12 ∷ []) toy_nonce toy_aad).0
          toy_nonce
          toy_aad
        ≡ (10 ∷ 11 ∷ 12 ∷ [], ok tt))
unfolding padding_length
cbc_hmac_round_trip_example =
    cbc_hmac_round_trip toy toy_cbc toy_behind toy-IsCbcHmac toy_key toy_nonce toy_aad refl refl
      (omega arith) (omega arith) (10 ∷ 11 ∷ 12 ∷ [])

decrypt_in_place-tag_example :
    (length toy_nonce ≡ 2)
    × (length toy_aad ≤ 2305843009213693951)
    × (2 ≤ 6)
    × (15 ∷ 2 ∷ [] ≡ tag_of toy toy_key toy_nonce toy_aad (1 ∷ 10 ∷ 11 ∷ 12 ∷ []))
unfolding decrypt_in_place toy_decrypt to_be_bytes
decrypt_in_place-tag_example =
    decrypt_in_place-tag toy toy_key (1 ∷ 10 ∷ 11 ∷ 12 ∷ 15 ∷ 2 ∷ []) toy_nonce toy_aad refl

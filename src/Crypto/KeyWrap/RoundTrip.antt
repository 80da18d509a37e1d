-- ===== src/Crypto/KeyWrap/RoundTrip.antt =====
-- What `encrypt_in_place` of key_wrap.rs wraps, `decrypt_in_place` unwraps.
use iviadc_aries_askar.Base.{
  ◌+◌, ◌-◌, ◌/◌, ◌%◌, ◌≡◌, refl, ap, true, false, ◌==◌, ltb, [], ◌∷◌, ◌++◌, Bytes, length, arith,
  ok, err, length-append, take-append_of, drop-append_of, if◌then◌else◌, ==_iff,
}
use iviadc_aries_askar.Crypto.Error.{encryption}
use iviadc_aries_askar.Crypto.KeyWrap.{
  BlockCipher, IsPermutation, default_iv, bytes_eq, wrap_rounds, unwrap_rounds, encrypt_in_place,
  decrypt_in_place,
}
use iviadc_aries_askar.Crypto.KeyWrap.Rounds.{Fits, wrap_rounds-Fits, unwrap_rounds-wrap_rounds}

pub bytes_eq_refl : (xs : Bytes) → bytes_eq xs xs ≡ true
unfolding bytes_eq
bytes_eq_refl [] = refl
bytes_eq_refl (x ∷ xs) = rw ((==_iff x x).1 refl, bytes_eq_refl xs)

-- The encryption of a buffer of whole half blocks, as its rounds give it.
pub encrypt_in_place-eq :
    (c : BlockCipher) (buffer : Bytes)
    → length buffer % 8 ≡ 0
    → encrypt_in_place c buffer [] [] ≡ (
      (wrap_rounds c (length buffer / 8) 6 0 default_iv buffer).0
          ++ (wrap_rounds c (length buffer / 8) 6 0 default_iv buffer).1,
      ok (length buffer + 8),
    )
unfolding encrypt_in_place
encrypt_in_place-eq c buffer whole = rw whole

-- The decryption of an integrity value and whole half blocks.
pub decrypt_in_place-eq :
    (c : BlockCipher) (iv chunks : Bytes)
    → length iv ≡ 8
    → length chunks % 8 ≡ 0
    → decrypt_in_place c (iv ++ chunks) [] [] ≡ (
      (unwrap_rounds c (length chunks / 8) 6 0 iv chunks).1,
      (if bytes_eq (unwrap_rounds c (length chunks / 8) 6 0 iv chunks).0 default_iv
          then ok tt
          else err encryption),
    )
unfolding decrypt_in_place
decrypt_in_place-eq c iv chunks h whole =
    let len : length (iv ++ chunks) ≡ 8 + length chunks = omega (arith, length-append iv chunks) in
    let rem : (length (iv ++ chunks) % 8 == 0) ≡ true = (==_iff _ 0).1 (omega arith) in
    let some_block : ltb (length (iv ++ chunks) / 8) 1 ≡ false = ground arith in
    let blocks : length (iv ++ chunks) / 8 - 1 ≡ length chunks / 8 = omega arith in
    rw (rem, some_block, blocks, take-append_of 8 iv chunks h, drop-append_of 8 iv chunks h)

-- For every block cipher that permutes the 16-byte blocks and every buffer whose length is a multiple of 8,
-- wrapping reports the length plus 8, and unwrapping what it left in the buffer succeeds and leaves the
-- first buffer.
pub decrypt_in_place-encrypt_in_place :
    (c : BlockCipher)
    → IsPermutation c
    → (buffer : Bytes) → length buffer % 8 ≡ 0
    → ((encrypt_in_place c buffer [] []).1 ≡ ok (length buffer + 8))
      × (decrypt_in_place c (encrypt_in_place c buffer [] []).0 [] [] ≡ (buffer, ok tt))
decrypt_in_place-encrypt_in_place c p buffer whole =
    let n = length buffer / 8 in
    let w = wrap_rounds c n 6 0 default_iv buffer in
    let fits : Fits (length buffer) w =
      wrap_rounds-Fits c p n (length buffer) (omega arith) 6 0 default_iv buffer (refl, refl) in
    let back =
      unwrap_rounds-wrap_rounds c p n (length buffer) (omega arith) 6 0 default_iv buffer
        (refl, refl) in
    (
      ap (λ r. r.1) (encrypt_in_place-eq c buffer whole),
      rw (
        encrypt_in_place-eq c buffer whole,
        decrypt_in_place-eq c w.0 w.1 fits.0 (omega arith),
        fits.1,
        back,
        bytes_eq_refl default_iv,
      ),
    )

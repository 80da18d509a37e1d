-- ===== src/Crypto/CbcHmac/RoundTrip.antt =====
-- Decryption after encryption with AES-CBC-HMAC: askar-crypto/src/alg/aes/cbc_hmac.rs.
use iviadc_aries_askar.Base.{
  ℕ, zero, suc, ◌+◌, ◌-◌, ◌*◌, ◌≤◌, ◌≡◌, refl, ap, ◌∙◌, true, false, some, [], ◌∷◌, ◌++◌,
  append-nil, append_assoc, arith, ltb, ◌==◌, ==_iff, length, take, drop, replicate, length-append,
  length-take, length-drop, length-replicate, Bytes, take-append_of, drop-append_of, drop-drop, ok,
}
use iviadc_aries_askar.Crypto.KeyWrap.{bytes_eq}
use iviadc_aries_askar.Crypto.CbcHmac.{
  to_be_bytes, CbcHmac, IsCbcHmac, finish_decrypt, padding_length, extend_vec, resize_vec, tag_of,
  copy_tag, encrypt_in_place, decrypt_tagged, decrypt_in_place,
}

drop_all : (n : ℕ) (xs : Bytes) → length xs ≤ n → drop n xs ≡ []
drop_all zero [] h = refl
drop_all zero (x ∷ xs) h = absurd (omega arith)
drop_all (suc n) [] h = refl
drop_all (suc n) (x ∷ xs) h = drop_all n xs (omega arith)

pub bytes_eq_refl : (xs : Bytes) → bytes_eq xs xs ≡ true
unfolding bytes_eq
bytes_eq_refl [] = refl
bytes_eq_refl (x ∷ xs) = rw ((==_iff x x).1 refl, bytes_eq_refl xs) refl

module _ (c : CbcHmac) (cbc behind : Bytes → Bytes → Bytes → Bytes) (p : IsCbcHmac c cbc behind)
    (key nonce aad : Bytes) (k : length key ≡ c.key_size + c.key_size)
    (v : length nonce ≡ c.block_size) (o : c.key_size ≤ c.output_size)
    (a : length aad ≤ 2305843009213693951) where
  enc_key : length (drop c.key_size key) ≡ c.key_size
  enc_key = omega (arith, length-drop c.key_size key)

  nonce_fits : (length nonce == c.block_size) ≡ true
  nonce_fits = (==_iff (length nonce) c.block_size).1 v

  aad_fits : ltb 2305843009213693951 (length aad) ≡ false
  aad_fits = ground arith

  tag_fits : ltb c.output_size c.key_size ≡ false
  tag_fits = ground arith

  length-tag_of : (ctext : Bytes) → length (tag_of c key nonce aad ctext) ≡ c.key_size
  unfolding tag_of
  length-tag_of ctext = omega (
    arith,
    length-take c.key_size (
        c.hmac (take c.key_size key) (aad ++ (nonce ++ (ctext ++ to_be_bytes 8 (length aad * 8))))),
    p.length_hmac (take c.key_size key)
        (aad ++ (nonce ++ (ctext ++ to_be_bytes 8 (length aad * 8)))),
  )

  copy_tag-append :
      (n : ℕ) (ctext room : Bytes)
      → length ctext ≡ n
      → length room ≡ c.key_size
      → copy_tag c key nonce aad n (ctext ++ room) ≡ ctext ++ tag_of c key nonce aad ctext
  unfolding copy_tag
  copy_tag-append n ctext room e r =
      rw
        (
          take-append_of n ctext room e,
          ← drop-drop c.key_size n (ctext ++ room),
          drop-append_of n ctext room e,
          drop_all c.key_size room (omega arith),
          append-nil (tag_of c key nonce aad ctext),
        )
        refl

  room_fits : (pad : ℕ) → pad ≤ length (replicate {A = ℕ} (pad + c.key_size) 0)
  room_fits pad = omega (arith, length-replicate {A = ℕ} (pad + c.key_size) 0)

  rest_fits : (pad : ℕ) → length (drop pad (replicate {A = ℕ} (pad + c.key_size) 0)) ≡ c.key_size
  rest_fits pad = omega (
    arith,
    length-drop pad (replicate {A = ℕ} (pad + c.key_size) 0),
    length-replicate {A = ℕ} (pad + c.key_size) 0,
  )

  pub encrypt_in_place_lem :
      (msg : Bytes)
      → encrypt_in_place c key msg nonce aad ≡ (
        cbc (drop c.key_size key) nonce msg
            ++ tag_of c key nonce aad (cbc (drop c.key_size key) nonce msg),
        ok (length msg + padding_length c (length msg)),
      )
  unfolding encrypt_in_place extend_vec
  encrypt_in_place_lem msg =
      let pad = padding_length c (length msg) in
      let room : Bytes = replicate {A = ℕ} (pad + c.key_size) 0 in
      rw
        (
          nonce_fits,
          tag_fits,
          aad_fits,
          extend_vec,
          p.encrypts (drop c.key_size key) nonce msg room enc_key v (room_fits pad),
          copy_tag-append (length msg + pad) (cbc (drop c.key_size key) nonce msg) (drop pad room)
              (p.length_cbc (drop c.key_size key) nonce msg enc_key v) (rest_fits pad),
        )
        refl

  decrypt_tagged-cbc :
      (msg ctext tag : Bytes)
      → ctext ≡ cbc (drop c.key_size key) nonce msg
      → decrypt_tagged c key nonce ctext tag true ≡ (msg, ok tt)
  unfolding decrypt_tagged finish_decrypt resize_vec
  decrypt_tagged-cbc msg ctext tag e =
      let rest = behind (drop c.key_size key) nonce msg in
      let opened : c.decrypt_padded (drop c.key_size key) nonce ctext
          ≡ (msg ++ rest, some (length msg)) =
        ap (c.decrypt_padded (drop c.key_size key) nonce) e
        ∙ p.decrypts (drop c.key_size key) nonce msg enc_key v in
      let full : length msg - length (msg ++ (rest ++ tag)) ≡ 0 =
        omega (arith, length-append {0} msg (rest ++ tag)) in
      rw
        (
          decrypt_tagged,
          opened,
          opened,
          finish_decrypt,
          resize_vec,
          append_assoc msg rest tag,
          take-append_of (length msg) msg (rest ++ tag) refl,
          full,
          append-nil msg,
        )
        refl

  -- What comes back from a ciphertext with its tag.
  decrypt_in_place-sealed :
      (msg ctext : Bytes)
      → ctext ≡ cbc (drop c.key_size key) nonce msg
      → decrypt_in_place c key (ctext ++ tag_of c key nonce aad ctext) nonce aad ≡ (msg, ok tt)
  unfolding decrypt_in_place
  decrypt_in_place-sealed msg ctext e =
      let tag = tag_of c key nonce aad ctext in
      let size : length (ctext ++ tag) ≡ length ctext + c.key_size =
        omega (arith, length-append {0} ctext tag, length-tag_of ctext) in
      let end : length (ctext ++ tag) - c.key_size ≡ length ctext = omega arith in
      let sized : ltb (length (ctext ++ tag)) c.key_size ≡ false = ground arith in
      rw
        (
          nonce_fits,
          aad_fits,
          sized,
          end,
          take-append_of (length ctext) ctext tag refl,
          drop-append_of (length ctext) ctext tag refl,
          bytes_eq_refl tag,
        )
        (decrypt_tagged-cbc msg ctext tag e)

  -- With a cipher and a digest that keep their promises, a key of two halves, a nonce of one block, a tag no longer
  -- than the digest and associated data within the bound, encryption of every message succeeds and reports the
  -- length of the padded message, and decryption of the buffer it leaves gives back the message.
  pub cbc_hmac_round_trip :
      (msg : Bytes)
      → ((encrypt_in_place c key msg nonce aad).1 ≡ ok (length msg + padding_length c (length msg)))
        × (decrypt_in_place c key (encrypt_in_place c key msg nonce aad).0 nonce aad ≡ (msg, ok tt))
  cbc_hmac_round_trip msg =
      rw (encrypt_in_place_lem msg)
        (refl, decrypt_in_place-sealed msg (cbc (drop c.key_size key) nonce msg) refl)

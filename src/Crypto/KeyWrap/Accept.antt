-- ===== src/Crypto/KeyWrap/Accept.antt =====
-- What `encrypt_in_place` and `decrypt_in_place` of key_wrap.rs refuse, and that the decryption
-- accepts wrapped data alone.
use iviadc_aries_askar.Base.{
  Result, ◌+◌, ◌/◌, ◌%◌, ◌<◌, ◌≡◌, refl, ◌≢◌, ap, ◌∙◌, sym, true, ◌==◌, ◌⊎◌, inl, inr, ltb, [], ◌∷◌,
  ◌++◌, Bytes, length, take, drop, arith, ok, err, take-append-drop, if◌then◌else◌, ==_iff,
  Bool-cases, length-take, length-drop,
}
use iviadc_aries_askar.Crypto.Error.{ErrorKind, encryption, unsupported}
use iviadc_aries_askar.Crypto.KeyWrap.{
  BlockCipher, IsPermutation, default_iv, bytes_eq, wrap_rounds, unwrap_rounds, encrypt_in_place,
  decrypt_in_place,
}
use iviadc_aries_askar.Crypto.KeyWrap.Rounds.{Fits, unwrap_rounds-Fits, wrap_rounds-unwrap_rounds}
use iviadc_aries_askar.Crypto.KeyWrap.RoundTrip.{encrypt_in_place-eq, decrypt_in_place-eq}

pub bytes_eq_sound : (xs ys : Bytes) → bytes_eq xs ys ≡ true → xs ≡ ys
unfolding bytes_eq
bytes_eq_sound [] [] h = refl
bytes_eq_sound [] (y ∷ ys) h = cc
bytes_eq_sound (x ∷ xs) [] h = cc
bytes_eq_sound (x ∷ xs) (y ∷ ys) h = ground (arith, bytes_eq_sound xs ys)

-- A wrapping with a nonce, with associated data, or of a buffer that is not a multiple of 8 bytes
-- long is refused as unsupported, and leaves the buffer as it was.
pub encrypt_in_place_refused :
    (c : BlockCipher) (buffer nonce aad : Bytes)
    → (nonce ≢ []) ⊎ ((aad ≢ []) ⊎ (length buffer % 8 ≢ 0))
    → encrypt_in_place c buffer nonce aad ≡ (buffer, err unsupported)
unfolding encrypt_in_place
encrypt_in_place_refused c buffer (_ ∷ _) aad h = ground arith
encrypt_in_place_refused c buffer [] (_ ∷ _) h = ground arith
encrypt_in_place_refused c buffer [] [] (inl h) = absurd (h refl)
encrypt_in_place_refused c buffer [] [] (inr (inl h)) = absurd (h refl)
encrypt_in_place_refused c buffer [] [] (inr (inr h)) = elim (Bool-cases (length buffer % 8 == 0)) [
  | inl e ↦ absurd (h ((==_iff _ 0).0 e))
  | inr e ↦ rw e
]

-- What an accepted unwrapping says of its input.
accepted_input :
    (c : BlockCipher) (buffer nonce aad m : Bytes)
    → decrypt_in_place c buffer nonce aad ≡ (m, ok tt)
    → (nonce ≡ []) × (aad ≡ []) × (length buffer % 8 ≡ 0) × (7 < length buffer)
unfolding decrypt_in_place
accepted_input c buffer (_ ∷ _) aad m h = absurd (ground arith)
accepted_input c buffer [] (_ ∷ _) m h = absurd (ground arith)
accepted_input c buffer [] [] m h = elim (Bool-cases (length buffer % 8 == 0)) [
  | inl e ↦ elim (Bool-cases (ltb (length buffer / 8) 1)) [
    | inl short ↦ cc (ap (λ r. r.1) (rw (e, short) at h))
    | inr long ↦ (refl, refl, (==_iff _ 0).0 e, ground arith)
  ]
  | inr e ↦ cc (ap (λ r. r.1) (rw e at h))
]

-- The outcome of the integrity check.
abbrev verdict : Bytes → Result (Unit {0}) ErrorKind
verdict iv = if bytes_eq iv default_iv then ok tt else err encryption

verdict-ok : (iv : Bytes) → verdict iv ≡ ok tt → iv ≡ default_iv
verdict-ok iv h = elim (Bool-cases (bytes_eq iv default_iv)) [
  | inl e ↦ bytes_eq_sound iv default_iv e
  | inr e ↦ cc (rw e at h)
]

module _ (c : BlockCipher) (p : IsPermutation c) where
  -- The wrapping of what the rounds unwrapped to the default integrity value.
  rewrapped :
      (iv chunks m : Bytes)
      → length iv ≡ 8
      → length chunks % 8 ≡ 0
      → (unwrap_rounds c (length chunks / 8) 6 0 iv chunks).1 ≡ m
      → verdict (unwrap_rounds c (length chunks / 8) 6 0 iv chunks).0 ≡ ok tt
      → encrypt_in_place c m [] [] ≡ (iv ++ chunks, ok (length chunks + 8))
  rewrapped iv chunks m h whole result accepted =
      let n = length chunks / 8 in
      let r = unwrap_rounds c n 6 0 iv chunks in
      let fits : Fits (length chunks) r =
        unwrap_rounds-Fits c p n (length chunks) (omega arith) 6 0 iv chunks (h, refl) in
      let same : r.0 ≡ default_iv = verdict-ok r.0 accepted in
      let len : length m ≡ length chunks = rw (← result) fits.1 in
      let back : wrap_rounds c n 6 0 default_iv m ≡ (iv, chunks) =
        rw (← same, ← result)
          (wrap_rounds-unwrap_rounds c p n (length chunks) (omega arith) 6 0 iv chunks (h, refl)) in
      encrypt_in_place-eq c m (omega arith) ∙ rw (len, back)

  unwrapped_is_wrapped :
      (buffer m : Bytes)
      → length buffer % 8 ≡ 0
      → 7 < length buffer
      → decrypt_in_place c buffer [] [] ≡ (m, ok tt)
      → encrypt_in_place c m [] [] ≡ (buffer, ok (length buffer))
  unwrapped_is_wrapped buffer m whole long h =
      let len_iv : length (take 8 buffer) ≡ 8 = omega (arith, length-take 8 buffer) in
      let len : length (drop 8 buffer) + 8 ≡ length buffer = omega (arith, length-drop 8 buffer) in
      let split = decrypt_in_place-eq c (take 8 buffer) (drop 8 buffer) len_iv (omega arith) in
      let run = sym (rw (take-append-drop 8 buffer) at split) ∙ h in
      rewrapped (take 8 buffer) (drop 8 buffer) m len_iv (omega arith) (ap (λ q. q.0) run)
        (ap (λ q. q.1) run)
      ∙ rw (take-append-drop 8 buffer, len)

-- For every block cipher that permutes the 16-byte blocks: if the unwrapping of a buffer succeeds and leaves
-- `m`, then the nonce and the associated data are empty and the buffer is exactly what the wrapping makes of
-- `m`. So nothing but wrapped data is accepted.
pub encrypt_in_place-decrypt_in_place :
    (c : BlockCipher)
    → IsPermutation c
    → (buffer nonce aad m : Bytes) → decrypt_in_place c buffer nonce aad ≡ (m, ok tt)
    → (nonce ≡ []) × (aad ≡ []) × (encrypt_in_place c m [] [] ≡ (buffer, ok (length buffer)))
encrypt_in_place-decrypt_in_place c p buffer (x ∷ nonce) aad m h =
    let e = (accepted_input c buffer (x ∷ nonce) aad m h).0 in absurd (ground arith)
encrypt_in_place-decrypt_in_place c p buffer [] (x ∷ aad) m h =
    let e = (accepted_input c buffer [] (x ∷ aad) m h).1 in absurd (ground arith)
encrypt_in_place-decrypt_in_place c p buffer [] [] m h =
    let (_, _, whole, long) = accepted_input c buffer [] [] m h in
    (refl, refl, unwrapped_is_wrapped c p buffer m whole long h)

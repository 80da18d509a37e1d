-- ===== src/Crypto/KeyWrap/Pass.antt =====
-- One pass of the encryption and one of the decryption of key_wrap.rs undo each other, in both directions.
use iviadc_aries_askar.Base.{
  ℕ, zero, suc, ◌*◌, ◌≤◌, ◌≡◌, refl, ◌∙◌, Bytes, length, take, drop, ◌++◌, arith, take-append-drop,
  take-append_of, drop-append_of, length-append, length-append_of, length-take, length-drop,
}
use iviadc_aries_askar.Crypto.Bits.{xor_into, xor_into_cancel, length-xor_into}
use iviadc_aries_askar.Crypto.KeyWrap.{BlockCipher, IsPermutation, counter, wrap_pass, unwrap_pass}

abbrev pub IsHalf : Bytes → Type 0
IsHalf iv = length iv ≡ 8

pub length-take_half : (xs : Bytes) → 8 ≤ length xs → length (take 8 xs) ≡ 8
length-take_half xs h = omega (arith, length-take 8 xs)

length-drop_half : (xs : Bytes) → length xs ≡ 16 → length (drop 8 xs) ≡ 8
length-drop_half xs h = omega (arith, length-drop 8 xs)

module _ (c : BlockCipher) (p : IsPermutation c) (blocks : ℕ) where
  length-block : (iv rest : Bytes) → IsHalf iv → 8 ≤ length rest → length (iv ++ take 8 rest) ≡ 16
  length-block iv rest h k = length-append_of iv (take 8 rest) 8 8 h (length-take_half rest k)

  next_iv-IsHalf : (b t : Bytes) → length b ≡ 16 → IsHalf (xor_into (take 8 b) t)
  next_iv-IsHalf b t h = length-xor_into (take 8 b) t ∙ length-take_half b (omega arith)

  pub wrap_pass-IsHalf :
      (j n i : ℕ) (iv rest : Bytes)
      → IsHalf iv
      → 8 * n ≤ length rest
      → IsHalf (wrap_pass c blocks j n i iv rest).0
  unfolding wrap_pass
  wrap_pass-IsHalf j zero i iv rest h k = h
  wrap_pass-IsHalf j (suc n) i iv rest h k =
      let b = c.encrypt_block (iv ++ take 8 rest) in
      let len : length b ≡ 16 = p.length_encrypt _ (length-block iv rest h (omega arith)) in
      wrap_pass-IsHalf j n (suc i) (xor_into (take 8 b) (counter c blocks j i)) (drop 8 rest)
        (next_iv-IsHalf b (counter c blocks j i) len) (omega (arith, length-drop 8 rest))

  pub length-wrap_pass :
      (j n i : ℕ) (iv rest : Bytes)
      → IsHalf iv
      → 8 * n ≤ length rest
      → length (wrap_pass c blocks j n i iv rest).1 ≡ length rest
  unfolding wrap_pass
  length-wrap_pass j zero i iv rest h k = refl
  length-wrap_pass j (suc n) i iv rest h k =
      let b = c.encrypt_block (iv ++ take 8 rest) in
      let len : length b ≡ 16 = p.length_encrypt _ (length-block iv rest h (omega arith)) in
      let iv' = xor_into (take 8 b) (counter c blocks j i) in
      omega (
        arith,
        length-append (drop 8 b) (wrap_pass c blocks j n (suc i) iv' (drop 8 rest)).1,
        length-drop_half b len,
        length-drop 8 rest,
        length-wrap_pass j n (suc i) iv' (drop 8 rest) (next_iv-IsHalf b (counter c blocks j i) len)
            (omega (arith, length-drop 8 rest)),
      )

  -- What a pass of the encryption did, a pass of the decryption undoes.
  pub unwrap_pass-wrap_pass :
      (j n i : ℕ) (iv rest : Bytes)
      → IsHalf iv
      → 8 * n ≤ length rest
      → unwrap_pass c blocks j n i
          (wrap_pass c blocks j n i iv rest).0
          (wrap_pass c blocks j n i iv rest).1
        ≡ (iv, rest)
  unfolding wrap_pass unwrap_pass
  unwrap_pass-wrap_pass j zero i iv rest h k = refl
  unwrap_pass-wrap_pass j (suc n) i iv rest h k =
      let b = c.encrypt_block (iv ++ take 8 rest) in
      let t = counter c blocks j i in
      let len : length b ≡ 16 = p.length_encrypt _ (length-block iv rest h (omega arith)) in
      let iv' = xor_into (take 8 b) t in
      let w = wrap_pass c blocks j n (suc i) iv' (drop 8 rest) in
      rw (
        drop-append_of 8 (drop 8 b) w.1 (length-drop_half b len),
        take-append_of 8 (drop 8 b) w.1 (length-drop_half b len),
        unwrap_pass-wrap_pass j n (suc i) iv' (drop 8 rest) (next_iv-IsHalf b t len)
            (omega (arith, length-drop 8 rest)),
        xor_into_cancel (take 8 b) t,
        take-append-drop 8 b,
        p.decrypt_encrypt (iv ++ take 8 rest) (length-block iv rest h (omega arith)),
        take-append_of 8 iv (take 8 rest) h,
        drop-append_of 8 iv (take 8 rest) h,
        take-append-drop 8 rest,
      )

  pub unwrap_pass-IsHalf :
      (j n i : ℕ) (iv rest : Bytes)
      → IsHalf iv
      → 8 * n ≤ length rest
      → IsHalf (unwrap_pass c blocks j n i iv rest).0
  unfolding unwrap_pass
  unwrap_pass-IsHalf j zero i iv rest h k = h
  unwrap_pass-IsHalf j (suc n) i iv rest h k =
      let after = unwrap_pass c blocks j n (suc i) iv (drop 8 rest) in
      let half : IsHalf after.0 =
        unwrap_pass-IsHalf j n (suc i) iv (drop 8 rest) h (omega (arith, length-drop 8 rest)) in
      let t = counter c blocks j i in
      length-take_half (c.decrypt_block (xor_into after.0 t ++ take 8 rest)) (
        omega (
          arith,
          p.length_decrypt (xor_into after.0 t ++ take 8 rest) (
              length-block (xor_into after.0 t) rest (length-xor_into after.0 t ∙ half)
                (omega arith)),
        ))

  pub length-unwrap_pass :
      (j n i : ℕ) (iv rest : Bytes)
      → IsHalf iv
      → 8 * n ≤ length rest
      → length (unwrap_pass c blocks j n i iv rest).1 ≡ length rest
  unfolding unwrap_pass
  length-unwrap_pass j zero i iv rest h k = refl
  length-unwrap_pass j (suc n) i iv rest h k =
      let after = unwrap_pass c blocks j n (suc i) iv (drop 8 rest) in
      let half : IsHalf after.0 =
        unwrap_pass-IsHalf j n (suc i) iv (drop 8 rest) h (omega (arith, length-drop 8 rest)) in
      let t = counter c blocks j i in
      let b = c.decrypt_block (xor_into after.0 t ++ take 8 rest) in
      let len : length b ≡ 16 =
        p.length_decrypt (xor_into after.0 t ++ take 8 rest) (
          length-block (xor_into after.0 t) rest (length-xor_into after.0 t ∙ half)
            (omega arith)) in
      omega (
        arith,
        length-append (drop 8 b) after.1,
        length-drop_half b len,
        length-drop 8 rest,
        length-unwrap_pass j n (suc i) iv (drop 8 rest) h (omega (arith, length-drop 8 rest)),
      )

  -- What a pass of the decryption did, a pass of the encryption undoes.
  pub wrap_pass-unwrap_pass :
      (j n i : ℕ) (iv rest : Bytes)
      → IsHalf iv
      → 8 * n ≤ length rest
      → wrap_pass c blocks j n i
          (unwrap_pass c blocks j n i iv rest).0
          (unwrap_pass c blocks j n i iv rest).1
        ≡ (iv, rest)
  unfolding wrap_pass unwrap_pass
  wrap_pass-unwrap_pass j zero i iv rest h k = refl
  wrap_pass-unwrap_pass j (suc n) i iv rest h k =
      let after = unwrap_pass c blocks j n (suc i) iv (drop 8 rest) in
      let half : IsHalf after.0 =
        unwrap_pass-IsHalf j n (suc i) iv (drop 8 rest) h (omega (arith, length-drop 8 rest)) in
      let t = counter c blocks j i in
      let half' : IsHalf (xor_into after.0 t) = length-xor_into after.0 t ∙ half in
      let b = c.decrypt_block (xor_into after.0 t ++ take 8 rest) in
      let len : length b ≡ 16 =
        p.length_decrypt (xor_into after.0 t ++ take 8 rest)
          (length-block (xor_into after.0 t) rest half' (omega arith)) in
      rw (
        take-append_of 8 (drop 8 b) after.1 (length-drop_half b len),
        drop-append_of 8 (drop 8 b) after.1 (length-drop_half b len),
        take-append-drop 8 b,
        p.encrypt_decrypt (xor_into after.0 t ++ take 8 rest)
            (length-block (xor_into after.0 t) rest half' (omega arith)),
        take-append_of 8 (xor_into after.0 t) (take 8 rest) half',
        drop-append_of 8 (xor_into after.0 t) (take 8 rest) half',
        xor_into_cancel after.0 t,
        wrap_pass-unwrap_pass j n (suc i) iv (drop 8 rest) h (omega (arith, length-drop 8 rest)),
        take-append-drop 8 rest,
      )

-- ===== src/Crypto/KeyWrap/Rounds.antt =====
-- The six rounds of key_wrap.rs keep the lengths and undo each other.
use iviadc_aries_askar.Base.{ℕ, zero, suc, ◌*◌, ◌≤◌, ◌≡◌, refl, Bytes, length, arith}
use iviadc_aries_askar.Crypto.KeyWrap.{
  BlockCipher, IsPermutation, wrap_pass, unwrap_pass, wrap_rounds, unwrap_rounds,
}
use iviadc_aries_askar.Crypto.KeyWrap.Pass.{
  IsHalf, wrap_pass-IsHalf, length-wrap_pass, unwrap_pass-wrap_pass, unwrap_pass-IsHalf,
  length-unwrap_pass, wrap_pass-unwrap_pass,
}

-- An integrity value of 8 bytes and a buffer of a given length.
abbrev pub Fits : ℕ → Bytes × Bytes → Type 0
Fits len (iv, buf) = IsHalf iv × (length buf ≡ len)

module _ (c : BlockCipher) (p : IsPermutation c) (blocks len : ℕ) (room : 8 * blocks ≤ len) where
  wrap_pass-Fits :
      (j : ℕ) (iv buf : Bytes)
      → Fits len (iv, buf)
      → Fits len (wrap_pass c blocks j blocks 0 iv buf)
  wrap_pass-Fits j iv buf (h, k) = (
    wrap_pass-IsHalf c p blocks j blocks 0 iv buf h (omega arith),
    omega (arith, length-wrap_pass c p blocks j blocks 0 iv buf h (omega arith)),
  )

  unwrap_pass-Fits :
      (j : ℕ) (iv buf : Bytes)
      → Fits len (iv, buf)
      → Fits len (unwrap_pass c blocks j blocks 0 iv buf)
  unwrap_pass-Fits j iv buf (h, k) = (
    unwrap_pass-IsHalf c p blocks j blocks 0 iv buf h (omega arith),
    omega (arith, length-unwrap_pass c p blocks j blocks 0 iv buf h (omega arith)),
  )

  pub wrap_rounds-Fits :
      (k j : ℕ) (iv buf : Bytes) → Fits len (iv, buf) → Fits len (wrap_rounds c blocks k j iv buf)
  unfolding wrap_rounds
  wrap_rounds-Fits zero j iv buf f = f
  wrap_rounds-Fits (suc k) j iv buf f =
      let r = wrap_pass c blocks j blocks 0 iv buf in
      wrap_rounds-Fits k (suc j) r.0 r.1 (wrap_pass-Fits j iv buf f)

  pub unwrap_rounds-Fits :
      (k j : ℕ) (iv buf : Bytes) → Fits len (iv, buf) → Fits len (unwrap_rounds c blocks k j iv buf)
  unfolding unwrap_rounds
  unwrap_rounds-Fits zero j iv buf f = f
  unwrap_rounds-Fits (suc k) j iv buf f =
      let r = unwrap_rounds c blocks k (suc j) iv buf in
      unwrap_pass-Fits j r.0 r.1 (unwrap_rounds-Fits k (suc j) iv buf f)

  pub unwrap_rounds-wrap_rounds :
      (k j : ℕ) (iv buf : Bytes)
      → Fits len (iv, buf)
      → unwrap_rounds c blocks k j
          (wrap_rounds c blocks k j iv buf).0
          (wrap_rounds c blocks k j iv buf).1
        ≡ (iv, buf)
  unfolding wrap_rounds unwrap_rounds
  unwrap_rounds-wrap_rounds zero j iv buf f = refl
  unwrap_rounds-wrap_rounds (suc k) j iv buf f =
      let r = wrap_pass c blocks j blocks 0 iv buf in
      rw (
        unwrap_rounds-wrap_rounds k (suc j) r.0 r.1 (wrap_pass-Fits j iv buf f),
        unwrap_pass-wrap_pass c p blocks j blocks 0 iv buf f.0 (omega arith),
      )

  pub wrap_rounds-unwrap_rounds :
      (k j : ℕ) (iv buf : Bytes)
      → Fits len (iv, buf)
      → wrap_rounds c blocks k j
          (unwrap_rounds c blocks k j iv buf).0
          (unwrap_rounds c blocks k j iv buf).1
        ≡ (iv, buf)
  unfolding wrap_rounds unwrap_rounds
  wrap_rounds-unwrap_rounds zero j iv buf f = refl
  wrap_rounds-unwrap_rounds (suc k) j iv buf f =
      let r = unwrap_rounds c blocks k (suc j) iv buf in
      let fits = unwrap_rounds-Fits k (suc j) iv buf f in
      rw (
        wrap_pass-unwrap_pass c p blocks j blocks 0 r.0 r.1 fits.0 (omega arith),
        wrap_rounds-unwrap_rounds k (suc j) iv buf f,
      )

-- ===== src/Crypto/Kdf/Agreement.antt =====
-- Both sides of an agreement derive the same key (askar-crypto/src/kdf/ecdh_es.rs, ecdh_1pu.rs).
use iviadc_aries_askar.Base.{
  ℕ, ◌*◌, ◌≤◌, ◌<◌, ◌≡◌, refl, Bool, true, false, [], ◌∷◌, ◌++◌, append-nil, append_assoc, arith,
  ltb, length, length-take, Bytes, length-append_of, ok, err,
}
use iviadc_aries_askar.Crypto.Bits.{to_be_bytes, length-to_be_bytes}
use iviadc_aries_askar.Crypto.Error.{exceeded_buffer, unsupported}
use iviadc_aries_askar.Crypto.Writer.{Writer, done, failed, as_ref, buffer_write}
use iviadc_aries_askar.Crypto.Writer.Laws.{Leaves, IsValid, buffer_write_lem, buffer_write-Leaves}
use iviadc_aries_askar.Crypto.Kdf.KeyPair.{
  Curve, IsCurve, from_secret_key, from_public_key, write_key_exchange, key_pairs,
}
use iviadc_aries_askar.Crypto.Kdf.{
  pub_info_buffer, write_tag, Hash, KeyExchange, derive_one_pass, ecdh_es, ecdh_1pu, write_pub_info,
  exchange_both,
}

-- The tag behind its length, and nothing for an empty tag.
unfoldable pub tag_info : Bytes → Bytes
tag_info [] = []
tag_info (t ∷ ts) = to_be_bytes 4 (length (t ∷ ts)) ++ (t ∷ ts)

first_write :
    (n : ℕ)
    → Leaves pub_info_buffer (to_be_bytes 4 n) (buffer_write pub_info_buffer (to_be_bytes 4 n))
unfolding as_ref
first_write n =
    buffer_write-Leaves pub_info_buffer (to_be_bytes 4 n) (omega arith)
      (omega (arith, length-to_be_bytes 4 n))

-- A write that fits, in terms of the content alone.
content_pos : (w : Writer) (n : ℕ) → IsValid w → length (as_ref w) ≡ n → w.pos ≡ n
unfolding as_ref
content_pos w n v e = omega (arith, length-take w.pos w.inner)

-- The content, place and room after the first write.
first_written :
    (n : ℕ)
    → (w : Writer) × (buffer_write pub_info_buffer (to_be_bytes 4 (n * 8)) ≡ done w)
      × (as_ref w ≡ to_be_bytes 4 (n * 8))
      × (w.pos ≡ 4)
      × (length w.inner ≡ 132)
first_written n =
    let (w, e, c, v, l) = first_write (n * 8) in
    (w, e, c, content_pos w 4 v (rw c (length-to_be_bytes 4 (n * 8))), l)

write_pub_info_fits :
    (n : ℕ) (cc_tag : Bytes)
    → length cc_tag ≤ 124
    → (w : Writer) × (write_pub_info n cc_tag ≡ done w)
      × (as_ref w ≡ to_be_bytes 4 (n * 8) ++ tag_info cc_tag)
unfolding write_pub_info tag_info write_tag
write_pub_info_fits n [] p =
    let (w, e, c, v, l) = first_write (n * 8) in (w, rw e refl, rw append-nil c)
write_pub_info_fits n (t ∷ ts) p =
    let (w₁, e₁, c₁, p₁, l₁) = first_written n in
    let b = to_be_bytes 4 (length (t ∷ ts)) in
    let lb : length b ≡ 4 = length-to_be_bytes 4 (length (t ∷ ts)) in
    let (w₂, e₂, c₂, v₂, l₂) = buffer_write-Leaves w₁ b (omega arith) (omega arith) in
    let p₂ : w₂.pos ≡ 8 = content_pos w₂ 8 v₂ (
      rw (c₂, c₁)
        (length-append_of (to_be_bytes 4 (n * 8)) b 4 4 (length-to_be_bytes 4 (n * 8)) lb)) in
    let (w₃, e₃, c₃, _, _) = buffer_write-Leaves w₂ (t ∷ ts) (omega arith) (omega arith) in
    (w₃, rw (e₁, e₂) e₃, rw (c₃, c₂, c₁) (append_assoc (to_be_bytes 4 (n * 8)) b (t ∷ ts)))

write_pub_info_full :
    (n : ℕ) (cc_tag : Bytes)
    → 124 < length cc_tag
    → write_pub_info n cc_tag ≡ failed exceeded_buffer
unfolding write_pub_info write_tag
write_pub_info_full n [] p = absurd (omega arith)
write_pub_info_full n (t ∷ ts) p =
    let (w₁, e₁, c₁, p₁, l₁) = first_written n in
    let b = to_be_bytes 4 (length (t ∷ ts)) in
    let lb : length b ≡ 4 = length-to_be_bytes 4 (length (t ∷ ts)) in
    let (w₂, e₂, c₂, v₂, l₂) = buffer_write-Leaves w₁ b (omega arith) (omega arith) in
    let p₂ : w₂.pos ≡ 8 = content_pos w₂ 8 v₂ (
      rw (c₂, c₁)
        (length-append_of (to_be_bytes 4 (n * 8)) b 4 4 (length-to_be_bytes 4 (n * 8)) lb)) in
    rw (e₁, e₂) ((buffer_write_lem w₂ (t ∷ ts) v₂).1 (omega arith))

module _ (h : Hash) (x : KeyExchange) where
  -- ECDH-1PU with an output of at most 32 bytes, once the two exchanges gave the secret `z`: a tag of at most 124
  -- bytes gives the key that hashes `z`, the parties and the tag's information; a tag of 125 to 128 bytes passes
  -- the guard, but fails with `ExceededBuffer`; a longer one is refused with `Unsupported`.
  pub ecdh_1pu_tag :
      (ephem send recip : x.Key) (alg apu apv cc_tag z : Bytes) (receive : Bool) (output_len : ℕ)
      → output_len ≤ 32
      → exchange_both h x ephem send recip receive ≡ ok z
      → (length cc_tag ≤ 124
          → ecdh_1pu h x ephem send recip alg apu apv cc_tag receive output_len
            ≡ ok (
                derive_one_pass h x z
                  (record {
                    alg = alg;
                    apu = apu;
                    apv = apv;
                    pub_info = to_be_bytes 4 (output_len * 8) ++ tag_info cc_tag;
                    prv_info = [];
                  })
                  output_len))
        × (124 < length cc_tag
            → length cc_tag ≤ 128
            → ecdh_1pu h x ephem send recip alg apu apv cc_tag receive output_len
              ≡ err exceeded_buffer)
        × (128 < length cc_tag
            → ecdh_1pu h x ephem send recip alg apu apv cc_tag receive output_len ≡ err unsupported)
  unfolding ecdh_1pu
  ecdh_1pu_tag ephem send recip alg apu apv cc_tag z receive output_len p e =
      let small : ltb 32 output_len ≡ false = ground arith in
      (
        λ q.
            let (w, e', c) = write_pub_info_fits output_len cc_tag q in
            let short : ltb 128 (length cc_tag) ≡ false = ground arith in
            rw (small, short, e, e', c) refl,
        λ q r.
            let short : ltb 128 (length cc_tag) ≡ false = ground arith in
            rw (small, short, e, write_pub_info_full output_len cc_tag q) refl,
        λ q. let long : ltb 128 (length cc_tag) ≡ true = ground arith in rw (small, long) refl,
      )

module _ (h : Hash) (c : Curve) (laws : IsCurve c) where
  -- Whoever has the secret key of the one pair and the public key of the other gets the same bytes.
  write_key_exchange-agrees :
      (a b : c.SecretKey)
      → write_key_exchange c (from_secret_key c a) (from_public_key c (c.public_of b))
        ≡ write_key_exchange c (from_secret_key c b) (from_public_key c (c.public_of a))
  unfolding write_key_exchange from_secret_key from_public_key
  write_key_exchange-agrees a b = rw (laws.agrees a b) refl

  -- On a curve whose secret keys agree (`IsCurve`): the sender, with its ephemeral key pair and the recipient's public
  -- key, derives the bytes that the recipient does with its own key pair and the ephemeral public key.
  pub ecdh_es_agrees :
      (ephem recip : c.SecretKey) (alg apu apv : Bytes) (output_len : ℕ)
      → ecdh_es h
          (key_pairs c)
          (from_secret_key c ephem)
          (from_public_key c (c.public_of recip))
          alg
          apu
          apv
          false
          output_len
        ≡ ecdh_es h
            (key_pairs c)
            (from_public_key c (c.public_of ephem))
            (from_secret_key c recip)
            alg
            apu
            apv
            true
            output_len
  unfolding ecdh_es
  ecdh_es_agrees ephem recip alg apu apv output_len =
      rw (write_key_exchange-agrees ephem recip) refl

  exchange_both-sender :
      (ephem send recip : c.SecretKey)
      → exchange_both h
          (key_pairs c)
          (from_secret_key c ephem)
          (from_secret_key c send)
          (from_public_key c (c.public_of recip))
          false
        ≡ ok (
            c.diffie_hellman ephem (c.public_of recip) ++ c.diffie_hellman send (c.public_of recip))
  unfolding exchange_both write_key_exchange from_secret_key from_public_key
  exchange_both-sender ephem send recip = refl

  -- On a curve whose secret keys agree (`IsCurve`): the sender, with its ephemeral and its static key pair and the
  -- recipient's public key, derives the bytes, or the error, that the recipient does with its own key pair and the
  -- sender's two public keys. With an output of at most 32 bytes and a tag of at most 124, both succeed.
  pub ecdh_1pu_agrees :
      (ephem send recip : c.SecretKey) (alg apu apv cc_tag : Bytes) (output_len : ℕ)
      → (ecdh_1pu h
            (key_pairs c)
            (from_secret_key c ephem)
            (from_secret_key c send)
            (from_public_key c (c.public_of recip))
            alg
            apu
            apv
            cc_tag
            false
            output_len
          ≡ ecdh_1pu h
              (key_pairs c)
              (from_public_key c (c.public_of ephem))
              (from_public_key c (c.public_of send))
              (from_secret_key c recip)
              alg
              apu
              apv
              cc_tag
              true
              output_len)
        × (output_len ≤ 32
            → length cc_tag ≤ 124
            → (key : Bytes) × (ecdh_1pu h
                  (key_pairs c)
                  (from_secret_key c ephem)
                  (from_secret_key c send)
                  (from_public_key c (c.public_of recip))
                  alg
                  apu
                  apv
                  cc_tag
                  false
                  output_len
                ≡ ok key))
  unfolding ecdh_1pu exchange_both
  ecdh_1pu_agrees ephem send recip alg apu apv cc_tag output_len = (
    rw (write_key_exchange-agrees ephem recip, write_key_exchange-agrees send recip) refl,
    λ p q. (
      _,
      (ecdh_1pu_tag h (key_pairs c) (from_secret_key c ephem) (from_secret_key c send)
            (from_public_key c (c.public_of recip)) alg apu apv cc_tag _ false output_len p
            (exchange_both-sender ephem send recip)).0
          q,
    ),
  )

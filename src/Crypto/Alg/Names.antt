-- ===== src/Crypto/Alg/Names.antt =====
-- The names of key algorithms are read back in any spelling (askar-crypto/src/alg/mod.rs).
use iviadc_aries_askar.Base.{
  ℕ, ◌+◌, ◌≤◌, ◌≡◌, refl, true, false, ◌&&◌, ◌||◌, [], ◌∷◌, arith, leb, ◌==◌, Bytes, ok,
}
use iviadc_aries_askar.Base.Decimal.{codes}
use iviadc_aries_askar.Crypto.Alg.{
  KeyAlg, aes, bls12_381, chacha20, ed25519, x25519, ec_curve, a128_gcm, a256_gcm, a128_cbc_hs256,
  a256_cbc_hs512, a128_kw, a256_kw, g1, g2, g1g2, c20p, xc20p, secp256r1, secp256k1, secp384r1,
  alg_str, len, normalized, to_ascii_lowercase, normalize_alg, match_alg, alg_from_str,
}

match_alg-alg_str : (a : KeyAlg) → match_alg (codes (alg_str a)) ≡ ok a
unfolding match_alg alg_str
match_alg-alg_str (aes a128_gcm) = refl
match_alg-alg_str (aes a256_gcm) = refl
match_alg-alg_str (aes a128_cbc_hs256) = refl
match_alg-alg_str (aes a256_cbc_hs512) = refl
match_alg-alg_str (aes a128_kw) = refl
match_alg-alg_str (aes a256_kw) = refl
match_alg-alg_str (bls12_381 g1) = refl
match_alg-alg_str (bls12_381 g2) = refl
match_alg-alg_str (bls12_381 g1g2) = refl
match_alg-alg_str (chacha20 c20p) = refl
match_alg-alg_str (chacha20 xc20p) = refl
match_alg-alg_str ed25519 = refl
match_alg-alg_str x25519 = refl
match_alg-alg_str (ec_curve secp256k1) = refl
match_alg-alg_str (ec_curve secp256r1) = refl
match_alg-alg_str (ec_curve secp384r1) = refl

short : (a : KeyAlg) → leb (len (codes (alg_str a))) 64 ≡ true
unfolding len alg_str
short (aes a128_gcm) = refl
short (aes a256_gcm) = refl
short (aes a128_cbc_hs256) = refl
short (aes a256_cbc_hs512) = refl
short (aes a128_kw) = refl
short (aes a256_kw) = refl
short (bls12_381 g1) = refl
short (bls12_381 g2) = refl
short (bls12_381 g1g2) = refl
short (chacha20 c20p) = refl
short (chacha20 xc20p) = refl
short ed25519 = refl
short x25519 = refl
short (ec_curve secp256k1) = refl
short (ec_curve secp256r1) = refl
short (ec_curve secp384r1) = refl

-- A text spells a name: a hyphen, an underscore or a space may stand anywhere, and a letter may be a capital.
pub data Spells : Bytes → Bytes → Type 0 where
  ends : Spells [] []
  hyphen : {n s : Bytes} → Spells n s → Spells n (b'-' ∷ s)
  underscore : {n s : Bytes} → Spells n s → Spells n (b'_' ∷ s)
  space : {n s : Bytes} → Spells n s → Spells n (b' ' ∷ s)
  digit : {n s : Bytes} (c : ℕ) → b'0' ≤ c → c ≤ b'9' → Spells n s → Spells (c ∷ n) (c ∷ s)
  small : {n s : Bytes} (c : ℕ) → b'a' ≤ c → c ≤ b'z' → Spells n s → Spells (c ∷ n) (c ∷ s)
  capital : {n s : Bytes} (c : ℕ) → b'A' ≤ c → c ≤ b'Z' → Spells n s → Spells ((c + 32) ∷ n) (c ∷ s)

-- A character that stays in the name.
normalized-cons :
    (c : ℕ) (s : Bytes)
    → (c == b'-' || (c == b'_' || c == b' ')) ≡ false
    → normalized (c ∷ s) ≡ to_ascii_lowercase c ∷ normalized s
unfolding normalized
normalized-cons c s h = rw h refl

kept_case : (c : ℕ) → (leb b'A' c && leb c b'Z') ≡ false → to_ascii_lowercase c ≡ c
unfolding to_ascii_lowercase
kept_case c h = rw h refl

lowered_case : (c : ℕ) → (leb b'A' c && leb c b'Z') ≡ true → to_ascii_lowercase c ≡ c + 32
unfolding to_ascii_lowercase
lowered_case c h = rw h refl

Spells-normalized : {n s : Bytes} → Spells n s → normalized s ≡ n
unfolding normalized
Spells-normalized ends = refl
Spells-normalized (hyphen h) = Spells-normalized h
Spells-normalized (underscore h) = Spells-normalized h
Spells-normalized (space h) = Spells-normalized h
Spells-normalized (digit {n} {s} c l u h) =
    rw (normalized-cons c s (ground arith), kept_case c (ground arith), Spells-normalized h) refl
Spells-normalized (small {n} {s} c l u h) =
    rw (normalized-cons c s (ground arith), kept_case c (ground arith), Spells-normalized h) refl
Spells-normalized (capital {n} {s} c l u h) =
    rw (normalized-cons c s (ground arith), lowered_case c (ground arith), Spells-normalized h) refl

-- The name of an algorithm that `as_str` gives is read as that algorithm in every spelling: with hyphens,
-- underscores and spaces anywhere in it, and any of its letters as capitals.
pub alg_from_str-alg_str :
    (a : KeyAlg) (s : Bytes) → Spells (codes (alg_str a)) s → alg_from_str s ≡ ok a
unfolding alg_from_str normalize_alg
alg_from_str-alg_str a s h = rw (Spells-normalized h, short a, match_alg-alg_str a) refl

-- ===== src/Crypto/Alg.antt =====
-- Key algorithms and their names: `KeyAlg` of askar-crypto/src/alg/mod.rs, with its `as_str`, `from_str` and `normalize_alg`. A name is
-- the list of its code points.
mod Names
mod Tests
use iviadc_aries_askar.Base.{
  ℕ, zero, suc, ◌+◌, ◌-◌, ◌*◌, ◌/◌, ◌%◌, ◌^◌, ◌≤◌, ◌<◌, bit_xor, bit_or, bit_and, String, ◌≡◌, refl,
  sym, ap, ap₂, ◌∙◌, subst, ◌≢◌, ◌↔◌, ◌⊎◌, inl, inr, Bool, true, false, not, ◌&&◌, ◌||◌, xor,
  Option, none, some, List, [], ◌∷◌, ◌++◌, map, reverse, append-nil, append_assoc, arith, eq_iff,
  ltb, leb, ◌==◌, if◌then◌else◌, ltb→lt, lt→ltb, leb→le, ==_iff, Bool-cases, Option-cases, length,
  get_elem?, take, drop, replicate, length-append, take-append-drop, take-append, drop-append,
  length-take, length-drop, length-replicate, length-map, Bytes, take-append_of, drop-append_of,
  length-append_of, drop-drop, drop-take, take-take, drop-append_le, take-append_le,
  take-append_split, take_all, Result, ok, err, ◌>>=◌, collect, >>=-eq-ok,
}
use iviadc_aries_askar.Base.Decimal.{codes}
use iviadc_aries_askar.Crypto.Error.{ErrorKind, exceeded_buffer, unsupported}

pub data AesTypes : Type 0 where
  a128_gcm a256_gcm a128_cbc_hs256 a256_cbc_hs512 a128_kw a256_kw : AesTypes

pub data BlsCurves : Type 0 where
  g1 g2 g1g2 : BlsCurves

pub data Chacha20Types : Type 0 where
  c20p xc20p : Chacha20Types

pub data EcCurves : Type 0 where
  secp256r1 secp256k1 secp384r1 : EcCurves

pub data KeyAlg : Type 0 where
  aes : AesTypes → KeyAlg
  bls12_381 : BlsCurves → KeyAlg
  chacha20 : Chacha20Types → KeyAlg
  ed25519 x25519 : KeyAlg
  ec_curve : EcCurves → KeyAlg

-- `KeyAlg::as_str`
unfoldable pub alg_str : KeyAlg → String
alg_str (aes a128_gcm) = "a128gcm"
alg_str (aes a256_gcm) = "a256gcm"
alg_str (aes a128_cbc_hs256) = "a128cbchs256"
alg_str (aes a256_cbc_hs512) = "a256cbchs512"
alg_str (aes a128_kw) = "a128kw"
alg_str (aes a256_kw) = "a256kw"
alg_str (bls12_381 g1) = "bls12381g1"
alg_str (bls12_381 g2) = "bls12381g2"
alg_str (bls12_381 g1g2) = "bls12381g1g2"
alg_str (chacha20 c20p) = "c20p"
alg_str (chacha20 xc20p) = "xc20p"
alg_str ed25519 = "ed25519"
alg_str x25519 = "x25519"
alg_str (ec_curve secp256k1) = "k256"
alg_str (ec_curve secp256r1) = "p256"
alg_str (ec_curve secp384r1) = "p384"

-- How many bytes `encode_utf8` makes of a character.
unfoldable pub len_utf8 : ℕ → ℕ
len_utf8 c = if ltb c 128 then 1 else if ltb c 2048 then 2 else if ltb c 65536 then 3 else 4

unfoldable pub to_ascii_lowercase : ℕ → ℕ
to_ascii_lowercase c = if leb b'A' c && leb c b'Z' then c + 32 else c

-- `NormalizedIter`: the characters without the separators, in lower case.
unfoldable pub normalized : Bytes → Bytes
unfolding to_ascii_lowercase
normalized [] = []
normalized (c ∷ s) =
    let rest = normalized s in
    if c == b'-' || (c == b'_' || c == b' ') then rest else to_ascii_lowercase c ∷ rest

unfoldable pub len : Bytes → ℕ
unfolding len_utf8
len [] = 0
len (c ∷ s) = len_utf8 c + len s

-- `NormalizedAlg::new`: the buffer takes 64 bytes.
unfoldable pub normalize_alg : Bytes → Result Bytes ErrorKind
unfolding normalized len
normalize_alg val =
    if leb (len (normalized val)) 64 then ok (normalized val) else err exceeded_buffer

unfoldable pub same_text : Bytes → Bytes → Bool
same_text [] [] = true
same_text (c ∷ s) (d ∷ t) = let rest = same_text s t in c == d && rest
same_text _ _ = false

-- A comparison with a name.
abbrev pub is_name : Bytes → String → Bool
is_name a name = same_text a (codes name)

-- The arms of `from_str`.
unfoldable pub match_alg : Bytes → Result KeyAlg ErrorKind
unfolding same_text
match_alg a =
    if is_name a "a128gcm" || is_name a "aes128gcm"
    then ok (aes a128_gcm)
    else if is_name a "a256gcm" || is_name a "aes256gcm"
    then ok (aes a256_gcm)
    else if is_name a "a128cbchs256" || is_name a "aes128cbchs256"
    then ok (aes a128_cbc_hs256)
    else if is_name a "a256cbchs512" || is_name a "aes256cbchs512"
    then ok (aes a256_cbc_hs512)
    else if is_name a "a128kw" || is_name a "aes128kw"
    then ok (aes a128_kw)
    else if is_name a "a256kw" || is_name a "aes256kw"
    then ok (aes a256_kw)
    else if is_name a "bls12381g1"
    then ok (bls12_381 g1)
    else if is_name a "bls12381g2"
    then ok (bls12_381 g2)
    else if is_name a "bls12381g1g2"
    then ok (bls12_381 g1g2)
    else if is_name a "c20p" || is_name a "chacha20poly1305"
    then ok (chacha20 c20p)
    else if is_name a "xc20p" || is_name a "xchacha20poly1305"
    then ok (chacha20 xc20p)
    else if is_name a "ed25519"
    then ok ed25519
    else if is_name a "x25519"
    then ok x25519
    else if is_name a "k256" || is_name a "secp256k1"
    then ok (ec_curve secp256k1)
    else if is_name a "p256" || is_name a "secp256r1"
    then ok (ec_curve secp256r1)
    else if is_name a "p384" || is_name a "secp384r1"
    then ok (ec_curve secp384r1)
    else err unsupported

-- `KeyAlg::from_str`
unfoldable pub alg_from_str : Bytes → Result KeyAlg ErrorKind
unfolding normalize_alg match_alg
alg_from_str s = do a ← normalize_alg s; match_alg a

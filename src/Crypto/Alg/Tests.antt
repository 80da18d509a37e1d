-- ===== src/Crypto/Alg/Tests.antt =====
-- Instances of the theorem on names of key algorithms.
use iviadc_aries_askar.Base.{◌≡◌, Bytes, ok, arith}
use iviadc_aries_askar.Base.Decimal.{codes}
use iviadc_aries_askar.Crypto.Alg.{aes, a256_gcm, alg_str, alg_from_str}
use iviadc_aries_askar.Crypto.Alg.Names.{
  Spells, ends, hyphen, underscore, space, digit, small, capital, alg_from_str-alg_str,
}

abbrev spelling : Bytes
spelling = codes "A-256_GcM "

spells : Spells (codes (alg_str (aes a256_gcm))) spelling
unfolding alg_str
spells = capital b'A' (omega arith) (omega arith) (
    hyphen (
      digit b'2' (omega arith) (omega arith) (
        digit b'5' (omega arith) (omega arith) (
          digit b'6' (omega arith) (omega arith) (
            underscore (
              capital b'G' (omega arith) (omega arith) (
                small b'c' (omega arith) (omega arith)
                  (capital b'M' (omega arith) (omega arith) (space ends)))))))))

alg_from_str-alg_str_example : alg_from_str spelling ≡ ok (aes a256_gcm)
alg_from_str-alg_str_example = alg_from_str-alg_str (aes a256_gcm) spelling spells

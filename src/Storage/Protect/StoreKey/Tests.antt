-- ===== src/Storage/Protect/StoreKey/Tests.antt =====
-- Instances of the theorems on store keys, with a small key derivation and a decoder of hexadecimal text.
use iviadc_aries_askar.Base.{
  ℕ, zero, suc, ◌+◌, ◌-◌, ◌*◌, ◌/◌, ◌%◌, ◌<◌, String, ◌≡◌, refl, true, Option, none, some, [], ◌∷◌,
  arith, ltb, if◌then◌else◌, Bytes, ok,
}
use Prim.Native.Char.{Char, code}
use iviadc_aries_askar.Base.Text.{or_default, split_once}
use iviadc_aries_askar.Storage.Options.{UrlText}
use iviadc_aries_askar.Storage.Protect.Kdf.{
  Argon2, argon2i, moderate, hex_digit, as_hex, derive_new_key,
}
use iviadc_aries_askar.Storage.Protect.ProfileKey.{lift}
use iviadc_aries_askar.Storage.Protect.StoreKey.{
  derive_key_method, StoreKeyReference, derive_key_reference, parse_method, method_of,
  parse_reference, compare_method, into_uri, Base58, resolve_method, resolve_reference,
}
use iviadc_aries_askar.Storage.Protect.StoreKey.Uri.{parse_reference-into_uri}
use iviadc_aries_askar.Storage.Protect.StoreKey.RoundTrip.{
  AreBytes, IsArgon2, resolve_reference-resolve_method,
}

value_of : Char → ℕ
value_of c = if ltb (code c) 58 then code c - 48 else code c - 87

digit_value : (n : ℕ) → n < 16 → value_of (hex_digit n) ≡ n
unfolding value_of hex_digit
digit_value zero h = refl
digit_value (suc zero) h = refl
digit_value (suc (suc zero)) h = refl
digit_value (suc (suc (suc zero))) h = refl
digit_value (suc (suc (suc (suc zero)))) h = refl
digit_value (suc (suc (suc (suc (suc zero))))) h = refl
digit_value (suc (suc (suc (suc (suc (suc zero)))))) h = refl
digit_value (suc (suc (suc (suc (suc (suc (suc zero))))))) h = refl
digit_value (suc (suc (suc (suc (suc (suc (suc (suc zero)))))))) h = refl
digit_value (suc (suc (suc (suc (suc (suc (suc (suc (suc zero))))))))) h = refl
digit_value (suc (suc (suc (suc (suc (suc (suc (suc (suc (suc zero)))))))))) h = refl
digit_value (suc (suc (suc (suc (suc (suc (suc (suc (suc (suc (suc zero))))))))))) h = refl
digit_value (suc (suc (suc (suc (suc (suc (suc (suc (suc (suc (suc (suc zero)))))))))))) h = refl
digit_value (suc (suc (suc (suc (suc (suc (suc (suc (suc (suc (suc (suc (suc zero))))))))))))) h =
    refl
digit_value (suc (suc (suc (suc (suc (suc (suc (suc (suc (suc (suc (suc (suc (suc zero))))))))))))))
      h =
    refl
digit_value
      (suc (suc (suc (suc (suc (suc (suc (suc (suc (suc (suc (suc (suc (suc (suc zero)))))))))))))))
      h =
    refl
digit_value
      (suc
        (suc (suc (suc (suc (suc (suc (suc (suc (suc (suc (suc (suc (suc (suc (suc n))))))))))))))))
      h =
    absurd (omega arith)

cons_byte : ℕ → Option Bytes → Option Bytes
cons_byte b none = none
cons_byte b (some bs) = some (b ∷ bs)

decode_hex : String → Option Bytes
decode_hex String.[] = some []
decode_hex (String.◌∷◌ c String.[]) = none
decode_hex (String.◌∷◌ c (String.◌∷◌ d s)) = cons_byte (value_of c * 16 + value_of d) (decode_hex s)

decode_hex-as_hex : (bs : Bytes) → AreBytes bs → decode_hex (as_hex bs) ≡ some bs
unfolding decode_hex as_hex cons_byte
decode_hex-as_hex [] h = refl
decode_hex-as_hex (b ∷ bs) (h, hs) =
    let high : value_of (hex_digit (b / 16)) ≡ b / 16 = digit_value (b / 16) (omega arith) in
    let low : value_of (hex_digit (b % 16)) ≡ b % 16 = digit_value (b % 16) (omega arith) in
    let whole : b / 16 * 16 + b % 16 ≡ b = omega arith in
    rw (high, low, whole, decode_hex-as_hex bs hs) refl

abbrev url : UrlText
url = record {
  percent_decode = λ s. s;
  percent_encode = λ s. s;
  form_parse = λ s. ((split_once b'=' s).0, or_default (split_once b'=' s).1) ∷ [];
  byte_serialize = λ s. s;
}

abbrev argon : Argon2
unfolding decode_hex
argon = record { Key = Bytes; derive = λ l p s. ok (1 ∷ s); decode_salt = decode_hex }

argon-IsArgon2 : IsArgon2 url argon 2
unfolding argon
argon-IsArgon2 = record { parses_salt = λ s. refl; decodes_salt = λ s q p. decode_hex-as_hex s q }

abbrev base58 : Base58 argon.Key
unfolding argon decode_hex
base58 = record { decode_onto = decode_hex; key_size = 1; from_secret_bytes = λ b. b }

abbrev spare_key : argon.Key
unfolding argon
spare_key = []

abbrev derived_key : argon.Key
unfolding argon
derived_key = 1 ∷ 165 ∷ 83 ∷ []

abbrev reference : StoreKeyReference
reference = derive_key_reference (argon2i moderate) "?salt=a553"

parse_reference-into_uri_example :
    (parse_reference (into_uri reference) ≡ ok reference)
    × (parse_method (into_uri reference) ≡ ok (derive_key_method (argon2i moderate)))
unfolding method_of
parse_reference-into_uri_example = parse_reference-into_uri reference ("salt=a553", refl)

resolved :
    resolve_method url argon base58
      (165 ∷ 83 ∷ [])
      spare_key
      (derive_key_method (argon2i moderate))
      (some "pass")
    ≡ ok (some derived_key, reference)
unfolding resolve_method derived_key argon derive_new_key lift as_hex hex_digit
resolved = refl

resolve_reference-resolve_method_example :
    (parse_reference (into_uri reference) ≡ ok reference)
    × (compare_method reference (derive_key_method (argon2i moderate)) ≡ true)
    × (resolve_reference url argon base58 reference (some "pass") ≡ ok (some derived_key))
resolve_reference-resolve_method_example =
    resolve_reference-resolve_method url argon 2 argon-IsArgon2 base58 (165 ∷ 83 ∷ []) spare_key
      (derive_key_method (argon2i moderate)) (some "pass") (some derived_key) reference
      (omega arith, (omega arith, tt)) refl refl resolved

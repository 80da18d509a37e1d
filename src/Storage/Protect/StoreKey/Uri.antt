-- ===== src/Storage/Protect/StoreKey/Uri.antt =====
-- The URIs of key references (askar-storage/src/protect/store_key.rs, kdf/mod.rs).
use iviadc_aries_askar.Base.{String, ◌≡◌, refl, Option, some, ok}
use iviadc_aries_askar.Base.Text.{split_once}
use iviadc_aries_askar.Storage.Protect.Kdf.{
  KdfMethod, argon2i, Level, interactive, moderate, decode, encode, with_mark, as_str, from_str,
}
use iviadc_aries_askar.Storage.Protect.StoreKey.{
  StoreKeyReference, derive_key_reference, raw_key_reference, unprotected_reference, parse_method,
  method_of, parse_reference, into_uri,
}

decode-encode :
    (l : Level) (d : String)
    → decode (encode (argon2i l) (some (with_mark d))) ≡ ok (argon2i l, with_mark d)
unfolding decode encode as_str from_str
decode-encode interactive String.[] = refl
decode-encode interactive (String.◌∷◌ c s) = refl
decode-encode moderate String.[] = refl
decode-encode moderate (String.◌∷◌ c s) = refl

prefix-encode : (m : KdfMethod) (d : Option String) → (split_once b':' (encode m d)).0 ≡ "kdf"
unfolding encode
prefix-encode (argon2i l) d = refl

-- The detail of a derived key is empty, or stands behind a question mark and is not empty then.
abbrev pub IsReference : StoreKeyReference → Type 0
IsReference (derive_key_reference m detail) = (d : String) × (detail ≡ with_mark d)
IsReference raw_key_reference = Unit
IsReference unprotected_reference = Unit

-- A reference to a key, whose detail is empty or not empty behind a question mark, written as a URI, parses as itself, and as the method that it came from.
pub parse_reference-into_uri :
    (r : StoreKeyReference)
    → IsReference r
    → (parse_reference (into_uri r) ≡ ok r) × (parse_method (into_uri r) ≡ ok (method_of r))
unfolding parse_reference parse_method into_uri method_of
parse_reference-into_uri (derive_key_reference (argon2i l) detail) (d, e) =
    rw (e, decode-encode l d, prefix-encode (argon2i l) (some (with_mark d))) (refl, refl)
parse_reference-into_uri raw_key_reference _ = (refl, refl)
parse_reference-into_uri unprotected_reference _ = (refl, refl)

-- ===== src/Storage/Protect/ProfileKey/Tests.antt =====
-- Instances of the theorems on profile keys and on the wrapping of data, with a small cipher.
use iviadc_aries_askar.Storage.Protect.StoreKey.{wrap_data, unwrap_data}
use iviadc_aries_askar.Storage.Protect.StoreKey.Wrap.{unwrap_data-wrap_data}
use iviadc_aries_askar.Base.{
  ℕ, ◌%◌, String, ◌≡◌, refl, ap, Option, none, some, List, [], ◌∷◌, arith, length, Bytes, ok,
}
use iviadc_aries_askar.Crypto.Bits.{xor_into, xor_into_cancel}
use iviadc_aries_askar.Storage.Protect.ProfileKey.{
  Primitives, IsPrimitives, ProfileKeyImpl, EntryTag, encrypted, plaintext, EncEntryTag,
  encrypt_entry_value, decrypt_entry_value, encrypt_entry_tags, decrypt_entry_tags,
}
use iviadc_aries_askar.Storage.Protect.ProfileKey.RoundTrip.{
  decrypt_entry_value-encrypt_entry_value, decrypt_entry_tags-encrypt_entry_tags,
}
use iviadc_aries_askar.Storage.Protect.ProfileKey.ValueKey.{value_key_input_injective}
use Prim.Native.Nat.{Ordering, compare}
use Prim.Native.Char.{char, IsScalar, IsLt}

-- A small encoding of strings: each character is one number, its code.
abbrev Both : Ordering → Ordering → Type 0
Both Ordering.lt o = IsLt o
Both Ordering.eq o = ⊥
Both Ordering.gt o = ⊥

abbrev InRange : Ordering → Ordering → Ordering → Type 0
InRange Ordering.lt o p = Unit
InRange Ordering.eq o p = Both o p
InRange Ordering.gt o p = Both o p

unfoldable pub find_in_range : (o p q : Ordering) → Option (InRange o p q)
find_in_range Ordering.lt p q = some tt
find_in_range Ordering.eq Ordering.lt Ordering.lt = some tt
find_in_range Ordering.eq Ordering.lt Ordering.eq = none
find_in_range Ordering.eq Ordering.lt Ordering.gt = none
find_in_range Ordering.eq Ordering.eq q = none
find_in_range Ordering.eq Ordering.gt q = none
find_in_range Ordering.gt Ordering.lt Ordering.lt = some tt
find_in_range Ordering.gt Ordering.lt Ordering.eq = none
find_in_range Ordering.gt Ordering.lt Ordering.gt = none
find_in_range Ordering.gt Ordering.eq q = none
find_in_range Ordering.gt Ordering.gt q = none

find_in_range_lem : (o p q : Ordering) (r : InRange o p q) → find_in_range o p q ≡ some r
unfolding find_in_range
find_in_range_lem Ordering.lt p q r = refl
find_in_range_lem Ordering.eq Ordering.lt Ordering.lt r = refl
find_in_range_lem Ordering.gt Ordering.lt Ordering.lt r = refl
find_in_range_lem Ordering.eq Ordering.lt Ordering.eq r = absurd r
find_in_range_lem Ordering.eq Ordering.lt Ordering.gt r = absurd r
find_in_range_lem Ordering.eq Ordering.eq q r = absurd r
find_in_range_lem Ordering.eq Ordering.gt q r = absurd r
find_in_range_lem Ordering.gt Ordering.lt Ordering.eq r = absurd r
find_in_range_lem Ordering.gt Ordering.lt Ordering.gt r = absurd r
find_in_range_lem Ordering.gt Ordering.eq q r = absurd r
find_in_range_lem Ordering.gt Ordering.gt q r = absurd r

unfoldable pub scalar : (n : ℕ) → Option (IsScalar n)
scalar n = find_in_range (compare n 55296) (compare 57343 n) (compare n 1114112)

scalar_lem : (n : ℕ) (r : IsScalar n) → scalar n ≡ some r
unfolding scalar
scalar_lem n r = find_in_range_lem (compare n 55296) (compare 57343 n) (compare n 1114112) r

unfoldable pub encode : String → Bytes
encode String.[] = []
encode (String.◌∷◌ (char n r) s) = n ∷ encode s

unfoldable pub push_char : (n : ℕ) → Option (IsScalar n) → Option String → Option String
push_char n (some r) (some s) = some (String.◌∷◌ (char n r) s)
push_char n none s = none
push_char n (some r) none = none

unfoldable pub decode : Bytes → Option String
decode [] = some String.[]
decode (n ∷ ns) = push_char n (scalar n) (decode ns)

decode-encode : (s : String) → decode (encode s) ≡ some s
unfolding encode decode push_char
decode-encode String.[] = refl
decode-encode (String.◌∷◌ (char n r) s) = rw (scalar_lem n r, decode-encode s) refl

-- A small cipher: the message is combined with the key, behind the nonce as its tag.
unfoldable pub small : Primitives
unfolding encode decode xor_into
small = record {
  Key = Bytes;
  key_size = 2;
  nonce_size = 2;
  from_secret_bytes = λ b. b;
  encrypt_in_place = λ k m nonce. ok (xor_into m k);
  decrypt_in_place = λ k c nonce. ok (xor_into c k);
  HmacKey = Bytes;
  hmac_size = 3;
  hmac = λ k m. length m % 256 ∷ length k % 256 ∷ 5 ∷ [];
  from_utf8 = decode;
  into_bytes = encode;
}

pub small-IsPrimitives : IsPrimitives small
unfolding small
small-IsPrimitives = record {
  seals = λ k m nonce p. (xor_into m k, refl, ap ok (xor_into_cancel m k));
  length_hmac = λ k m. refl;
  nonce_fits = omega arith;
  key_fits = omega arith;
  decodes = decode-encode;
}

unfoldable pub profile_key : ProfileKeyImpl small
unfolding small
profile_key = record {
  category_key = 1 ∷ 2 ∷ [];
  name_key = 3 ∷ 4 ∷ [];
  item_hmac_key = 5 ∷ 6 ∷ [];
  tag_name_key = 7 ∷ 8 ∷ [];
  tag_value_key = 9 ∷ [];
  tags_hmac_key = 10 ∷ [];
}

decrypt_entry_value-encrypt_entry_value_example :
    (c : Bytes) × (encrypt_entry_value small profile_key (1 ∷ 2 ∷ []) (3 ∷ []) (4 ∷ []) (5 ∷ 6 ∷ [])
      ≡ ok c)
    × (decrypt_entry_value small profile_key (3 ∷ []) (4 ∷ []) c ≡ ok (5 ∷ 6 ∷ []))
unfolding small
decrypt_entry_value-encrypt_entry_value_example =
    decrypt_entry_value-encrypt_entry_value small small-IsPrimitives profile_key (1 ∷ 2 ∷ [])
      (3 ∷ []) (4 ∷ []) (5 ∷ 6 ∷ []) refl

abbrev tags : List EntryTag
tags = plaintext "plain" "tag" ∷ encrypted "enctag" "enctagval" ∷ []

decrypt_entry_tags-encrypt_entry_tags_example :
    (cs : List EncEntryTag) × (encrypt_entry_tags small profile_key tags ≡ ok cs)
    × (decrypt_entry_tags small profile_key cs ≡ ok tags)
decrypt_entry_tags-encrypt_entry_tags_example =
    decrypt_entry_tags-encrypt_entry_tags small small-IsPrimitives profile_key tags

value_key_input_injective_example :
    (◌≡◌ {A = Bytes} (1 ∷ []) (1 ∷ [])) × (◌≡◌ {A = Bytes} (2 ∷ []) (2 ∷ []))
value_key_input_injective_example =
    value_key_input_injective small (1 ∷ []) (2 ∷ []) (1 ∷ []) (2 ∷ []) (omega arith) (omega arith)
      (omega arith) (omega arith) refl

abbrev small_key : small.Key
unfolding small
small_key = 1 ∷ 2 ∷ []

unwrap_data-wrap_data_example :
    (c : Bytes) × (wrap_data small (8 ∷ 9 ∷ []) (some small_key) (1 ∷ 2 ∷ 3 ∷ []) ≡ ok c)
    × (unwrap_data small (some small_key) c ≡ some (ok (1 ∷ 2 ∷ 3 ∷ [])))
unfolding small
unwrap_data-wrap_data_example =
    unwrap_data-wrap_data small small-IsPrimitives (some small_key) (8 ∷ 9 ∷ []) (1 ∷ 2 ∷ 3 ∷ [])
      refl

-- ===== src/Storage/Sqlite/Profiles/Tests.antt =====
-- Instances of the theorem on changing a store's key: two profiles.
use iviadc_aries_askar.Base.{ℕ, ◌≡◌, refl, Option, some, List, [], ◌∷◌, length, Bytes, ok}
use iviadc_aries_askar.Storage.Protect.ProfileKey.{lift}
use iviadc_aries_askar.Storage.Protect.ProfileKey.Tests.{small, small-IsPrimitives}
use iviadc_aries_askar.Crypto.Bits.{xor_into}
use iviadc_aries_askar.Storage.Protect.StoreKey.{unwrap_data}
use iviadc_aries_askar.Storage.Sqlite.Profiles.{
  Codec, Profile, SqliteBackend, load_key, new_cache, rekey,
}
use iviadc_aries_askar.Storage.Sqlite.Profiles.Rekey.{
  IsCodec, AllLoad, HaveSameKeys, rekey-HaveSameKeys,
}

abbrev plain : Codec Bytes
plain = record { to_bytes = λ k. ok k; from_slice = λ b. ok b }

plain-IsCodec : IsCodec plain
plain-IsCodec = record { reads = λ k. (k, refl, refl) }

unfoldable key : ℕ → Option small.Key
unfolding small
key n = some (n ∷ n ∷ [])

abbrev two : List Profile
two =
    record { pid = 1; profile_name = "a"; enc_key = 1 ∷ 2 ∷ 3 ∷ 4 ∷ [] }
    ∷ record { pid = 2; profile_name = "b"; enc_key = 5 ∷ 6 ∷ 7 ∷ [] }
    ∷ []

abbrev store : SqliteBackend small plain
store = record {
  profiles = two;
  config_key = some "raw";
  key_cache = record { profile_info = []; store_key = key 3 };
}

loads : AllLoad small plain (key 3) two
unfolding key load_key unwrap_data small lift xor_into
loads = ((_, refl), ((_, refl), tt))

fits : (n : ℕ) → length {A = ℕ} (n ∷ n ∷ []) ≡ small.nonce_size
unfolding small
fits n = refl

rekey-HaveSameKeys_example :
    (s' : SqliteBackend small plain) × (rekey small plain (λ n. n ∷ n ∷ []) (key 9) "none" store
      ≡ some (ok tt, s'))
    × HaveSameKeys small plain (key 3) (key 9) two s'.profiles
    × (s'.config_key ≡ some "none")
    × (s'.key_cache ≡ new_cache small plain (key 9))
rekey-HaveSameKeys_example =
    rekey-HaveSameKeys small plain small-IsPrimitives plain-IsCodec (λ n. n ∷ n ∷ []) fits (key 9)
      "none" "raw" store ((refl, tt), (tt, tt)) loads refl

-- ===== src/Storage/Sqlite/Profiles.antt =====
-- The profiles of a SQLite store and their keys: `create_profile`, `remove_profile`, `rekey`, `resolve_profile_key` and the default
-- profile of askar-storage/src/backend/sqlite/mod.rs, and `KeyCache` of protect/mod.rs. serde's form of a profile key is a parameter.
mod Rekey
mod Tests
use iviadc_aries_askar.Base.{
  ℕ, zero, suc, ◌+◌, ◌-◌, ◌*◌, ◌/◌, ◌%◌, ◌^◌, ◌≤◌, ◌<◌, bit_xor, bit_or, bit_and, String, ◌≡◌, refl,
  sym, ap, ap₂, ◌∙◌, subst, ◌≢◌, ◌↔◌, ◌⊎◌, inl, inr, Bool, true, false, not, ◌&&◌, ◌||◌, xor,
  Option, none, some, List, [], ◌∷◌, ◌++◌, map, reverse, append-nil, append_assoc, arith, eq_iff,
  ltb, leb, ◌==◌, if◌then◌else◌, ltb→lt, lt→ltb, leb→le, ==_iff, Bool-cases, Option-cases, length,
  get_elem?, take, drop, replicate, length-append, take-append-drop, take-append, drop-append,
  length-take, length-drop, length-replicate, length-map, Bytes, take-append_of, drop-append_of,
  length-append_of, drop-drop, drop-take, take-take, drop-append_le, take-append_le,
  take-append_split, take_all, Result, ok, err, ◌>>=◌, collect, >>=-eq-ok,
}
use text.Mathlib.Text.{◌==◌ as str_eq}
use iviadc_aries_askar.Storage.Error.{ErrorKind, backend, duplicate, encryption, not_found}
use iviadc_aries_askar.Storage.Protect.ProfileKey.{Primitives}
use iviadc_aries_askar.Storage.Protect.StoreKey.{wrap_data, unwrap_data}

-- `ProfileKey::to_bytes` and `from_slice`
pub record Codec (K : Type 0) : Type 0 where
  pub to_bytes : K → Result Bytes ErrorKind
  pub from_slice : Bytes → Result K ErrorKind

-- A row of `profiles`
pub record Profile : Type 0 where
  pub pid : ℕ
  pub profile_name : String
  pub enc_key : Bytes

unfoldable pub find_profile : String → List Profile → Option Profile
find_profile name [] = none
find_profile name (p ∷ ps) =
    let rest = find_profile name ps in if str_eq p.profile_name name then some p else rest

unfoldable pub next_pid : List Profile → ℕ
next_pid [] = 1
next_pid (p ∷ ps) = let rest = next_pid ps in if ltb p.pid rest then rest else p.pid + 1

-- `DELETE FROM profiles WHERE name=?`
unfoldable pub delete_profile : String → List Profile → List Profile
delete_profile name [] = []
delete_profile name (p ∷ ps) =
    let rest = delete_profile name ps in if str_eq p.profile_name name then rest else p ∷ rest

-- `UPDATE profiles SET profile_key=?1 WHERE id=?2`: how many rows it changed.
unfoldable pub set_key : ℕ → Bytes → List Profile → ℕ × List Profile
set_key n c [] = (0, [])
set_key n c (p ∷ ps) =
    let rest = set_key n c ps in
    if p.pid == n then (rest.0 + 1, record p { enc_key = c } ∷ rest.1) else (rest.0, p ∷ rest.1)

module _ (x : Primitives) {K : Type 0} (codec : Codec K) where
  open x use {Key}

  pub record KeyCache : Type 0 where
    pub profile_info : List (String × ℕ × K)
    pub store_key : Option Key

  -- What the database holds of the profiles, and the cache.
  pub record SqliteBackend : Type 0 where
    pub profiles : List Profile
    pub config_key : Option String
    pub key_cache : KeyCache

  -- `KeyCache::new`
  unfoldable pub new_cache : Option Key → KeyCache
  new_cache key = record { profile_info = []; store_key = key }

  unfoldable pub cached : String → List (String × ℕ × K) → Option (ℕ × K)
  cached name [] = none
  cached name ((n, pid, k) ∷ rest) =
      let found = cached name rest in if str_eq n name then some (pid, k) else found

  -- `HashMap::get` and `insert`: the newest entry of a name counts.
  unfoldable pub get_profile : KeyCache → String → Option (ℕ × K)
  unfolding cached
  get_profile cache name = cached name cache.profile_info

  unfoldable pub add_profile : KeyCache → String → ℕ → K → KeyCache
  add_profile cache name pid k = record cache { profile_info = (name, pid, k) ∷ cache.profile_info }

  -- `load_key`; `none` is a panic of `unwrap_data`.
  unfoldable pub load_key : Option Key → Bytes → Option (Result K ErrorKind)
  unfolding unwrap_data
  load_key key ciphertext = elim (unwrap_data x key ciphertext) [
    | none ↦ none
    | some (err e) ↦ some (err encryption)
    | some (ok data') ↦ some (codec.from_slice data')
  ]

  -- With the random nonce of `wrap_data`.
  unfoldable pub encode_profile_key : Bytes → Option Key → K → Result Bytes ErrorKind
  unfolding wrap_data
  encode_profile_key nonce key k = do b ← codec.to_bytes k; wrap_data x nonce key b

  -- `create_profile`, with the new key and the random nonce.
  unfoldable pub create_profile :
      K → Bytes → String → SqliteBackend → Result String ErrorKind × SqliteBackend
  unfolding encode_profile_key find_profile next_pid add_profile
  create_profile k nonce name s = elim (encode_profile_key nonce s.key_cache.store_key k) [
    | err e ↦ (err e, s)
    | ok c ↦ elim (find_profile name s.profiles) [
      | some p ↦ (err duplicate, s)
      | none ↦
          let n = next_pid s.profiles in
          (
            ok name,
            record s {
              profiles = s.profiles ++ (record { pid = n; profile_name = name; enc_key = c } ∷ []);
              key_cache = add_profile s.key_cache name n k;
            },
          )
    ]
  ]

  -- `remove_profile`: whether there was one. The cache stays. The entries of the profile, which go with its row, are not part of this state.
  unfoldable pub remove_profile : String → SqliteBackend → Bool × SqliteBackend
  unfolding find_profile delete_profile
  remove_profile name s = elim (find_profile name s.profiles) [
    | none ↦ (false, s)
    | some p ↦ (true, record s { profiles = delete_profile name s.profiles })
  ]

  -- The row of a profile that the cache does not have.
  unfoldable pub resolve_row :
      String → Option Profile → SqliteBackend → Option (Result (ℕ × K) ErrorKind × SqliteBackend)
  unfolding load_key add_profile
  resolve_row name none s = some (err not_found, s)
  resolve_row name (some p) s = elim (load_key s.key_cache.store_key p.enc_key) [
    | none ↦ none
    | some (err e) ↦ some (err e, s)
    | some (ok k) ↦
        some (ok (p.pid, k), record s { key_cache = add_profile s.key_cache name p.pid k })
  ]

  unfoldable pub resolve_profile_key :
      String → SqliteBackend → Option (Result (ℕ × K) ErrorKind × SqliteBackend)
  unfolding get_profile find_profile resolve_row
  resolve_profile_key name s = elim (get_profile s.key_cache name) [
    | some found ↦ some (ok found, s)
    | none ↦ resolve_row name (find_profile name s.profiles) s
  ]

  -- The first loop of `rekey`: the keys under the new store key, by the ids, with a random nonce for each. The ids are a primary key, so
  -- that the map keeps them all.
  unfoldable pub rekey_rows :
      (ℕ → Bytes)
      → Option Key
      → Option Key
      → List Profile
      → Option (Result (List (ℕ × Bytes)) ErrorKind)
  unfolding load_key encode_profile_key
  rekey_rows nonces old new [] = some (ok [])
  rekey_rows nonces old new (p ∷ ps) = elim (load_key old p.enc_key) [
    | none ↦ none
    | some (err e) ↦ some (err e)
    | some (ok k) ↦ elim (encode_profile_key (nonces p.pid) new k) [
      | err e ↦ some (err e)
      | ok c ↦ elim (rekey_rows nonces old new ps) [
        | none ↦ none
        | some (err e) ↦ some (err e)
        | some (ok us) ↦ some (ok ((p.pid, c) ∷ us))
      ]
    ]
  ]

  -- The second loop.
  unfoldable pub update_keys : List (ℕ × Bytes) → List Profile → Result (List Profile) ErrorKind
  unfolding set_key
  update_keys [] ps = ok ps
  update_keys ((n, c) ∷ us) ps =
      let updated = set_key n c ps in
      if updated.0 == 1 then update_keys us updated.1 else err backend

  -- The rest of the transaction.
  unfoldable pub finish_rekey :
      Option Key
      → String
      → List (ℕ × Bytes)
      → SqliteBackend
      → Result (Unit {0}) ErrorKind × SqliteBackend
  unfolding update_keys new_cache
  finish_rekey new uri us s = elim (update_keys us s.profiles) [
    | err e ↦ (err e, s)
    | ok ps ↦ elim s.config_key [
      | none ↦ (err backend, s)
      | some old_uri ↦
          (ok tt, record { profiles = ps; config_key = some uri; key_cache = new_cache new })
    ]
  ]

  -- `rekey`, with what the method resolved to. An error rolls the transaction back.
  unfoldable pub rekey :
      (ℕ → Bytes)
      → Option Key
      → String
      → SqliteBackend
      → Option (Result (Unit {0}) ErrorKind × SqliteBackend)
  unfolding rekey_rows finish_rekey
  rekey nonces new uri s = elim (rekey_rows nonces s.key_cache.store_key new s.profiles) [
    | none ↦ none
    | some (err e) ↦ some (err e, s)
    | some (ok us) ↦ some (finish_rekey new uri us s)
  ]

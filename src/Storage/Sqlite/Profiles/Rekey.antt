-- ===== src/Storage/Sqlite/Profiles/Rekey.antt =====
-- `rekey` of askar-storage/src/backend/sqlite/mod.rs keeps every profile and its key.
use iviadc_aries_askar.Base.{
  ℕ, String, ◌≡◌, refl, sym, ap, ◌∙◌, inl, inr, true, false, Option, some, List, [], ◌∷◌, arith,
  ◌==◌, ==_iff, Bool-cases, length, Bytes, Result, ok, err,
}
use iviadc_aries_askar.Storage.Error.{ErrorKind}
use iviadc_aries_askar.Storage.Protect.ProfileKey.{Primitives, IsPrimitives}
use iviadc_aries_askar.Storage.Protect.StoreKey.Wrap.{unwrap_data-wrap_data}
use iviadc_aries_askar.Storage.Sqlite.Profiles.{
  Codec, Profile, set_key, SqliteBackend, new_cache, load_key, encode_profile_key, rekey_rows,
  update_keys, finish_rekey, rekey,
}

-- A key is written, and read back.
pub record IsCodec {K : Type 0} (codec : Codec K) : Type 0 where
  pub reads : (k : K) → (b : Bytes) × (codec.to_bytes k ≡ ok b) × (codec.from_slice b ≡ ok k)

abbrev pub LacksId : ℕ → List Profile → Type 0
LacksId n [] = Unit
LacksId n (p ∷ ps) = ((p.pid == n) ≡ false) × LacksId n ps

-- The ids are a primary key.
abbrev pub HaveUniqueIds : List Profile → Type 0
HaveUniqueIds [] = Unit
HaveUniqueIds (p ∷ ps) = LacksId p.pid ps × HaveUniqueIds ps

module _ (x : Primitives) {K : Type 0} (codec : Codec K) where
  -- Every profile's key can be loaded.
  abbrev pub AllLoad : Option x.Key → List Profile → Type 0
  AllLoad old [] = Unit
  AllLoad old (p ∷ ps) = ((k : K) × (load_key x codec old p.enc_key ≡ some (ok k))) × AllLoad old ps

  -- The same profiles in the same order, whose keys under the new store key are those under the old one.
  abbrev pub HaveSameKeys : Option x.Key → Option x.Key → List Profile → List Profile → Type 0
  HaveSameKeys old new [] [] = Unit
  HaveSameKeys old new (p ∷ ps) (q ∷ qs) =
      (q.pid ≡ p.pid)
      × (q.profile_name ≡ p.profile_name)
      × (load_key x codec new q.enc_key ≡ load_key x codec old p.enc_key)
      × HaveSameKeys old new ps qs
  HaveSameKeys old new _ _ = ⊥

  abbrev AreRekeyed : Option x.Key → Option x.Key → List Profile → List (ℕ × Bytes) → Type 0
  AreRekeyed old new [] [] = Unit
  AreRekeyed old new (p ∷ ps) ((n, c) ∷ us) =
      (n ≡ p.pid)
      × (load_key x codec new c ≡ load_key x codec old p.enc_key)
      × AreRekeyed old new ps us
  AreRekeyed old new _ _ = ⊥

  set_key-LacksId :
      (n : ℕ) (c : Bytes) (ps : List Profile) → LacksId n ps → set_key n c ps ≡ (0, ps)
  unfolding set_key
  set_key-LacksId n c [] h = refl
  set_key-LacksId n c (p ∷ ps) (h, hs) = rw (set_key, h, set_key-LacksId n c ps hs) refl

  set_key_head :
      (n : ℕ) (c : Bytes) (p : Profile) (ps : List Profile)
      → n ≡ p.pid
      → LacksId p.pid ps
      → set_key n c (p ∷ ps) ≡ (1, record p { enc_key = c } ∷ ps)
  unfolding set_key
  set_key_head n c p ps e h =
      let same : (p.pid == n) ≡ true = (==_iff p.pid n).1 (sym e) in
      rw (set_key, same, set_key-LacksId n c ps (rw (← e) at h)) refl

  set_key_other :
      (n : ℕ) (c : Bytes) (p : Profile) (ps : List Profile)
      → (p.pid == n) ≡ false
      → set_key n c (p ∷ ps) ≡ ((set_key n c ps).0, p ∷ (set_key n c ps).1)
  unfolding set_key
  set_key_other n c p ps h = rw (set_key, h) refl

  abbrev consed : Profile → Result (List Profile) ErrorKind → Result (List Profile) ErrorKind
  consed q (ok qs) = ok (q ∷ qs)
  consed q (err e) = err e

  -- Updates of other ids pass a row by.
  update_keys_skip :
      (old new : Option x.Key) (q : Profile) (rs : List Profile) (us : List (ℕ × Bytes))
      (ps : List Profile)
      → AreRekeyed old new rs us
      → LacksId q.pid rs
      → update_keys x codec us (q ∷ ps) ≡ consed q (update_keys x codec us ps)
  unfolding update_keys
  update_keys_skip old new q [] [] ps h l = refl
  update_keys_skip old new q (r ∷ rs) ((n, c) ∷ us) ps (e, d, h) (l, ls) =
      let other : (q.pid == n) ≡ false = ground arith in
      elim (Bool-cases ((set_key n c ps).0 == 1)) [
        | inl b ↦
            rw (update_keys, set_key_other n c q ps other, b)
              (update_keys_skip old new q rs us (set_key n c ps).1 h ls)
        | inr b ↦ rw (update_keys, set_key_other n c q ps other, b) refl
      ]
  update_keys_skip old new q [] (u ∷ us) ps h l = absurd h
  update_keys_skip old new q (r ∷ rs) [] ps h l = absurd h

  -- The second loop changes each row once.
  updates-HaveSameKeys :
      (old new : Option x.Key) (ps : List Profile) (us : List (ℕ × Bytes))
      → HaveUniqueIds ps
      → AreRekeyed old new ps us
      → (qs : List Profile) × (update_keys x codec us ps ≡ ok qs) × HaveSameKeys old new ps qs
  unfolding update_keys
  updates-HaveSameKeys old new [] [] u h = ([], refl, tt)
  updates-HaveSameKeys old new (p ∷ ps) ((n, c) ∷ us) (l, u) (e, d, h) =
      let (qs, eq, same) = updates-HaveSameKeys old new ps us u h in
      let q : Profile = record p { enc_key = c } in
      (
        q ∷ qs,
        rw (update_keys, set_key_head n c p ps e l)
            (update_keys_skip old new q ps us ps h l ∙ ap (consed q) eq),
        (refl, refl, d, same),
      )
  updates-HaveSameKeys old new [] (v ∷ us) u h = absurd h
  updates-HaveSameKeys old new (p ∷ ps) [] u h = absurd h

  -- A key that is written under a store key is loaded under it.
  load_key-encode_profile_key :
      (laws : IsPrimitives x) (codes : IsCodec codec) (nonce : Bytes) (key : Option x.Key) (k : K)
      → length nonce ≡ x.nonce_size
      → (c : Bytes) × (encode_profile_key x codec nonce key k ≡ ok c)
        × (load_key x codec key c ≡ some (ok k))
  unfolding load_key encode_profile_key
  load_key-encode_profile_key laws codes nonce key k fits =
      let (b, eb, db) = codes.reads k in
      let (c, ec, dc) = unwrap_data-wrap_data x laws key nonce b fits in
      (c, rw (eb, ec) refl, rw (load_key, dc, db) refl)

  rows-AreRekeyed :
      (laws : IsPrimitives x) (codes : IsCodec codec) (nonces : ℕ → Bytes)
      → ((n : ℕ) → length (nonces n) ≡ x.nonce_size)
      → (old new : Option x.Key) (ps : List Profile) → AllLoad old ps
      → (us : List (ℕ × Bytes)) × (rekey_rows x codec nonces old new ps ≡ some (ok us))
        × AreRekeyed old new ps us
  unfolding rekey_rows
  rows-AreRekeyed laws codes nonces fits old new [] h = ([], refl, tt)
  rows-AreRekeyed laws codes nonces fits old new (p ∷ ps) ((k, ek), h) =
      let (c, ec, dc) = load_key-encode_profile_key laws codes (nonces p.pid) new k (fits p.pid) in
      let (us, eu, rekeyed) = rows-AreRekeyed laws codes nonces fits old new ps h in
      ((p.pid, c) ∷ us, rw (rekey_rows, ek, ec, eu) refl, (refl, dc ∙ sym ek, rekeyed))

-- `rekey` succeeds if every profile's key can be loaded, and then the store has the same profiles, each of which loads under the new
-- store key what it loaded under the old one; the cache holds the new store key and no profile. The cipher and the form of
-- a profile key keep their laws, each nonce has its length, the ids are different and the store has a key in its configuration.
pub rekey-HaveSameKeys :
    (x : Primitives) {K : Type 0} (codec : Codec K)
    → IsPrimitives x
    → IsCodec codec
    → (nonces : ℕ → Bytes) → ((n : ℕ) → length (nonces n) ≡ x.nonce_size)
    → (new : Option x.Key) (uri old_uri : String) (s : SqliteBackend x codec)
    → HaveUniqueIds s.profiles
    → AllLoad x codec s.key_cache.store_key s.profiles
    → s.config_key ≡ some old_uri
    → (s' : SqliteBackend x codec) × (rekey x codec nonces new uri s ≡ some (ok tt, s'))
      × HaveSameKeys x codec s.key_cache.store_key new s.profiles s'.profiles
      × (s'.config_key ≡ some uri)
      × (s'.key_cache ≡ new_cache x codec new)
unfolding rekey finish_rekey
rekey-HaveSameKeys x codec laws codes nonces fits new uri old_uri s unique loads key =
    let (us, eu, rekeyed) =
      rows-AreRekeyed x codec laws codes nonces fits s.key_cache.store_key new s.profiles loads in
    let (qs, eq, same) =
      updates-HaveSameKeys x codec s.key_cache.store_key new s.profiles us unique rekeyed in
    (
      record { profiles = qs; config_key = some uri; key_cache = new_cache x codec new },
      rw (rekey, eu, finish_rekey, eq, key) refl,
      same,
      refl,
      refl,
    )

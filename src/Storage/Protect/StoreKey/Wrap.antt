-- ===== src/Storage/Protect/StoreKey/Wrap.antt =====
-- The wrapping of data with a store key (askar-storage/src/protect/store_key.rs).
use iviadc_aries_askar.Base.{
  ◌+◌, ◌≡◌, refl, false, Option, none, some, ◌++◌, arith, ltb, length, length-append, Bytes,
  take-append_of, drop-append_of, ok,
}
use iviadc_aries_askar.Storage.Protect.ProfileKey.{Primitives, IsPrimitives, lift}
use iviadc_aries_askar.Storage.Protect.StoreKey.{wrap_data, unwrap_data}

module _ (x : Primitives) (laws : IsPrimitives x) where
  -- Under the laws of the primitives, data that a store key wraps, with any nonce of the cipher's size, it unwraps to the same; so does the empty key.
  pub unwrap_data-wrap_data :
      (key : Option x.Key) (nonce m : Bytes)
      → length nonce ≡ x.nonce_size
      → (c : Bytes) × (wrap_data x nonce key m ≡ ok c) × (unwrap_data x key c ≡ some (ok m))
  unfolding wrap_data unwrap_data lift
  unwrap_data-wrap_data none nonce m p = (m, refl, refl)
  unwrap_data-wrap_data (some key) nonce m p =
      let (c, e, d) = laws.seals key m nonce p in
      let long : ltb (length (nonce ++ c)) x.nonce_size ≡ false =
        let l : length (nonce ++ c) ≡ length nonce + length c = length-append nonce c in
        ground arith in
      (
        nonce ++ c,
        rw e refl,
        rw (long, drop-append_of x.nonce_size nonce c p, take-append_of x.nonce_size nonce c p, d)
            refl,
      )

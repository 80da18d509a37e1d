-- ===== src/Storage/Protect/ProfileKey/RoundTrip.antt =====
-- What a profile key encrypts, it decrypts (askar-storage/src/protect/profile_key.rs).
use iviadc_aries_askar.Base.{
  ℕ, ◌+◌, ◌≤◌, String, ◌≡◌, refl, true, false, List, [], ◌∷◌, ◌++◌, arith, ltb, length, take,
  length-append, length-take, Bytes, take-append_of, drop-append_of, ok, collect,
}
use iviadc_aries_askar.Storage.Protect.ProfileKey.{
  Primitives, IsPrimitives, ProfileKeyImpl, EntryTag, encrypted, plaintext, EncEntryTag, lift,
  derive_key_bytes, encrypt_searchable, encrypt, decrypt, derive_value_key, value_key_input,
  encrypt_tag_name, encrypt_tag_value, decrypt_tag_name, decrypt_tag_value, encrypt_entry_category,
  encrypt_entry_name, encrypt_entry_value, decode_utf8, decrypt_entry_category, decrypt_entry_name,
  decrypt_entry_value, encrypt_tag, decrypt_tag, decrypt_value, encrypt_entry_tags,
  decrypt_entry_tags, null_encrypt_tag, null_decrypt_tag,
}

module _ (x : Primitives) (laws : IsPrimitives x) where
  open x use {
    Key, HmacKey, key_size, nonce_size, from_secret_bytes, encrypt_in_place, decrypt_in_place,
    hmac_size, hmac, from_utf8, into_bytes,
  }

  -- A derivation of no more bytes than the hash has gives that many.
  derives :
      (k : HmacKey) (m : Bytes) (n : ℕ)
      → n ≤ hmac_size
      → (b : Bytes) × (derive_key_bytes x k m n ≡ ok b) × (length b ≡ n)
  unfolding derive_key_bytes
  derives k m n p =
      let fits : ltb hmac_size n ≡ false = ground arith in
      (
        take n (hmac k m),
        rw fits refl,
        omega (arith, length-take n (hmac k m), laws.length_hmac k m),
      )

  -- A message behind its nonce opens again.
  encrypt-decrypt :
      (nonce m : Bytes) (k : Key)
      → length nonce ≡ nonce_size
      → (c : Bytes) × (encrypt x nonce m k ≡ ok c) × (decrypt x c k ≡ ok m)
  unfolding encrypt decrypt lift
  encrypt-decrypt nonce m k p =
      let (c, e, d) = laws.seals k m nonce p in
      let long : ltb (length (nonce ++ c)) nonce_size ≡ false =
        let l : length (nonce ++ c) ≡ length nonce + length c = length-append nonce c in
        ground arith in
      (
        nonce ++ c,
        rw e refl,
        rw (long, drop-append_of nonce_size nonce c p, take-append_of nonce_size nonce c p, d) refl,
      )

  encrypt_searchable-decrypt :
      (m : Bytes) (k : Key) (hk : HmacKey)
      → (c : Bytes) × (encrypt_searchable x m k hk ≡ ok c) × (decrypt x c k ≡ ok m)
  unfolding encrypt_searchable encrypt lift
  encrypt_searchable-decrypt m k hk =
      let (nonce, e, p) = derives hk m nonce_size laws.nonce_fits in
      let (c, e', d) = encrypt-decrypt nonce m k p in (c, rw e e', d)

  decode_utf8-into_bytes : (s : String) → decode_utf8 x (into_bytes s) ≡ ok s
  unfolding decode_utf8
  decode_utf8-into_bytes s = rw (laws.decodes s, decode_utf8) refl

  -- Under the laws of the primitives, a category that a profile key encrypts, it decrypts to the same.
  pub decrypt_entry_category-encrypt_entry_category :
      (pk : ProfileKeyImpl x) (category : String)
      → (c : Bytes) × (encrypt_entry_category x pk (into_bytes category) ≡ ok c)
        × (decrypt_entry_category x pk c ≡ ok category)
  unfolding encrypt_entry_category decrypt_entry_category
  decrypt_entry_category-encrypt_entry_category pk category =
      let (c, e, d) =
        encrypt_searchable-decrypt (into_bytes category) pk.category_key pk.item_hmac_key in
      (c, e, rw d (decode_utf8-into_bytes category))

  -- Under the laws of the primitives, a name that a profile key encrypts, it decrypts to the same.
  pub decrypt_entry_name-encrypt_entry_name :
      (pk : ProfileKeyImpl x) (name : String)
      → (c : Bytes) × (encrypt_entry_name x pk (into_bytes name) ≡ ok c)
        × (decrypt_entry_name x pk c ≡ ok name)
  unfolding encrypt_entry_name decrypt_entry_name
  decrypt_entry_name-encrypt_entry_name pk name =
      let (c, e, d) = encrypt_searchable-decrypt (into_bytes name) pk.name_key pk.item_hmac_key in
      (c, e, rw d (decode_utf8-into_bytes name))

  -- Under the laws of the primitives, a value that a profile key encrypts for a category and a name, with whatever nonce of the
  -- cipher's size, it decrypts for these to the
  -- same.
  pub decrypt_entry_value-encrypt_entry_value :
      (pk : ProfileKeyImpl x) (nonce category name value : Bytes)
      → length nonce ≡ nonce_size
      → (c : Bytes) × (encrypt_entry_value x pk nonce category name value ≡ ok c)
        × (decrypt_entry_value x pk category name c ≡ ok value)
  unfolding encrypt_entry_value decrypt_entry_value derive_value_key lift
  decrypt_entry_value-encrypt_entry_value pk nonce category name value p =
      let (secret, e, _) =
        derives pk.item_hmac_key (value_key_input x category name) key_size laws.key_fits in
      let (c, e', d) = encrypt-decrypt nonce value (from_secret_bytes secret) p in
      (c, rw e e', rw e d)

  decrypt_tag-encrypt_tag :
      (pk : ProfileKeyImpl x) (tag : EntryTag)
      → (c : EncEntryTag) × (encrypt_tag x pk tag ≡ ok c) × (decrypt_tag x pk c ≡ ok tag)
  unfolding encrypt_tag decrypt_tag encrypt_tag_name encrypt_tag_value decrypt_tag_name
      decrypt_tag_value decrypt_value
  decrypt_tag-encrypt_tag pk (plaintext name value) =
      let (n, e, d) =
        encrypt_searchable-decrypt (into_bytes name) pk.tag_name_key pk.tags_hmac_key in
      (
        record { name = n; value = into_bytes value; is_plaintext = true },
        rw e refl,
        rw (d, decode_utf8-into_bytes name, decode_utf8-into_bytes value) refl,
      )
  decrypt_tag-encrypt_tag pk (encrypted name value) =
      let (n, e, d) =
        encrypt_searchable-decrypt (into_bytes name) pk.tag_name_key pk.tags_hmac_key in
      let (v, e', d') =
        encrypt_searchable-decrypt (into_bytes value) pk.tag_value_key pk.tags_hmac_key in
      (
        record { name = n; value = v; is_plaintext = false },
        rw (e, e') refl,
        rw (d, decode_utf8-into_bytes name, d', decode_utf8-into_bytes value) refl,
      )

  -- Under the laws of the primitives, the tags that a profile key encrypts, plain ones and encrypted ones, it decrypts to the same, in their order.
  pub decrypt_entry_tags-encrypt_entry_tags :
      (pk : ProfileKeyImpl x) (tags : List EntryTag)
      → (cs : List EncEntryTag) × (encrypt_entry_tags x pk tags ≡ ok cs)
        × (decrypt_entry_tags x pk cs ≡ ok tags)
  unfolding encrypt_entry_tags decrypt_entry_tags collect
  decrypt_entry_tags-encrypt_entry_tags pk [] = ([], refl, refl)
  decrypt_entry_tags-encrypt_entry_tags pk (tag ∷ tags) =
      let (c, e, d) = decrypt_tag-encrypt_tag pk tag in
      let (cs, es, ds) = decrypt_entry_tags-encrypt_entry_tags pk tags in
      (c ∷ cs, rw (e, es) refl, rw (d, ds) refl)

  -- Under the laws of the primitives, two tag names that a profile key encrypts to the same bytes are the same: a search by the encrypted name finds
  -- no other.
  pub encrypt_tag_name_injective :
      (pk : ProfileKeyImpl x) (a b : Bytes)
      → encrypt_tag_name x pk a ≡ encrypt_tag_name x pk b
      → a ≡ b
  unfolding encrypt_tag_name
  encrypt_tag_name_injective pk a b h =
      let (c, e, d) = encrypt_searchable-decrypt a pk.tag_name_key pk.tags_hmac_key in
      let (c', e', d') = encrypt_searchable-decrypt b pk.tag_name_key pk.tags_hmac_key in cc

  -- If the bytes of a string decode to it, the encryptor that encrypts nothing gives a tag back.
  pub null_decrypt_tag-null_encrypt_tag :
      (tag : EntryTag) → null_decrypt_tag x (null_encrypt_tag x tag) ≡ ok tag
  unfolding null_decrypt_tag null_encrypt_tag
  null_decrypt_tag-null_encrypt_tag (encrypted name value) =
      rw (decode_utf8-into_bytes name, decode_utf8-into_bytes value) refl
  null_decrypt_tag-null_encrypt_tag (plaintext name value) =
      rw (decode_utf8-into_bytes name, decode_utf8-into_bytes value) refl

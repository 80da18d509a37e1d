-- ===== src/Storage/Protect/StoreKey/RoundTrip.antt =====
-- A store that was set up with a method and a password opens again with the same password
-- (askar-storage/src/protect/store_key.rs, kdf/mod.rs).
use iviadc_aries_askar.Base.{
  ℕ, zero, suc, ◌/◌, ◌%◌, ◌<◌, String, ◌≡◌, refl, sym, ap, ◌∙◌, subst, true, false, Option, none,
  some, List, [], ◌∷◌, ◌==◌, if◌then◌else◌, length, Bytes, ok, err, >>=-eq-ok,
}
use iviadc_aries_askar.Storage.Protect.StoreKey.Uri.{parse_reference-into_uri}
use iviadc_aries_askar.Base.Text.{
  push_str, is_empty, or_default, split_once, Lacks, split_once-Lacks, lacks→Lacks,
}
use Prim.Native.Char.{code}
use iviadc_aries_askar.Storage.Error.{input}
use iviadc_aries_askar.Storage.Options.{
  UrlText, Options, parse_uri, insert_all, split_scheme, trim_slashes,
}
use iviadc_aries_askar.Storage.Protect.Kdf.{
  Argon2, KdfMethod, argon2i, Level, interactive, moderate, as_hex, hex_digit, nth, parse_salt,
  derive_key, derive_new_key,
}
use iviadc_aries_askar.Storage.Protect.ProfileKey.{lift}
use iviadc_aries_askar.Storage.Protect.StoreKey.{
  PassKey, StoreKeyMethod, derive_key_method, raw_key, unprotected, StoreKeyReference,
  derive_key_reference, raw_key_reference, unprotected_reference, parse_reference, level_eq,
  compare_method, into_uri, Base58, parse_raw_store_key, resolve_method, resolve_reference,
}

nth-Lacks :
    (c : ℕ) (s : String) (n : ℕ)
    → (code "0" == c) ≡ false
    → Lacks c s
    → (code (nth s n) == c) ≡ false
nth-Lacks c String.[] n z h = z
nth-Lacks c (String.◌∷◌ d s) zero z h = h.0
nth-Lacks c (String.◌∷◌ d s) (suc n) z h = nth-Lacks c s n z h.1

as_hex-Lacks :
    (c : ℕ) (bs : Bytes)
    → (code "0" == c) ≡ false
    → Lacks c "0123456789abcdef"
    → Lacks c (as_hex bs)
unfolding as_hex hex_digit
as_hex-Lacks c [] z h = tt
as_hex-Lacks c (b ∷ bs) z h = (
  nth-Lacks c "0123456789abcdef" (b / 16) z h,
  (nth-Lacks c "0123456789abcdef" (b % 16) z h, as_hex-Lacks c bs z h),
)

-- Each byte is below 256.
abbrev pub AreBytes : Bytes → Type 0
AreBytes [] = Unit
AreBytes (b ∷ bs) = (b < 256) × AreBytes bs

-- What the crates promise of a salt: its hexadecimal text is read back from form data, and decodes.
pub record IsArgon2 (u : UrlText) (a : Argon2) (salt_size : ℕ) : Type 0 where
  pub parses_salt :
      (salt : Bytes) → u.form_parse (push_str "salt=" (as_hex salt)) ≡ ("salt", as_hex salt) ∷ []
  pub decodes_salt :
      (salt : Bytes)
      → AreBytes salt
      → length salt ≡ salt_size
      → a.decode_salt (as_hex salt) ≡ some salt

module _ (u : UrlText) (a : Argon2) (salt_size : ℕ) (laws : IsArgon2 u a salt_size) where
  abbrev detail_of : Bytes → String
  detail_of salt = push_str "?salt=" (as_hex salt)

  digits_only :
      (c : ℕ) (salt : Bytes)
      → (code "0" == c) ≡ false
      → Lacks c "0123456789abcdef"
      → split_once c (as_hex salt) ≡ (as_hex salt, none)
  digits_only c salt z h = split_once-Lacks c (as_hex salt) (as_hex-Lacks c salt z h)

  no_scheme : (t : String) → split_once b':' t ≡ (t, none) → split_scheme u t ≡ ("", t)
  unfolding split_scheme
  no_scheme t h =
      ap
        (λ cut. elim cut.1 as (λ o. String × String) [
          | none ↦ ("", t)
          | some r ↦ if is_empty cut.0 then ("", t) else (cut.0, trim_slashes r)
        ])
        h

  query_of :
      (s : String)
      → split_once b'#' s ≡ (s, none)
      → split_once b':' s ≡ (s, none)
      → Options.query (parse_uri u (push_str "?" s)) ≡ insert_all (u.form_parse s) []
  unfolding parse_uri
  query_of s fragment scheme =
      let query : Option String → List (String × String) =
        λ o. elim o [ none ↦ [] | some q ↦ insert_all (u.form_parse q) [] ] in
      let whole : split_once b'#' (push_str "?" s) ≡ (push_str "?" s, none) = rw fragment refl in
      let whole' : split_once b':' (push_str "?" s) ≡ (push_str "?" s, none) = rw scheme refl in
      ap (λ cut. query (split_once b'?' (split_scheme u cut.0).1).1) whole
      ∙ ap (λ cut. query (split_once b'?' cut.1).1) (no_scheme (push_str "?" s) whole')

  parse_salt-detail_of :
      (salt : Bytes)
      → AreBytes salt
      → length salt ≡ salt_size
      → parse_salt u a (detail_of salt) ≡ ok salt
  unfolding parse_salt
  parse_salt-detail_of salt q p =
      let fragment : split_once b'#' (as_hex salt) ≡ (as_hex salt, none) =
        digits_only b'#' salt refl (lacks→Lacks b'#' "0123456789abcdef" refl) in
      let scheme : split_once b':' (as_hex salt) ≡ (as_hex salt, none) =
        digits_only b':' salt refl (lacks→Lacks b':' "0123456789abcdef" refl) in
      let text = push_str "salt=" (as_hex salt) in
      let query : Options.query (parse_uri u (detail_of salt)) ≡ ("salt", as_hex salt) ∷ [] =
        query_of text (rw fragment refl) (rw scheme refl)
        ∙ ap (λ es. insert_all es []) (laws.parses_salt salt) in
      rw (parse_salt, query, laws.decodes_salt salt q p) refl

  derive_key-derive_new_key :
      (salt : Bytes) (m : KdfMethod) (pass : String) (key : a.Key) (detail : String)
      → AreBytes salt
      → length salt ≡ salt_size
      → derive_new_key u a salt m pass ≡ ok (key, detail)
      → (detail ≡ detail_of salt) × (derive_key u a m pass detail ≡ ok key)
  unfolding derive_new_key derive_key
  derive_key-derive_new_key salt (argon2i l) pass key detail q p h =
      let (k, e, r) =
        >>=-eq-ok (lift (a.derive l pass salt)) (λ k. ok (k, push_str "?salt=" (as_hex salt))) h in
      let d : detail ≡ detail_of salt = cc in
      let same : k ≡ key = cc in (d, rw (d, parse_salt-detail_of salt q p, e) (ap ok same))

  level_eq_refl : (l : Level) → level_eq l l ≡ true
  unfolding level_eq
  level_eq_refl interactive = refl
  level_eq_refl moderate = refl

  abbrev Reopens :
      (b : Base58 a.Key) → StoreKeyMethod → PassKey → Option a.Key → StoreKeyReference → Type 0
  Reopens b m pass key r =
      (parse_reference (into_uri r) ≡ ok r)
      × (compare_method r m ≡ true)
      × (resolve_reference u a b r pass ≡ ok key)

  -- If the text of a salt is read back from form data and decodes (`IsArgon2`), a method that resolved for a password that is not empty, with a random salt of the size of salts, gives a
  -- reference of that method whose URI parses as the reference, and the reference resolves for the password to
  -- the same key.
  pub resolve_reference-resolve_method :
      (b : Base58 a.Key) (salt : Bytes) (random : a.Key) (m : StoreKeyMethod) (pass : PassKey)
      (key : Option a.Key) (r : StoreKeyReference)
      → AreBytes salt
      → length salt ≡ salt_size
      → is_empty (or_default pass) ≡ false
      → resolve_method u a b salt random m pass ≡ ok (key, r)
      → (parse_reference (into_uri r) ≡ ok r)
        × (compare_method r m ≡ true)
        × (resolve_reference u a b r pass ≡ ok key)
  unfolding resolve_method resolve_reference compare_method
  resolve_reference-resolve_method b salt random (derive_key_method m) none key r q p e h = cc
  resolve_reference-resolve_method b salt random (derive_key_method (argon2i l)) (some pass) key r q
        p e h =
      let ((k, d), e', r') =
        >>=-eq-ok (derive_new_key u a salt (argon2i l) pass)
          (λ m. ok (some m.0, derive_key_reference (argon2i l) m.1)) h in
      let (d', again) = derive_key-derive_new_key salt (argon2i l) pass k d q p e' in
      let same : derive_key_reference (argon2i l) d ≡ r = cc in
      let same_key : some k ≡ key = cc in
      let m = derive_key_method (argon2i l) in
      subst (λ r. Reopens b m (some pass) key r) same
        (subst (λ key. Reopens b m (some pass) key (derive_key_reference (argon2i l) d)) same_key
          (
            (parse_reference-into_uri (derive_key_reference (argon2i l) d)
                (push_str "salt=" (as_hex salt), d')).0,
            level_eq_refl l,
            rw again refl,
          ))
  resolve_reference-resolve_method b salt random raw_key pass key r q p e h =
      let (k, e', r') =
        >>=-eq-ok
          (if is_empty (or_default pass)
            then ok (some random)
            else parse_raw_store_key u a b (or_default pass))
          (λ key. ok (key, raw_key_reference)) h in
      let same : raw_key_reference ≡ r = cc in
      let parsed : parse_raw_store_key u a b (or_default pass) ≡ ok k =
        sym
          (ap (λ t. if t then ok (some random) else parse_raw_store_key u a b (or_default pass)) e)
        ∙ e' in
      let same_key : k ≡ key = cc in
      subst (λ r. Reopens b raw_key pass key r) same
        (
          (parse_reference-into_uri raw_key_reference tt).0,
          refl,
          ap (λ t. if t then err input else parse_raw_store_key u a b (or_default pass)) e
              ∙ parsed
              ∙ ap ok same_key,
        )
  resolve_reference-resolve_method b salt random unprotected pass key r q p e h =
      let same : unprotected_reference ≡ r = cc in
      let same_key : none ≡ key = cc in
      subst (λ r. Reopens b unprotected pass key r) same
        ((parse_reference-into_uri unprotected_reference tt).0, refl, ap ok same_key)

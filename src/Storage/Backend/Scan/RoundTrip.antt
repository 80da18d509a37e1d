-- ===== src/Storage/Backend/Scan/RoundTrip.antt =====
-- A scan gives back the entries whose encryptions the rows hold: askar-storage/src/backend/db_utils.rs.
use iviadc_aries_askar.Base.{
  suc, String, ◌≡◌, refl, ap, ◌∙◌, inl, inr, Option, none, some, List, [], ◌∷◌, ◌++◌, ◌==◌,
  Bool-cases, length, Bytes, Result, ok, collect,
}
use iviadc_aries_askar.Storage.Error.{ErrorKind}
use iviadc_aries_askar.Storage.Entry.{Entry}
use iviadc_aries_askar.Storage.Backend.TagText.{Hex, group_concat}
use iviadc_aries_askar.Storage.Backend.TagText.RoundTrip.{IsHex, decode_tags-group_concat}
use iviadc_aries_askar.Storage.Protect.ProfileKey.{
  Primitives, IsPrimitives, ProfileKeyImpl, EncEntryTag, encrypt_entry_category, encrypt_entry_name,
  encrypt_entry_value, encrypt_entry_tags,
}
use iviadc_aries_askar.Storage.Protect.ProfileKey.RoundTrip.{
  decrypt_entry_category-encrypt_entry_category, decrypt_entry_name-encrypt_entry_name,
  decrypt_entry_value-encrypt_entry_value, decrypt_entry_tags-encrypt_entry_tags,
}
use iviadc_aries_askar.Storage.Backend.Scan.{
  page_size, pages_from, pages, EncScanEntry, category_of, decrypt_scan_entry, decrypt_scan_batch,
  scan_pages, fetch_all,
}
use iviadc_aries_askar.Storage.Backend.Scan.Pages.{pages_lem}

module _ {A B : Type 0} {E : Type 0} (f : A → Result B E) where
  -- The function gives these values for those, one by one.
  abbrev pub Gives : List A → List B → Type 0
  Gives [] [] = Unit
  Gives (a ∷ as') (b ∷ bs) = (f a ≡ ok b) × Gives as' bs
  Gives _ _ = ⊥

  pub Gives-collect : (as' : List A) (bs : List B) → Gives as' bs → collect f as' ≡ ok bs
  unfolding collect
  Gives-collect [] [] g = refl
  Gives-collect [] (b ∷ bs) g = absurd g
  Gives-collect (a ∷ as') [] g = absurd g
  Gives-collect (a ∷ as') (b ∷ bs) (e, g) = rw (e, Gives-collect as' bs g) refl

  Gives-length : (as' : List A) (bs : List B) → Gives as' bs → length as' ≡ length bs
  Gives-length [] [] g = refl
  Gives-length [] (b ∷ bs) g = absurd g
  Gives-length (a ∷ as') [] g = absurd g
  Gives-length (a ∷ as') (b ∷ bs) (e, g) = ap suc (Gives-length as' bs g)

  Gives-append :
      (as' : List A) (bs : List B) (a : A) (b : B)
      → Gives as' bs
      → f a ≡ ok b
      → Gives (as' ++ (a ∷ [])) (bs ++ (b ∷ []))
  Gives-append [] [] a b g e = (e, tt)
  Gives-append [] (b' ∷ bs) a b g e = absurd g
  Gives-append (a' ∷ as') [] a b g e = absurd g
  Gives-append (a' ∷ as') (b' ∷ bs) a b (e', g) e = (e', Gives-append as' bs a b g e)

  -- The pages of the rows are taken to the pages of the values.
  collect-pages_from :
      (rows : List A) (vs : List B) (batch : List A) (done : List B)
      → Gives rows vs
      → Gives batch done
      → collect (collect f) (pages_from batch rows) ≡ ok (pages_from done vs)
  unfolding collect pages_from
  collect-pages_from [] [] [] [] g h = refl
  collect-pages_from [] [] [] (d ∷ ds) g h = absurd h
  collect-pages_from [] [] (b ∷ bs) [] g h = absurd h
  collect-pages_from [] [] (b ∷ bs) (d ∷ ds) g (e, h) = rw (e, Gives-collect bs ds h) refl
  collect-pages_from [] (v ∷ vs) batch done g h = absurd g
  collect-pages_from (row ∷ rows) [] batch done g h = absurd g
  collect-pages_from (row ∷ rows) (v ∷ vs) batch done (e, g) h =
      let full = Gives-append batch done row v h e in
      let same : length (batch ++ (row ∷ [])) ≡ length (done ++ (v ∷ [])) =
        Gives-length (batch ++ (row ∷ [])) (done ++ (v ∷ [])) full in
      elim (Bool-cases (length (done ++ (v ∷ [])) == page_size)) [
        | inl p ↦
            rw
              (
                pages_from,
                same,
                p,
                Gives-collect (batch ++ (row ∷ [])) (done ++ (v ∷ [])) full,
                collect-pages_from rows vs [] [] g tt,
              )
              refl
        | inr p ↦
            rw (pages_from, same, p)
              (collect-pages_from rows vs (batch ++ (row ∷ [])) (done ++ (v ∷ [])) g full)
      ]

module _ (x : Primitives) (hex : Hex) (pk : ProfileKeyImpl x) where
  -- The row holds the encryption of the entry, made with some nonce, and the text of its encrypted tags.
  abbrev pub Holds : EncScanEntry → Entry → Type 0
  Holds row entry =
      (row.row_kind ≡ entry.entry_kind)
      × (encrypt_entry_category x pk (x.into_bytes entry.entry_category) ≡ ok row.row_category)
      × (encrypt_entry_name x pk (x.into_bytes entry.entry_name) ≡ ok row.row_name)
      × ((nonce : Bytes) × (length nonce ≡ x.nonce_size)
          × (encrypt_entry_value x pk nonce (x.into_bytes entry.entry_category)
                (x.into_bytes entry.entry_name) entry.entry_value
              ≡ ok row.row_value))
      × ((tags : List EncEntryTag) × (encrypt_entry_tags x pk entry.entry_tags ≡ ok tags)
          × (row.row_tags ≡ group_concat hex tags))

  -- A scan that is restricted to a category has the entries of this category.
  abbrev pub IsIn : Option String → Entry → Type 0
  IsIn none entry = Unit
  IsIn (some category) entry = category ≡ entry.entry_category

  abbrev pub AllHold : Option String → List EncScanEntry → List Entry → Type 0
  AllHold category [] [] = Unit
  AllHold category (row ∷ rows) (entry ∷ entries) =
      Holds row entry × IsIn category entry × AllHold category rows entries
  AllHold category _ _ = ⊥

  module _ (laws : IsPrimitives x) (hh : IsHex hex) where
    same_ok : {A : Type 0} (r : Result A ErrorKind) (a b : A) → r ≡ ok a → r ≡ ok b → a ≡ b
    same_ok r a b p q = cc

    category_of_lem :
        (category : Option String) (row : EncScanEntry) (entry : Entry)
        → Holds row entry
        → IsIn category entry
        → category_of x hex pk category row.row_category ≡ ok entry.entry_category
    unfolding category_of
    category_of_lem (some c) row entry h i = ap ok i
    category_of_lem none row entry (_, h, _, _, _) i =
        let (c, e, d) =
          decrypt_entry_category-encrypt_entry_category x laws pk entry.entry_category in
        rw (same_ok _ row.row_category c h e) d

    decrypt_scan_entry_lem :
        (category : Option String) (row : EncScanEntry) (entry : Entry)
        → Holds row entry
        → IsIn category entry
        → decrypt_scan_entry x hex pk category row ≡ ok entry
    unfolding decrypt_scan_entry
    decrypt_scan_entry_lem category row entry h i =
        let (hk, _, hn, (nonce, fits, hv), (tags, ht, hx)) = h in
        let ec = category_of_lem category row entry h i in
        let (n, en, dn) = decrypt_entry_name-encrypt_entry_name x laws pk entry.entry_name in
        let (v, ev, dv) =
          decrypt_entry_value-encrypt_entry_value x laws pk nonce
            (x.into_bytes entry.entry_category) (x.into_bytes entry.entry_name) entry.entry_value
            fits in
        let (ts, et, dt) = decrypt_entry_tags-encrypt_entry_tags x laws pk entry.entry_tags in
        rw
          (
            ec,
            same_ok _ row.row_name n hn en,
            dn,
            same_ok _ row.row_value v hv ev,
            dv,
            hx,
            decode_tags-group_concat hex hh tags,
            same_ok _ tags ts ht et,
            dt,
            hk,
          )
          refl

    AllHold-Gives :
        (category : Option String) (rows : List EncScanEntry) (entries : List Entry)
        → AllHold category rows entries
        → Gives (decrypt_scan_entry x hex pk category) rows entries
    AllHold-Gives category [] [] h = tt
    AllHold-Gives category [] (entry ∷ entries) h = absurd h
    AllHold-Gives category (row ∷ rows) [] h = absurd h
    AllHold-Gives category (row ∷ rows) (entry ∷ entries) (h, i, hs) =
        (decrypt_scan_entry_lem category row entry h i, AllHold-Gives category rows entries hs)

    -- Where the rows hold the encryptions of entries, which are of the category that a scan may be restricted to, the
    -- scan gives these entries, in their order and in pages as `perform_scan` makes them, and `fetch_all` gives
    -- them as a list. The cipher, the HMAC and the hexadecimal text keep their laws.
    pub scan_pages-AllHold :
        (category : Option String) (rows : List EncScanEntry) (entries : List Entry)
        → AllHold category rows entries
        → (scan_pages x hex pk category rows ≡ ok (pages entries))
          × (fetch_all x hex pk category rows ≡ ok entries)
    unfolding scan_pages fetch_all decrypt_scan_batch pages
    scan_pages-AllHold category rows entries h =
        let g = AllHold-Gives category rows entries h in
        let f = decrypt_scan_entry x hex pk category in
        (
          collect-pages_from f rows entries [] [] g tt,
          ap (collect f) (pages_lem rows).1 ∙ Gives-collect f rows entries g,
        )

-- ===== src/Storage/Backend/TagText/RoundTrip.antt =====
-- The tags that a query gives as text are read back.
use iviadc_aries_askar.Base.{
  ◌≡◌, refl, ◌∙◌, Bool, true, false, some, List, [], ◌∷◌, ◌++◌, append-nil, append_assoc, ◌==◌,
  if◌then◌else◌, Bytes, ok,
}
use iviadc_aries_askar.Storage.Protect.ProfileKey.{EncEntryTag}
use iviadc_aries_askar.Storage.Backend.TagText.{
  Hex, decode_tag, at_flag, in_name, in_value, decode_from, decode_tags, tag_text, behind_first,
  group_concat,
}

-- Neither a comma nor a colon occurs.
abbrev pub IsUnbroken : Bytes → Type 0
IsUnbroken [] = Unit
IsUnbroken (c ∷ s) = ((c == b',') ≡ false) × ((c == b':') ≡ false) × IsUnbroken s

-- The two agree, and hexadecimal text has neither a comma nor a colon.
pub record IsHex (x : Hex) : Type 0 where
  pub decode-encode : (b : Bytes) → x.decode (x.encode b) ≡ some b
  pub encode-IsUnbroken : (b : Bytes) → IsUnbroken (x.encode b)

module _ (x : Hex) (h : IsHex x) where
  name_read :
      (plaintext : Bool) (s name rest : Bytes)
      → IsUnbroken s
      → decode_from x (in_name plaintext name) (s ++ (b':' ∷ rest))
        ≡ decode_from x (in_value plaintext (name ++ s) []) rest
  unfolding decode_from
  name_read plaintext [] name rest u = rw (append-nil name) refl
  name_read plaintext (c ∷ s) name rest (nc, nd, u) =
      rw
        (
          decode_from,
          nc,
          nd,
          name_read plaintext s (name ++ (c ∷ [])) rest u,
          append_assoc name (c ∷ []) s,
        )
        refl

  value_read :
      (plaintext : Bool) (s name value rest : Bytes)
      → IsUnbroken s
      → decode_from x (in_value plaintext name value) (s ++ rest)
        ≡ decode_from x (in_value plaintext name (value ++ s)) rest
  unfolding decode_from
  value_read plaintext [] name value rest u = rw (append-nil value) refl
  value_read plaintext (c ∷ s) name value rest (nc, nd, u) =
      rw
        (
          decode_from,
          nc,
          nd,
          value_read plaintext s name (value ++ (c ∷ [])) rest u,
          append_assoc value (c ∷ []) s,
        )
        refl

  flag_read :
      (plaintext : Bool) (s : Bytes)
      → decode_from x at_flag ((if plaintext then b'1' else b'0') ∷ b':' ∷ s)
        ≡ decode_from x (in_name plaintext []) s
  unfolding decode_from
  flag_read true s = refl
  flag_read false s = refl

  tag_read :
      (tag : EncEntryTag) (rest : Bytes)
      → decode_from x at_flag (tag_text x tag ++ rest)
        ≡ decode_from x (in_value tag.is_plaintext (x.encode tag.name) (x.encode tag.value)) rest
  unfolding tag_text
  tag_read tag rest =
      rw
        (
          append_assoc (x.encode tag.name) (b':' ∷ x.encode tag.value) rest,
          flag_read tag.is_plaintext (x.encode tag.name ++ (b':' ∷ (x.encode tag.value ++ rest))),
          name_read tag.is_plaintext (x.encode tag.name) [] (x.encode tag.value ++ rest)
              (h.encode-IsUnbroken tag.name),
        )
        (value_read tag.is_plaintext (x.encode tag.value) (x.encode tag.name) [] rest
          (h.encode-IsUnbroken tag.value))

  tag_decoded :
      (tag : EncEntryTag)
      → decode_tag x tag.is_plaintext (x.encode tag.name) (x.encode tag.value) ≡ ok tag
  unfolding decode_tag
  tag_decoded tag = rw (decode_tag, h.decode-encode tag.name, h.decode-encode tag.value) refl

  rest_read :
      (tag : EncEntryTag) (tags : List EncEntryTag)
      → decode_from x
          (in_value tag.is_plaintext (x.encode tag.name) (x.encode tag.value))
          (behind_first x tags)
        ≡ ok (tag ∷ tags)
  unfolding decode_from behind_first
  rest_read tag [] = rw (decode_from, tag_decoded tag) refl
  rest_read tag (other ∷ tags) =
      rw (decode_from, tag_decoded tag, tag_read other (behind_first x tags), rest_read other tags)
        refl

-- The text that a query builds of an entry's tags is read back as these tags, in their order. The text
-- in hexadecimal has neither a comma nor a colon, and is decoded to what was encoded.
pub decode_tags-group_concat :
    (x : Hex) → IsHex x → (tags : List EncEntryTag) → decode_tags x (group_concat x tags) ≡ ok tags
unfolding decode_tags group_concat decode_from
decode_tags-group_concat x h [] = refl
decode_tags-group_concat x h (tag ∷ tags) =
    tag_read x h tag (behind_first x tags) ∙ rest_read x h tag tags

-- ===== src/Storage/Backend/TagText/Tests.antt =====
-- Instances of the theorem on the text of tags, with a small form of bytes as text.
use iviadc_aries_askar.Base.{
  ◌+◌, ◌-◌, ◌≡◌, refl, ap, true, false, some, List, [], ◌∷◌, arith, Bytes, ok, err,
}
use iviadc_aries_askar.Base.Decimal.{codes}
use iviadc_aries_askar.Storage.Protect.ProfileKey.{EncEntryTag}
use iviadc_aries_askar.Storage.Backend.TagText.{Hex, decode_tags, decode_from, group_concat}
use iviadc_aries_askar.Storage.Backend.TagText.RoundTrip.{
  IsHex, IsUnbroken, decode_tags-group_concat,
}

-- Each byte is one character, above the punctuation.
unfoldable pub up : Bytes → Bytes
up [] = []
up (n ∷ s) = (n + 100) ∷ up s

unfoldable pub down : Bytes → Bytes
down [] = []
down (n ∷ s) = (n - 100) ∷ down s

down-up : (s : Bytes) → down (up s) ≡ s
unfolding down up
down-up [] = refl
down-up (n ∷ s) = let e : n + 100 - 100 ≡ n = omega arith in rw (e, down-up s) refl

up-IsUnbroken : (s : Bytes) → IsUnbroken (up s)
unfolding up
up-IsUnbroken [] = tt
up-IsUnbroken (n ∷ s) = (ground arith, ground arith, up-IsUnbroken s)

abbrev pub small_hex : Hex
small_hex = record { decode = λ s. some (down s); encode = up }

pub small_hex-IsHex : IsHex small_hex
small_hex-IsHex = record {
  decode-encode = λ b. ap some (down-up b);
  encode-IsUnbroken = up-IsUnbroken;
}

abbrev two_tags : List EncEntryTag
two_tags =
    record { name = 1 ∷ 2 ∷ []; value = []; is_plaintext = true }
    ∷ record { name = 3 ∷ []; value = 4 ∷ 5 ∷ []; is_plaintext = false }
    ∷ []

decode_tags-group_concat_example :
    decode_tags small_hex (group_concat small_hex two_tags) ≡ ok two_tags
decode_tags-group_concat_example = decode_tags-group_concat small_hex small_hex-IsHex two_tags

no_name : decode_tags small_hex (codes "1:") ≡ err tt
unfolding decode_tags decode_from
no_name = refl

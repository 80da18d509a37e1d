-- ===== src/Crypto/KeyWrap/Tests.antt =====
-- Runs and instances of the theorems on key_wrap.rs, with a cipher that swaps the halves of a block.
use iviadc_aries_askar.Base.{
  ◌≡◌, refl, [], ◌∷◌, ◌++◌, arith, length, take, drop, length-append, take-append-drop, length-take,
  length-drop, Bytes, take-append_of, drop-append_of, ok, err,
}
use iviadc_aries_askar.Crypto.Error.{encryption}
use iviadc_aries_askar.Crypto.KeyWrap.{
  BlockCipher, IsPermutation, encrypt_in_place, decrypt_in_place, wrap_rounds, unwrap_rounds,
}
use iviadc_aries_askar.Crypto.KeyWrap.RoundTrip.{decrypt_in_place-encrypt_in_place}
use iviadc_aries_askar.Crypto.KeyWrap.Accept.{encrypt_in_place-decrypt_in_place}
use iviadc_aries_askar.Crypto.Bits.{xor_into, to_be_bytes}

abbrev swap_halves : Bytes → Bytes
swap_halves b = drop 8 b ++ take 8 b

length-swap_halves : (b : Bytes) → length b ≡ 16 → length (swap_halves b) ≡ 16
length-swap_halves b h =
    omega (arith, length-append (drop 8 b) (take 8 b), length-take 8 b, length-drop 8 b)

swap_halves_invol : (b : Bytes) → length b ≡ 16 → swap_halves (swap_halves b) ≡ b
swap_halves_invol b h =
    let e : length (drop 8 b) ≡ 8 = omega (arith, length-drop 8 b) in
    rw (
      drop-append_of 8 (drop 8 b) (take 8 b) e,
      take-append_of 8 (drop 8 b) (take 8 b) e,
      take-append-drop 8 b,
    )

abbrev swapping : BlockCipher
swapping = record { encrypt_block = swap_halves; decrypt_block = swap_halves }

swapping-IsPermutation : IsPermutation swapping
swapping-IsPermutation = record {
  length_encrypt = length-swap_halves;
  length_decrypt = length-swap_halves;
  decrypt_encrypt = swap_halves_invol;
  encrypt_decrypt = swap_halves_invol;
}

abbrev sample_key : Bytes
sample_key =
    0 ∷ 17 ∷ 34 ∷ 51 ∷ 68 ∷ 85 ∷ 102 ∷ 119 ∷ 136 ∷ 153 ∷ 170 ∷ 187 ∷ 204 ∷ 221 ∷ 238 ∷ 255 ∷ []

abbrev wrapped_key : Bytes
wrapped_key =
    166 ∷ 166 ∷ 166 ∷ 166 ∷ 166 ∷ 166 ∷ 166 ∷ 166 ∷ 0 ∷ 17 ∷ 34 ∷ 51 ∷ 68 ∷ 85 ∷ 102 ∷ 127 ∷ 136
    ∷ 153 ∷ 170 ∷ 187 ∷ 204 ∷ 221 ∷ 238 ∷ 251 ∷ []

wraps_key : encrypt_in_place swapping sample_key [] [] ≡ (wrapped_key, ok 24)
unfolding encrypt_in_place wrap_rounds xor_into to_be_bytes
wraps_key = refl

unwraps_key : decrypt_in_place swapping wrapped_key [] [] ≡ (sample_key, ok tt)
unfolding decrypt_in_place unwrap_rounds xor_into to_be_bytes
unwraps_key = refl

-- A changed byte is noticed.
refuses_changed_key :
    (decrypt_in_place swapping (165 ∷ drop 1 wrapped_key) [] []).1 ≡ err encryption
unfolding decrypt_in_place unwrap_rounds xor_into to_be_bytes
refuses_changed_key = refl

decrypt_in_place-encrypt_in_place_example :
    ((encrypt_in_place swapping sample_key [] []).1 ≡ ok 24)
    × (decrypt_in_place swapping (encrypt_in_place swapping sample_key [] []).0 [] []
        ≡ (sample_key, ok tt))
decrypt_in_place-encrypt_in_place_example =
    decrypt_in_place-encrypt_in_place swapping swapping-IsPermutation sample_key refl

encrypt_in_place-decrypt_in_place_example :
    (◌≡◌ {A = Bytes} [] [])
    × (◌≡◌ {A = Bytes} [] [])
    × (encrypt_in_place swapping sample_key [] [] ≡ (wrapped_key, ok 24))
encrypt_in_place-decrypt_in_place_example =
    encrypt_in_place-decrypt_in_place swapping swapping-IsPermutation wrapped_key [] [] sample_key
      unwraps_key

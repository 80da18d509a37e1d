-- ===== src/Storage/Protect/ProfileKey/ValueKey.antt =====
-- The bytes from which a value's key is derived stand for one category and one name
-- (askar-storage/src/protect/profile_key.rs, `derive_value_key`).
use iviadc_aries_askar.Base.{
  ℕ, ◌/◌, ◌%◌, ◌^◌, ◌<◌, ◌≡◌, refl, sym, ap, ◌∙◌, ◌++◌, arith, length, take, drop, Bytes,
  take-append_of, drop-append_of,
}
use iviadc_aries_askar.Crypto.Bits.{to_be_bytes, length-to_be_bytes}
use iviadc_aries_askar.Storage.Protect.ProfileKey.{Primitives, value_key_input}

to_be_bytes_injective :
    (a b : ℕ) → a < 2 ^ 32 → b < 2 ^ 32 → to_be_bytes 4 a ≡ to_be_bytes 4 b → a ≡ b
unfolding to_be_bytes
to_be_bytes_injective a b p q h =
    let e₃ : a / 16777216 % 256 ≡ b / 16777216 % 256 = cc in
    let e₂ : a / 65536 % 256 ≡ b / 65536 % 256 = cc in
    let e₁ : a / 256 % 256 ≡ b / 256 % 256 = cc in
    let e₀ : a / 1 % 256 ≡ b / 1 % 256 = cc in omega arith

append_injective :
    (n : ℕ) (xs xs' ys ys' : Bytes)
    → length xs ≡ n
    → length xs' ≡ n
    → xs ++ ys ≡ xs' ++ ys'
    → (xs ≡ xs') × (ys ≡ ys')
append_injective n xs xs' ys ys' p q h = (
  sym (take-append_of n xs ys p) ∙ ap (take n) h ∙ take-append_of n xs' ys' q,
  sym (drop-append_of n xs ys p) ∙ ap (drop n) h ∙ drop-append_of n xs' ys' q,
)

-- Two pairs of a category and a name, each shorter than 2 ^ 32 bytes, for which the same bytes are hashed, are the
-- same pair.
pub value_key_input_injective :
    (x : Primitives) (c n c' n' : Bytes)
    → length c < 2 ^ 32
    → length n < 2 ^ 32
    → length c' < 2 ^ 32
    → length n' < 2 ^ 32
    → value_key_input x c n ≡ value_key_input x c' n'
    → (c ≡ c') × (n ≡ n')
unfolding value_key_input
value_key_input_injective x c n c' n' p q p' q' h =
    let (e, rest) =
      append_injective 4 (to_be_bytes 4 (length c)) (to_be_bytes 4 (length c'))
        (c ++ (to_be_bytes 4 (length n) ++ n)) (c' ++ (to_be_bytes 4 (length n') ++ n'))
        (length-to_be_bytes 4 (length c)) (length-to_be_bytes 4 (length c')) h in
    let l : length c ≡ length c' = to_be_bytes_injective (length c) (length c') p p' e in
    let (same, rest') =
      append_injective (length c) c c' (to_be_bytes 4 (length n) ++ n)
        (to_be_bytes 4 (length n') ++ n') refl (sym l) rest in
    (
      same,
      (append_injective 4 (to_be_bytes 4 (length n)) (to_be_bytes 4 (length n')) n n'
          (length-to_be_bytes 4 (length n)) (length-to_be_bytes 4 (length n')) rest').1,
    )

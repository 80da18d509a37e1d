-- ===== src/Crypto/Bits.antt =====
-- Exclusive or of numbers and of byte strings, and big-endian integers (`u64::to_be_bytes`,
-- `u32::to_be_bytes`), as key_wrap.rs, cbc_hmac.rs and concat.rs use them.
use Prim.Native.Nat.{digits, bit_xor-bitwise, differ}
use iviadc_aries_askar.Base.{
  ℕ, zero, suc, ◌+◌, ◌*◌, ◌/◌, ◌%◌, ◌^◌, ◌≤◌, ◌<◌, bit_xor, ◌≡◌, refl, ap, [], ◌∷◌, arith, Bytes,
  length,
}

abbrev xor_digits : ℕ → ℕ → ℕ → ℕ
xor_digits n a b = digits (λ b. b) differ n a b

-- Fuel for every digit is as good as more fuel.
xor_digits_fuel : (x y f g : ℕ) → x ≤ f → x ≤ g → xor_digits f x y ≡ xor_digits g x y
xor_digits_fuel (suc x) y (suc f) (suc g) u v =
    let half : suc x / 2 ≤ f = omega arith in
    let half' : suc x / 2 ≤ g = omega arith in
    omega (arith, xor_digits_fuel (suc x / 2) (y / 2) f g half half')
xor_digits_fuel (suc x) y zero g u v = absurd (omega arith)
xor_digits_fuel (suc x) y (suc f) zero u v = absurd (omega arith)
xor_digits_fuel zero y (suc f) (suc g) u v = refl
xor_digits_fuel zero y (suc f) zero u v = refl
xor_digits_fuel zero y zero (suc g) u v = refl
xor_digits_fuel zero y zero zero u v = refl

no_digits : (y : ℕ) → bit_xor 0 y ≡ y
no_digits y = bit_xor-bitwise 0 y

-- The lowest digit of an exclusive or, and the rest.
bit_xor_step : (x y : ℕ) → bit_xor x y ≡ bit_xor (x / 2) (y / 2) * 2 + differ (x % 2) (y % 2)
bit_xor_step zero y = omega (arith, no_digits y, no_digits (y / 2))
bit_xor_step (suc x) y =
    let top = bit_xor-bitwise (suc x) y in
    let below = bit_xor-bitwise (suc x / 2) (y / 2) in
    let enough = xor_digits_fuel (suc x / 2) (y / 2) x (suc x / 2) (omega arith) (omega arith) in
    omega (arith, top, below, enough)

differ-lt : (x y : ℕ) → x < 2 → y < 2 → differ x y < 2
differ-lt zero y p q = q
differ-lt (suc zero) zero p q = omega arith
differ-lt (suc zero) (suc zero) p q = omega arith
differ-lt (suc zero) (suc (suc y)) p q = absurd (omega arith)
differ-lt (suc (suc x)) y p q = absurd (omega arith)

differ_cancel : (x y : ℕ) → x < 2 → y < 2 → differ (differ x y) y ≡ x
differ_cancel zero zero p q = refl
differ_cancel zero (suc zero) p q = refl
differ_cancel zero (suc (suc y)) p q = absurd (omega arith)
differ_cancel (suc zero) zero p q = refl
differ_cancel (suc zero) (suc zero) p q = refl
differ_cancel (suc zero) (suc (suc y)) p q = absurd (omega arith)
differ_cancel (suc (suc x)) y p q = absurd (omega arith)

bit_xor_cancel_fuel : (n a b : ℕ) → a + b ≤ n → bit_xor (bit_xor a b) b ≡ a
bit_xor_cancel_fuel zero zero zero h = refl
bit_xor_cancel_fuel zero zero (suc b) h = absurd (omega arith)
bit_xor_cancel_fuel zero (suc a) b h = absurd (omega arith)
bit_xor_cancel_fuel (suc n) a b h =
    let x = bit_xor (a / 2) (b / 2) in
    let d = differ (a % 2) (b % 2) in
    let small = differ-lt (a % 2) (b % 2) (omega arith) (omega arith) in
    let high : bit_xor a b / 2 ≡ x = omega (arith, bit_xor_step a b) in
    let low : bit_xor a b % 2 ≡ d = omega (arith, bit_xor_step a b) in
    let rest : bit_xor (bit_xor a b / 2) (b / 2) ≡ a / 2 =
      rw high (bit_xor_cancel_fuel n (a / 2) (b / 2) (omega arith)) in
    let digit : differ (bit_xor a b % 2) (b % 2) ≡ a % 2 =
      rw low (differ_cancel (a % 2) (b % 2) (omega arith) (omega arith)) in
    omega (arith, bit_xor_step (bit_xor a b) b)

-- Exclusive or with the same number twice gives the first number back.
pub bit_xor_cancel : (a b : ℕ) → bit_xor (bit_xor a b) b ≡ a
bit_xor_cancel a b = bit_xor_cancel_fuel (a + b) a b (omega arith)

-- `for (a, t) in iv.iter_mut().zip(&t[..]) { *a ^= t; }`
unfoldable pub xor_into : Bytes → Bytes → Bytes
xor_into [] ts = []
xor_into (a ∷ as') [] = a ∷ as'
xor_into (a ∷ as') (t ∷ ts) = bit_xor a t ∷ xor_into as' ts

pub xor_into_cancel : (xs ts : Bytes) → xor_into (xor_into xs ts) ts ≡ xs
unfolding xor_into
xor_into_cancel [] ts = refl
xor_into_cancel (a ∷ xs) [] = refl
xor_into_cancel (a ∷ xs) (t ∷ ts) = cc (bit_xor_cancel a t, xor_into_cancel xs ts)

pub length-xor_into : (xs ts : Bytes) → length (xor_into xs ts) ≡ length xs
unfolding xor_into
length-xor_into [] ts = refl
length-xor_into (a ∷ xs) [] = refl
length-xor_into (a ∷ xs) (t ∷ ts) = ap suc (length-xor_into xs ts)

-- The `w` bytes of an integer, highest first; what is above them is cut off, as by `as u32`.
unfoldable pub to_be_bytes : ℕ → ℕ → Bytes
to_be_bytes zero n = []
to_be_bytes (suc w) n = (n / 256 ^ w) % 256 ∷ to_be_bytes w n

pub length-to_be_bytes : (w n : ℕ) → length (to_be_bytes w n) ≡ w
unfolding to_be_bytes
length-to_be_bytes zero n = refl
length-to_be_bytes (suc w) n = ap suc (length-to_be_bytes w n)

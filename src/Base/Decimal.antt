-- ===== src/Base/Decimal.antt =====
-- Numbers in decimal, as `format!("{}", n)` prints them and `parse::<i64>` reads them, over the code points of a text.
use Prim.Native.Nat.{ℕ, zero, suc, ◌+◌, ◌-◌, ◌*◌, ◌/◌, ◌%◌, ◌<◌}
use Prim.Native.Char.{code}
use Prim.Native.String.{String}
use mathlib.Core.Path.{◌≡◌, refl}
use mathlib.Core.Bool.{Bool, true, ◌&&◌}
use mathlib.Core.List.{[], ◌∷◌, ◌++◌}
use native.Mathlib.Omega.{arith}
use iviadc_aries_askar.Base.Lists.{Bytes}
use mathlib.Core.Logic.{inl, inr}
use iviadc_aries_askar.Base.Tests.{ltb, leb, if◌then◌else◌, Bool-cases, ltb→lt}

-- The code points of a text: its bytes, if it is ASCII.
abbrev pub codes : String → Bytes
codes String.[] = []
codes (String.◌∷◌ c s) = code c ∷ codes s

-- `is_ascii_digit`
abbrev pub is_digit : ℕ → Bool
is_digit c = leb b'0' c && leb c b'9'

abbrev pub AllDigits : Bytes → Type 0
AllDigits [] = Unit
AllDigits (c ∷ s) = (is_digit c ≡ true) × AllDigits s

-- The number that digits spell behind `n`.
unfoldable pub value : ℕ → Bytes → ℕ
value n [] = n
value n (c ∷ s) = value (n * 10 + (c - b'0')) s

-- The digits of `n`; more than `n` rounds are enough.
unfoldable pub digits : ℕ → ℕ → Bytes
digits zero n = []
digits (suc rounds) n =
    let rest = digits rounds (n / 10) in
    if ltb n 10 then (b'0' + n) ∷ [] else rest ++ ((b'0' + n % 10) ∷ [])

unfoldable pub display : ℕ → Bytes
unfolding digits
display n = digits (suc n) n

pub value-append : (n : ℕ) (s t : Bytes) → value n (s ++ t) ≡ value (value n s) t
unfolding value
value-append n [] t = refl
value-append n (c ∷ s) t = value-append (n * 10 + (c - b'0')) s t

value-digits : (rounds n : ℕ) → n < rounds → value 0 (digits rounds n) ≡ n
unfolding digits value
value-digits zero n h = absurd (omega arith)
value-digits (suc rounds) n h = grind (
  arith,
  value-append 0 (digits rounds (n / 10)) ((b'0' + n % 10) ∷ []),
  value-digits rounds (n / 10),
)

-- A printed number is read back.
pub value-display : (n : ℕ) → value 0 (display n) ≡ n
unfolding display
value-display n = value-digits (suc n) n (omega arith)

AllDigits-append : (s t : Bytes) → AllDigits s → AllDigits t → AllDigits (s ++ t)
AllDigits-append [] t hs ht = ht
AllDigits-append (c ∷ s) t (h, hs) ht = (h, AllDigits-append s t hs ht)

digit-is_digit : (n : ℕ) → n < 10 → is_digit (b'0' + n) ≡ true
digit-is_digit n h = ground arith

digits-AllDigits : (rounds n : ℕ) → AllDigits (digits rounds n)
unfolding digits
digits-AllDigits zero n = tt
digits-AllDigits (suc rounds) n = elim (Bool-cases (ltb n 10)) [
  | inl h ↦ rw h (digit-is_digit n (ltb→lt n 10 h), tt)
  | inr h ↦ rw h (
      AllDigits-append (digits rounds (n / 10)) _ (digits-AllDigits rounds (n / 10))
        (digit-is_digit (n % 10) (omega arith), tt))
]

digits-append-cons : (s : Bytes) (c : ℕ) → (d : ℕ) × (t : Bytes) × (s ++ (c ∷ []) ≡ d ∷ t)
digits-append-cons [] c = (c, [], refl)
digits-append-cons (d ∷ s) c = (d, s ++ (c ∷ []), refl)

-- A print is a digit and digits behind it.
pub display-cons : (n : ℕ) → (d : ℕ) × (s : Bytes) × (display n ≡ d ∷ s)
unfolding display digits
display-cons n = elim (Bool-cases (ltb n 10)) [
  | inl h ↦ (b'0' + n, [], rw h refl)
  | inr h ↦ let (d, s, e) = digits-append-cons (digits n (n / 10)) (b'0' + n % 10) in (d, s, rw h e)
]

pub display-AllDigits : (n : ℕ) → AllDigits (display n)
unfolding display
display-AllDigits n = digits-AllDigits (suc n) n

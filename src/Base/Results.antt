-- ===== src/Base/Results.antt =====
-- Rust's `Result` with `?` as a monad, and runs of a fallible step over a list.
use mathlib.Core.Path.{◌≡◌, refl}
use mathlib.Core.List.{List, [], ◌∷◌}
use mathlib.Core.Logic.{◌⊎◌, inl, inr}

pub data Result {ℓ κ} (A : Type ℓ) (E : Type κ) : Type (ℓ ⊔ κ) where
  ok : A → Result A E
  err : E → Result A E

-- `r?` before what follows
infixl 5 ◌>>=◌ ◌>>◌
abbrev pub ◌>>=◌ {ℓ κ μ} :
    {T : Type ℓ} {U : Type κ} {E : Type μ} → Result T E → (T → Result U E) → Result U E
err failure >>= next = err failure
ok value >>= next = next value

-- `r?;`
abbrev pub ◌>>◌ {κ μ} : {U : Type κ} {E : Type μ} → Result (Unit {0}) E → Result U E → Result U E
err failure >> rest = err failure
ok done >> rest = rest

-- `into_iter().map(f).collect::<Result<Vec<_>, E>>()`: the first error stops the run.
module _ {ℓ κ μ} {A : Type ℓ} {B : Type κ} {E : Type μ} where
  unfoldable pub collect : (A → Result B E) → List A → Result (List B) E
  collect f [] = ok []
  collect f (x ∷ xs) = do y ← f x; ys ← collect f xs; ok (y ∷ ys)

-- What follows `r?` was reached, if the whole is `ok`.
pub >>=-eq-ok {ℓ κ μ} :
    {T : Type ℓ} {U : Type κ} {E : Type μ} (r : Result T E) (next : T → Result U E) {result : U}
    → (r >>= next) ≡ ok result
    → (value : T) × (r ≡ ok value) × (next value ≡ ok result)
>>=-eq-ok (err failure) next reached = cc
>>=-eq-ok (ok value) next reached = (value, refl, reached)

-- To split on a computed result and keep the equation.
pub Result-cases {ℓ κ} :
    {A : Type ℓ} {E : Type κ} (r : Result A E) → ((a : A) × (r ≡ ok a)) ⊎ ((e : E) × (r ≡ err e))
Result-cases (ok a) = inl (a, refl)
Result-cases (err e) = inr (e, refl)

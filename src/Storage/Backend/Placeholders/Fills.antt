-- ===== src/Storage/Backend/Placeholders/Fills.antt =====
-- The clauses whose placeholders stand for the arguments of a template, each at its place: askar-storage/src/backend/db_utils.rs.
use iviadc_aries_askar.Base.{
  append-nil, ℕ, suc, ◌+◌, ◌-◌, ◌^◌, ◌<◌, ◌≡◌, refl, sym, ap, Bool, true, false, Option, none, some,
  [], ◌∷◌, ◌++◌, append_assoc, arith, ◌==◌, if◌then◌else◌, lt→ltb, length, length-append, Bytes,
}
use iviadc_aries_askar.Base.Text.{if-false}
use iviadc_aries_askar.Base.Decimal.{
  AllDigits, display, value, value-display, display-cons, display-AllDigits, is_digit,
}
use iviadc_aries_askar.Storage.Wql.Template.{
  text, hole, Template, bound, number, bound-append, number-append,
}
use iviadc_aries_askar.Storage.Backend.Placeholders.{
  replace_arg_placeholders, checked_i64, leading_digits, numbered, sub_index, found, prepend,
  replace_from,
}

pub checked_i64-some : (n : ℕ) → n < 2 ^ 63 → checked_i64 n ≡ some n
unfolding checked_i64
checked_i64-some n h = rw (lt→ltb n (2 ^ 63) h) refl

-- The text has no `$`.
unfoldable pub no_dollar : Bytes → Bool
no_dollar [] = true
no_dollar (c ∷ s) = let rest = no_dollar s in if c == b'$' then false else rest

-- The text begins with what is no digit.
abbrev pub Ends : Bytes → Type 0
Ends [] = ⊥
Ends (c ∷ s) = is_digit c ≡ false

leading_digits-append : (ds s : Bytes) → AllDigits ds → Ends s → leading_digits (ds ++ s) ≡ ds
unfolding leading_digits
leading_digits-append [] [] h e = refl
leading_digits-append [] (c ∷ s) h e = rw e refl
leading_digits-append (d ∷ ds) s (h, hs) e =
    rw h (ap (λ t. d ∷ t) (leading_digits-append ds s hs e))

Ends-append : (s t : Bytes) → Ends s → Ends (s ++ t)
Ends-append [] t e = absurd e
Ends-append (c ∷ s) t e = e

prepend_twice : (s t : Bytes) (o : Option Bytes) → prepend s (prepend t o) ≡ prepend (s ++ t) o
prepend_twice s t none = refl
prepend_twice s t (some r) = ap some (sym (append_assoc s t r))

prepend-nil : (o : Option Bytes) → prepend [] o ≡ o
prepend-nil none = refl
prepend-nil (some r) = refl

module _ (show : ℕ → Bytes) (start_index : ℕ) where
  skip_all :
      (index : ℕ) (s t : Bytes)
      → replace_from show start_index index (length s) (s ++ t)
        ≡ replace_from show start_index index 0 t
  unfolding replace_from
  skip_all index [] t = refl
  skip_all index (c ∷ s) t = skip_all index s t

  -- The clause, where `i` arguments stand before it, is replaced by the template's text.
  pub record Fills (i : ℕ) (c : Bytes) (t : Template) : Type 0 where
    pub replaces :
        (s : Bytes)
        → start_index + (i + length (bound t)) < 2 ^ 63
        → replace_from show start_index (start_index + i) 0 (c ++ s)
          ≡ prepend
              (number show (start_index + i) t)
              (replace_from show start_index (start_index + (i + length (bound t))) 0 s)

  pub nil-Fills : (i : ℕ) → Fills i [] []
  unfolding bound number
  nil-Fills i = record {
    replaces = λ s h. let e : i + 0 ≡ i = omega arith in rw e (sym (prepend-nil _));
  }

  pub append-Fills :
      (i : ℕ) (c d : Bytes) (t u : Template)
      → Fills i c t
      → Fills (i + length (bound t)) d u
      → Fills i (c ++ d) (t ++ u)
  append-Fills i c d t u f g = record {
    replaces = λ s h.
        let e : length (bound (t ++ u)) ≡ length (bound t) + length (bound u) =
          rw (bound-append t u) (length-append (bound t) (bound u)) in
        let p : i + length (bound (t ++ u)) ≡ i + length (bound t) + length (bound u) =
          omega arith in
        let q : start_index + i + length (bound t) ≡ start_index + (i + length (bound t)) =
          omega arith in
        rw
          (
            append_assoc c d s,
            f.replaces (d ++ s) (omega arith),
            g.replaces s (omega arith),
            p,
            number-append show (start_index + i) t u,
            q,
          )
          (prepend_twice _ _ _);
  }

  -- A character that is no `$` is copied.
  copy :
      (index c : ℕ) (s : Bytes)
      → (c == b'$') ≡ false
      → replace_from show start_index index 0 (c ∷ s)
        ≡ prepend (c ∷ []) (replace_from show start_index index 0 s)
  unfolding replace_from found
  copy index c s h = rw (replace_from, h) refl

  copy_all :
      (index : ℕ) (s t : Bytes)
      → no_dollar s ≡ true
      → replace_from show start_index index 0 (s ++ t)
        ≡ prepend s (replace_from show start_index index 0 t)
  unfolding no_dollar
  copy_all index [] t h = sym (prepend-nil _)
  copy_all index (c ∷ s) t h =
      let (e, hs) = if-false (c == b'$') (no_dollar s) h in
      rw (copy index c (s ++ t) e, copy_all index s t hs) (prepend_twice (c ∷ []) s _)

  pub text-Fills :
      (i : ℕ) (x c : Bytes) (t : Template)
      → no_dollar x ≡ true
      → Fills i c t
      → Fills i (x ++ c) (text x ∷ t)
  unfolding bound number
  text-Fills i x c t h f = record {
    replaces = λ s lt.
        rw (append_assoc x c s, copy_all (start_index + i) x (c ++ s) h, f.replaces s lt)
          (prepend_twice x _ _);
  }

  -- A `$` with what it finds behind it is replaced.
  replaced :
      (index n taken : ℕ) (s : Bytes)
      → sub_index start_index index s ≡ some (some n, taken)
      → index + 1 < 2 ^ 63
      → replace_from show start_index index 0 (b'$' ∷ s)
        ≡ prepend (show n) (replace_from show start_index (index + 1) taken s)
  unfolding replace_from found
  replaced index n taken s h lt = rw (replace_from, h, checked_i64-some (index + 1) lt) refl

  -- What follows the placeholder of one argument.
  behind_hole :
      (i : ℕ) (a c s : Bytes) (t : Template)
      → Fills (suc i) c t
      → start_index + (i + length (bound (hole a ∷ t))) < 2 ^ 63
      → prepend
          (show (start_index + i))
          (replace_from show start_index (start_index + i + 1) 0 (c ++ s))
        ≡ prepend
            (number show (start_index + i) (hole a ∷ t))
            (replace_from show start_index (start_index + (i + length (bound (hole a ∷ t)))) 0 s)
  unfolding bound number
  behind_hole i a c s t f lt =
      let e : start_index + i + 1 ≡ start_index + suc i = omega arith in
      let p : i + suc (length (bound t)) ≡ suc i + length (bound t) = omega arith in
      let q : suc (start_index + i) ≡ start_index + suc i = omega arith in
      rw (e, f.replaces s (omega (arith, lt)), p, q) (prepend_twice _ _ _)

  hole_fits :
      (i : ℕ) (a : Bytes) (t : Template)
      → start_index + (i + length (bound (hole a ∷ t))) < 2 ^ 63
      → start_index + i + 1 < 2 ^ 63
  unfolding bound
  hole_fits i a t lt = omega (arith, lt)

  next_found :
      (index : ℕ) (s : Bytes) → sub_index start_index index (b'$' ∷ s) ≡ some (some index, 1)
  unfolding sub_index
  next_found index s = refl

  skip_next :
      (index : ℕ) (s : Bytes)
      → replace_from show start_index index 1 (b'$' ∷ s) ≡ replace_from show start_index index 0 s
  unfolding replace_from
  skip_next index s = refl

  pub next-Fills :
      (i : ℕ) (a c : Bytes) (t : Template)
      → Fills (suc i) c t
      → Fills i (b'$' ∷ b'$' ∷ c) (hole a ∷ t)
  next-Fills i a c t f = record {
    replaces = λ s lt.
        rw
          (
            replaced (start_index + i) _ 1 (b'$' ∷ (c ++ s)) (next_found _ (c ++ s))
                (hole_fits i a t lt),
            skip_next (start_index + i + 1) (c ++ s),
          )
          (behind_hole i a c s t f lt);
  }

  number_found :
      (index n : ℕ) (s : Bytes)
      → 0 < start_index
      → Ends s
      → n + start_index < 2 ^ 63
      → sub_index start_index index (display n ++ s)
        ≡ some (some (n + start_index - 1), length (display n))
  unfolding sub_index numbered
  number_found index n s pos ends lt =
      let (d, ds, e) = display-cons n in
      let (hd, hds) = rw e at (display-AllDigits n) in
      let v : value 0 (d ∷ ds) ≡ n = rw (← e) (value-display n) in
      let nd : (d == b'$') ≡ false = ground arith in
      rw
        (
          e,
          nd,
          hd,
          leading_digits-append ds s hds ends,
          numbered,
          v,
          checked_i64-some n (omega arith),
          checked_i64-some (n + start_index) lt,
        )
        refl

  pub number-Fills :
      (i n : ℕ) (a c : Bytes) (t : Template)
      → n ≡ suc i
      → 0 < start_index
      → Ends c
      → Fills (suc i) c t
      → Fills i (b'$' ∷ display n ++ c) (hole a ∷ t)
  number-Fills i n a c t num pos ends f = record {
    replaces = λ s lt.
        let fits = hole_fits i a t lt in
        let e : n + start_index - 1 ≡ start_index + i = omega (arith, num, pos) in
        rw
          (
            append_assoc (display n) c s,
            replaced (start_index + i) _ _ (display n ++ (c ++ s))
                (number_found _ n (c ++ s) pos (Ends-append c s ends) (omega (arith, num, fits)))
                fits,
            skip_all (start_index + i + 1) (display n) (c ++ s),
            e,
          )
          (behind_hole i a c s t f lt);
  }

-- The whole of such a clause.
pub replace-Fills :
    (show : ℕ → Bytes) (start : ℕ) (c : Bytes) (t : Template)
    → Fills show start 0 c t
    → start + length (bound t) < 2 ^ 63
    → replace_arg_placeholders show start c ≡ some (number show start t)
unfolding replace_arg_placeholders replace_from
replace-Fills show start c t f fits =
    let e : start + 0 ≡ start = omega arith in
    let p : start + (0 + length (bound t)) < 2 ^ 63 = omega (arith, fits) in
    let g = rw (append-nil c, e) at (f.replaces [] p) in
    rw (g, append-nil (number show start t)) refl

-- ===== src/Storage/Wql/Template.antt =====
-- Clauses with their arguments in place: what a clause of wql/sql.rs and its list of arguments stand for.
use iviadc_aries_askar.Base.{
  ℕ, suc, ◌+◌, ◌≡◌, refl, sym, ap, List, [], ◌∷◌, ◌++◌, append_assoc, arith, length, Bytes,
}

pub data Piece : Type 0 where
  text : Bytes → Piece
  hole : Bytes → Piece

abbrev pub Template : Type 0
Template = List Piece

-- The arguments from left to right.
unfoldable pub bound : Template → List Bytes
bound [] = []
bound (text s ∷ t) = bound t
bound (hole a ∷ t) = a ∷ bound t

-- The text with placeholders numbered from `n` on.
unfoldable pub number : (ℕ → Bytes) → ℕ → Template → Bytes
number show n [] = []
number show n (text s ∷ t) = s ++ number show n t
number show n (hole a ∷ t) = show n ++ number show (suc n) t

pub bound-append : (s t : Template) → bound (s ++ t) ≡ bound s ++ bound t
unfolding bound
bound-append [] t = refl
bound-append (text x ∷ s) t = bound-append s t
bound-append (hole a ∷ s) t = ap (λ r. a ∷ r) (bound-append s t)

pub number-append :
    (show : ℕ → Bytes) (n : ℕ) (s t : Template)
    → number show n (s ++ t) ≡ number show n s ++ number show (n + length (bound s)) t
unfolding number bound
number-append show n [] t = let e : n + 0 ≡ n = omega arith in rw e refl
number-append show n (text x ∷ s) t =
    rw (number-append show n s t) (sym (append_assoc x (number show n s) _))
number-append show n (hole a ∷ s) t =
    let e : n + suc (length (bound s)) ≡ suc n + length (bound s) = omega arith in
    rw (number-append show (suc n) s t, e) (sym (append_assoc (show n) (number show (suc n) s) _))

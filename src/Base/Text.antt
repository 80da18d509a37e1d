-- ===== src/Base/Text.antt =====
-- Strings cut at a character, as `splitn(2, c)` does, with characters given by their codes.
use Prim.Native.Nat.{ℕ}
use Prim.Native.Char.{code}
use Prim.Native.String.{String}
use mathlib.Core.Path.{◌≡◌, refl}
use mathlib.Core.Bool.{Bool, true, false}
use mathlib.Core.Option.{Option, none, some}
use iviadc_aries_askar.Base.Tests.{◌==◌, if◌then◌else◌}

-- `push_str`
abbrev pub push_str : String → String → String
push_str String.[] t = t
push_str (String.◌∷◌ c s) t = String.◌∷◌ c (push_str s t)

abbrev pub is_empty : String → Bool
is_empty String.[] = true
is_empty (String.◌∷◌ c s) = false

-- `unwrap_or_default`
abbrev pub or_default : Option String → String
or_default none = ""
or_default (some s) = s

-- `splitn(2, c)`: what stands before the first `c`, and what stands behind it if there is one.
abbrev pub split_once : ℕ → String → String × Option String
split_once c String.[] = ("", none)
split_once c (String.◌∷◌ d s) =
    let rest = split_once c s in if code d == c then ("", some s) else (String.◌∷◌ d rest.0, rest.1)

-- The character does not occur.
abbrev pub Lacks : ℕ → String → Type 0
Lacks c String.[] = Unit
Lacks c (String.◌∷◌ d s) = ((code d == c) ≡ false) × Lacks c s

pub split_once-Lacks : (c : ℕ) (s : String) → Lacks c s → split_once c s ≡ (s, none)
split_once-Lacks c String.[] h = refl
split_once-Lacks c (String.◌∷◌ d s) (h, hs) = rw (h, split_once-Lacks c s hs) refl

-- The same as a test.
abbrev pub lacks : ℕ → String → Bool
lacks c String.[] = true
lacks c (String.◌∷◌ d s) = let rest = lacks c s in if code d == c then false else rest

pub if-false : (a b : Bool) → (if a then false else b) ≡ true → (a ≡ false) × (b ≡ true)
if-false true b h = cc
if-false false b h = (refl, h)

pub lacks→Lacks : (c : ℕ) (s : String) → lacks c s ≡ true → Lacks c s
lacks→Lacks c String.[] h = tt
lacks→Lacks c (String.◌∷◌ d s) h =
    let (e, rest) = if-false (code d == c) (lacks c s) h in (e, lacks→Lacks c s rest)

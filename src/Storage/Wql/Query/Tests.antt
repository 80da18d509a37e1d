-- ===== src/Storage/Wql/Query/Tests.antt =====
-- Instances of the theorems on wql/query.rs, and runs that the source's tests have.
use iviadc_aries_askar.Base.{
  ℕ, suc, ◌≡◌, refl, true, false, none, some, [], ◌∷◌, arith, ◌==◌, Result, ok,
}
use iviadc_aries_askar.Storage.Wql.Query.{
  AbstractQuery, and, or, negate, eq, is_in, nil, cons, optimise, map_query,
}
use iviadc_aries_askar.Storage.Wql.Query.Meaning.{Test, sat}
use iviadc_aries_askar.Storage.Wql.Query.Optimise.{optimise_sound}
use iviadc_aries_askar.Storage.Wql.Query.NormalForm.{optimise_normal, IsOptimised}
use iviadc_aries_askar.Storage.Wql.Query.Map.{Keeps, map_query_sound}

-- Names and values as numbers: a name is present, and equal to its own value alone.
abbrev diagonal : Test ℕ ℕ
diagonal = record { compare = λ op k v. k == v; present = λ k. true }

-- NOT (NOT (a OR b)) AND c IN {d}
abbrev sample : AbstractQuery ℕ ℕ
sample = and (
    cons (negate (negate (or (cons (eq 1 1) (cons (eq 2 1) nil)))))
      (cons (and (cons (is_in 3 (3 ∷ [])) nil)) nil))

abbrev sample_optimised : AbstractQuery ℕ ℕ
sample_optimised = and (cons (or (cons (eq 1 1) (cons (eq 2 1) nil))) (cons (eq 3 3) nil))

optimises_sample : optimise sample ≡ some sample_optimised
unfolding optimise
optimises_sample = refl

optimise_sound_example :
    (q : AbstractQuery ℕ ℕ) × (optimise sample ≡ some q) × (sat diagonal q ≡ sat diagonal sample)
optimise_sound_example =
    optimise_sound diagonal sample (tt, ((tt, (tt, (tt, tt))), ((tt, (tt, tt)), tt)))

optimise_normal_example :
    IsOptimised sample_optimised × (optimise sample_optimised ≡ some sample_optimised)
optimise_normal_example = optimise_normal sample sample_optimised optimises_sample

-- An empty disjunction is dropped, although it holds of no entry.
drops_empty_or : (optimise {K = ℕ} {V = ℕ} (or nil) ≡ none) × (sat diagonal (or nil) ≡ false)
unfolding optimise sat
drops_empty_or = (refl, refl)

abbrev shifted : Test ℕ ℕ
shifted = record { compare = λ op k v. k == v; present = λ k. true }

abbrev shift : ℕ → Result ℕ ℕ
shift k = ok (suc k)

shift-Keeps : Keeps {E = ℕ} diagonal shifted shift (λ k v. shift v)
shift-Keeps = record {
  compare_kept = λ op k v k' v' hk hv. ground arith;
  present_kept = λ k k' h. refl;
}

shifts : map_query {E = ℕ} shift (λ k v. shift v) (eq 1 1) ≡ ok (eq 2 2)
unfolding map_query
shifts = refl

map_query_sound_example : sat shifted (eq 2 2) ≡ sat diagonal (eq 1 1)
map_query_sound_example =
    map_query_sound diagonal shifted shift (λ k v. shift v) shift-Keeps (eq 1 1) (eq 2 2) shifts

-- ===== src/Storage/Backend/Scan/Pages.antt =====
-- The pages of a scan hold all rows, in their order.
use iviadc_aries_askar.Base.{
  suc, ◌≤◌, ◌<◌, ◌≡◌, refl, inl, inr, List, [], ◌∷◌, ◌++◌, append_assoc, arith, ◌==◌, Bool-cases,
  length, length-append,
}
use iviadc_aries_askar.Storage.Backend.Scan.{page_size, pages_from, pages, concat}

abbrev pub ArePages {ℓ} : {A : Type ℓ} → List (List A) → Type 0
ArePages [] = Unit
ArePages (page ∷ rest) = (0 < length page) × (length page ≤ page_size) × ArePages rest

length-full {ℓ} :
    {A : Type ℓ} (batch : List A) (row : A) → length (batch ++ (row ∷ [])) ≡ suc (length batch)
length-full batch row = omega (arith, length-append {ℓ} batch (row ∷ []))

concat-pages_from {ℓ} :
    {A : Type ℓ} (rows batch : List A) → concat (pages_from batch rows) ≡ batch ++ rows
unfolding pages_from concat
concat-pages_from [] [] = refl
concat-pages_from [] (b ∷ bs) = refl
concat-pages_from (row ∷ rows) batch =
    elim (Bool-cases (length (batch ++ (row ∷ [])) == page_size)) [
      | inl e ↦ rw (pages_from, e, concat-pages_from rows []) (append_assoc batch (row ∷ []) rows)
      | inr e ↦
          rw (pages_from, e, concat-pages_from rows (batch ++ (row ∷ [])))
            (append_assoc batch (row ∷ []) rows)
    ]

pages_from-ArePages {ℓ} :
    {A : Type ℓ} (rows batch : List A) → length batch < page_size → ArePages (pages_from batch rows)
unfolding pages_from
pages_from-ArePages [] [] h = tt
pages_from-ArePages [] (b ∷ bs) h = (omega arith, omega (arith, h), tt)
pages_from-ArePages (row ∷ rows) batch h =
    elim (Bool-cases (length (batch ++ (row ∷ [])) == page_size)) [
      | inl e ↦
          rw (pages_from, e)
            (
              omega (arith, length-full batch row),
              omega (arith, h, length-full batch row),
              pages_from-ArePages rows [] (omega arith),
            )
      | inr e ↦
          rw (pages_from, e)
            (pages_from-ArePages rows (batch ++ (row ∷ [])) (ground (arith, length-full batch row)))
    ]

-- A scan yields no empty page and no page of more than 32 rows, and its pages hold all rows in their order.
pub pages_lem {ℓ} :
    {A : Type ℓ} (rows : List A) → ArePages (pages rows) × (concat (pages rows) ≡ rows)
unfolding pages
pages_lem rows = (pages_from-ArePages rows [] (omega arith), concat-pages_from rows [])

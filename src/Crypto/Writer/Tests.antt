-- ===== src/Crypto/Writer/Tests.antt =====
-- Runs and instances of the theorems on writer.rs.
use iviadc_aries_askar.Base.{◌+◌, ◌≡◌, refl, [], ◌∷◌, arith, length, replicate}
use iviadc_aries_askar.Crypto.Writer.{
  Writer, done, panicked, as_ref, buffer_write, buffer_insert, buffer_resize, from_slice,
}
use iviadc_aries_askar.Crypto.Writer.Laws.{
  Leaves, buffer_insert-Leaves, buffer_insert_panics, buffer_resize_adds,
}

-- "hey" in a slice of ten bytes.
abbrev hey : Writer
hey = record { inner = 104 ∷ 101 ∷ 121 ∷ 0 ∷ 0 ∷ 0 ∷ 0 ∷ 0 ∷ 0 ∷ 0 ∷ []; pos = 3 }

writes_hey : buffer_write (from_slice (replicate 10 0)) (104 ∷ 101 ∷ 121 ∷ []) ≡ done hey
unfolding buffer_write from_slice
writes_hey = refl

buffer_insert-Leaves_example :
    Leaves hey (104 ∷ 101 ∷ 1 ∷ 2 ∷ 121 ∷ []) (buffer_insert hey 2 (1 ∷ 2 ∷ []))
unfolding as_ref
buffer_insert-Leaves_example =
    buffer_insert-Leaves hey 2 (1 ∷ 2 ∷ []) (omega arith) (omega arith) (omega arith) (omega arith)
      (omega arith)

buffer_insert_panics_example : buffer_insert hey 0 (1 ∷ []) ≡ panicked
buffer_insert_panics_example = buffer_insert_panics hey 0 (1 ∷ []) (omega arith) (omega arith)

buffer_resize_adds_example :
    (w : Writer) × (buffer_resize hey 5 ≡ done w) × (length (as_ref w) ≡ length (as_ref hey) + 5)
buffer_resize_adds_example = buffer_resize_adds hey 5 (omega arith)

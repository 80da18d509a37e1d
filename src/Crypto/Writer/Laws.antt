-- ===== src/Crypto/Writer/Laws.antt =====
-- What the methods of writer.rs do to the content.
use iviadc_aries_askar.Base.{
  ℕ, ◌+◌, ◌-◌, ◌≤◌, ◌<◌, ◌≡◌, refl, sym, ap, ◌∙◌, false, ◌++◌, append_assoc, arith, ltb, length,
  take, drop, length-append, length-take, length-drop, Bytes, take-append_of, drop-append_of,
  drop-drop, drop-take, take-take, drop-append_le,
}
use iviadc_aries_askar.Crypto.Writer.{
  exceeded_buffer, failed, Writer, Outcome, done, panicked, as_ref, copy_at, copy_within,
  buffer_write, buffer_insert, buffer_remove, buffer_resize,
}

-- The position stands within the slice.
abbrev pub IsValid : Writer → Type 0
IsValid w = w.pos ≤ length w.inner

-- A method that ended well, with this content, in a valid writer over a slice of the same length.
abbrev pub Leaves : Writer → Bytes → Outcome Writer → Type 0
Leaves w content o =
    (w' : Writer) × (o ≡ done w')
    × (as_ref w' ≡ content)
    × IsValid w'
    × (length w'.inner ≡ length w.inner)

length-copy_at :
    (xs : Bytes) (at : ℕ) (ys : Bytes)
    → at + length ys ≤ length xs
    → length (copy_at xs at ys) ≡ length xs
unfolding copy_at
length-copy_at xs at ys h = omega (
  arith,
  length-append (take at xs) (ys ++ drop (at + length ys) xs),
  length-append ys (drop (at + length ys) xs),
  length-take at xs,
  length-drop (at + length ys) xs,
)

-- The content up to the end of what was copied in.
take-copy_at :
    (xs : Bytes) (at : ℕ) (ys : Bytes)
    → at ≤ length xs
    → take (at + length ys) (copy_at xs at ys) ≡ take at xs ++ ys
unfolding copy_at
take-copy_at xs at ys h =
    let len : length (take at xs ++ ys) ≡ at + length ys =
      omega (arith, length-append (take at xs) ys, length-take at xs) in
    rw (← append_assoc (take at xs) ys (drop (at + length ys) xs))
      (take-append_of (at + length ys) (take at xs ++ ys) (drop (at + length ys) xs) len)

not-ltb : (a b : ℕ) → b ≤ a → ltb a b ≡ false
not-ltb a b h = ground arith

-- A write that fits appends its bytes to the content.
pub buffer_write-Leaves :
    (w : Writer) (ys : Bytes)
    → IsValid w
    → w.pos + length ys ≤ length w.inner
    → Leaves w (as_ref w ++ ys) (buffer_write w ys)
unfolding buffer_write as_ref
buffer_write-Leaves w ys v fits = rw (not-ltb (length w.inner) (w.pos + length ys) fits) (
  record { inner = copy_at w.inner w.pos ys; pos = w.pos + length ys },
  refl,
  take-copy_at w.inner w.pos ys v,
  rw (length-copy_at w.inner w.pos ys fits) fits,
  length-copy_at w.inner w.pos ys fits,
)

-- The bytes that an insertion moves up, and how many they are.
moved : Writer → ℕ → ℕ → Bytes
moved w p d = take (w.pos - (p - d)) (drop (p - d) w.inner)

length-moved :
    (w : Writer) (p d : ℕ) → IsValid w → p ≤ w.pos → d ≤ p → length (moved w p d) ≡ w.pos - p + d
unfolding moved
length-moved w p d v hp hd =
    omega (arith, length-take (w.pos - (p - d)) (drop (p - d) w.inner), length-drop (p - d) w.inner)

-- The slice after the move.
shifted : Writer → ℕ → ℕ → Bytes
unfolding moved copy_at
shifted w p d = copy_at w.inner p (moved w p d)

length-shifted :
    (w : Writer) (p d : ℕ)
    → IsValid w
    → p ≤ w.pos
    → d ≤ p
    → w.pos + d ≤ length w.inner
    → length (shifted w p d) ≡ length w.inner
unfolding shifted
length-shifted w p d v hp hd fits =
    length-copy_at w.inner p (moved w p d) (omega (arith, length-moved w p d v hp hd))

buffer_insert-eq :
    (w : Writer) (p : ℕ) (ys : Bytes)
    → IsValid w
    → p ≤ w.pos
    → 0 < length ys
    → length ys ≤ p
    → w.pos + length ys ≤ length w.inner
    → buffer_insert w p ys
      ≡ done (record { inner = copy_at (shifted w p (length ys)) p ys; pos = w.pos + length ys })
unfolding buffer_insert shifted copy_within moved
buffer_insert-eq w p ys v hp ne hd fits =
    ground (arith, length-shifted w p (length ys) v hp hd fits)

-- What stands behind the inserted bytes: the old content from there on, and the rest of the slice.
drop-shifted :
    (w : Writer) (p d : ℕ)
    → IsValid w
    → p ≤ w.pos
    → d ≤ p
    → drop (p + d) (shifted w p d)
      ≡ take (w.pos - p) (drop p w.inner) ++ drop (p + length (moved w p d)) w.inner
unfolding shifted copy_at
drop-shifted w p d v hp hd =
    let rest = drop (p + length (moved w p d)) w.inner in
    let at : drop p (take p w.inner ++ (moved w p d ++ rest)) ≡ moved w p d ++ rest =
      drop-append_of p (take p w.inner) (moved w p d ++ rest)
        (omega (arith, length-take p w.inner)) in
    let len = length-moved w p d v hp hd in
    let count : w.pos - (p - d) - d ≡ w.pos - p = omega arith in
    let place : p - d + d ≡ p = omega arith in
    sym (drop-drop d p (take p w.inner ++ (moved w p d ++ rest)))
    ∙ rw (at, drop-append_le d (moved w p d) rest (omega arith))
        (ap (λ t. t ++ rest)
          (unfold moved in
            (drop-take d (w.pos - (p - d)) (drop (p - d) w.inner)
              ∙ rw (drop-drop d (p - d) w.inner, count, place))))

take-shifted :
    (w : Writer) (p d : ℕ) → IsValid w → p ≤ w.pos → take p (shifted w p d) ≡ take p w.inner
unfolding shifted copy_at
take-shifted w p d v hp =
    take-append_of p (take p w.inner) (moved w p d ++ drop (p + length (moved w p d)) w.inner)
      (omega (arith, length-take p w.inner))

-- An insertion of at least one byte into a valid writer, at a place of the content that is at least as far in
-- as the inserted bytes are long, and that fits into the slice: the content is then the old one with the
-- bytes put in at the place, and the writer is valid.
pub buffer_insert-Leaves :
    (w : Writer) (p : ℕ) (ys : Bytes)
    → IsValid w
    → p ≤ w.pos
    → 0 < length ys
    → length ys ≤ p
    → w.pos + length ys ≤ length w.inner
    → Leaves w (take p (as_ref w) ++ (ys ++ drop p (as_ref w))) (buffer_insert w p ys)
unfolding as_ref
buffer_insert-Leaves w p ys v hp ne hd fits =
    let d = length ys in
    let s = shifted w p d in
    let len : length s ≡ length w.inner = length-shifted w p d v hp hd fits in
    let tail = take (w.pos - p) (drop p w.inner) in
    let front = take p w.inner ++ (ys ++ tail) in
    let rest = drop (p + length (moved w p d)) w.inner in
    let whole : copy_at s p ys ≡ front ++ rest =
      unfold copy_at in
      rw (take-shifted w p d v hp, drop-shifted w p d v hp hd) (simp append_assoc) in
    let len_front : length front ≡ w.pos + d = omega (
      arith,
      length-append (take p w.inner) (ys ++ tail),
      length-append ys tail,
      length-take p w.inner,
      length-take (w.pos - p) (drop p w.inner),
      length-drop p w.inner,
    ) in
    rw (buffer_insert-eq w p ys v hp ne hd fits) (
      record { inner = copy_at s p ys; pos = w.pos + d },
      refl,
      rw (
        whole,
        take-append_of (w.pos + d) front rest len_front,
        take-take p w.pos w.inner hp,
        drop-take p w.pos w.inner,
      ),
      omega (arith, length-copy_at s p ys (omega arith)),
      omega (arith, length-copy_at s p ys (omega arith)),
    )

-- An insertion that fits into the slice panics whenever the inserted bytes are longer than the place is far in,
-- so also at place 0.
pub buffer_insert_panics :
    (w : Writer) (p : ℕ) (ys : Bytes)
    → p < length ys
    → w.pos + length ys ≤ length w.inner
    → buffer_insert w p ys ≡ panicked
unfolding buffer_insert
buffer_insert_panics w p ys h fits = ground arith

-- A removal from a valid writer of a range of its content leaves the content before and after the range, and a
-- valid writer.
pub buffer_remove-Leaves :
    (w : Writer) (a b : ℕ)
    → IsValid w
    → a ≤ b
    → b ≤ w.pos
    → Leaves w (take a (as_ref w) ++ drop b (as_ref w)) (buffer_remove w a b)
unfolding as_ref
buffer_remove-Leaves w a b v hab hb =
    let moved_down = take (w.pos - b) (drop b w.inner) in
    let len : length moved_down ≡ w.pos - b =
      omega (arith, length-take (w.pos - b) (drop b w.inner), length-drop b w.inner) in
    let after = copy_at w.inner a moved_down in
    let eq : buffer_remove w a b ≡ done (record { inner = after; pos = w.pos - (b - a) }) =
      unfold buffer_remove copy_within in ground arith in
    let count : w.pos - (b - a) ≡ a + length moved_down = omega arith in
    rw eq (
      record { inner = after; pos = w.pos - (b - a) },
      refl,
      rw (
        count,
        take-copy_at w.inner a moved_down (omega arith),
        take-take a w.pos w.inner (omega arith),
        drop-take b w.pos w.inner,
      ),
      omega (arith, length-copy_at w.inner a moved_down (omega arith)),
      length-copy_at w.inner a moved_down (omega arith),
    )

-- A write to a valid writer appends the bytes to the content, and leaves a valid writer, if they fit into the
-- slice; if not, it fails with `ExceededBuffer`.
pub buffer_write_lem :
    (w : Writer) (ys : Bytes)
    → IsValid w
    → (w.pos + length ys ≤ length w.inner → Leaves w (as_ref w ++ ys) (buffer_write w ys))
      × (length w.inner < w.pos + length ys → buffer_write w ys ≡ failed exceeded_buffer)
buffer_write_lem w ys v = (buffer_write-Leaves w ys v, λ full. unfold buffer_write in ground arith)

-- A resizing to a length that fits behind the content makes the content longer by that length, instead of
-- giving it that length.
pub buffer_resize_adds :
    (w : Writer) (len : ℕ)
    → w.pos + len ≤ length w.inner
    → (w' : Writer) × (buffer_resize w len ≡ done w')
      × (length (as_ref w') ≡ length (as_ref w) + len)
unfolding buffer_resize as_ref
buffer_resize_adds w len fits = (
  record w { pos = w.pos + len },
  ground arith,
  omega (arith, length-take (w.pos + len) w.inner, length-take w.pos w.inner),
)

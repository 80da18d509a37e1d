-- ===== src/Crypto/Writer.antt =====
-- The writer over a byte slice: `Writer<'_, [u8]>` of askar-crypto/src/buffer/writer.rs. The slice has a
-- fixed length; the writer's content is its first `pos` bytes. A failed assertion, an underflow and an
-- index out of range are a panic.
pub mod Laws
mod Tests
use iviadc_aries_askar.Base.{
  ℕ, ◌+◌, ◌-◌, Bool, ◌&&◌, ◌++◌, ltb, leb, if◌then◌else◌, length, take, drop, Bytes,
}
use iviadc_aries_askar.Crypto.Error.{ErrorKind, exceeded_buffer}

pub record Writer : Type 0 where
  pub inner : Bytes
  pub pos : ℕ

-- What a method comes to: the writer afterwards, an error that leaves the writer as it was, or a panic.
pub data Outcome {ℓ} (A : Type ℓ) : Type ℓ where
  done : A → Outcome A
  failed : ErrorKind → Outcome A
  panicked : Outcome A

-- `?` on a method's result
abbrev pub and_then {ℓ κ} : {A : Type ℓ} {B : Type κ} → Outcome A → (A → Outcome B) → Outcome B
and_then (done a) f = f a
and_then (failed e) f = failed e
and_then panicked f = panicked

unfoldable pub from_slice : Bytes → Writer
from_slice slice = record { inner = slice; pos = 0 }

unfoldable pub from_slice_position : Bytes → ℕ → Writer
from_slice_position slice pos = record { inner = slice; pos = pos }

-- `position`
unfoldable pub position : Writer → ℕ
position w = w.pos

-- `as_ref`, for a writer whose position is in range.
unfoldable pub as_ref : Writer → Bytes
as_ref w = take w.pos w.inner

-- `slice[at..at + data.len()].copy_from_slice(data)`, in range.
unfoldable pub copy_at : Bytes → ℕ → Bytes → Bytes
copy_at xs at data' = take at xs ++ (data' ++ drop (at + length data') xs)

-- `slice.copy_within(a..b, dest)`, in range.
unfoldable pub copy_within : Bytes → ℕ → ℕ → ℕ → Bytes
unfolding copy_at
copy_within xs a b dest = copy_at xs dest (take (b - a) (drop a xs))

-- The range checks of `copy_within`.
abbrev pub within : Bytes → ℕ → ℕ → ℕ → Bool
within xs a b dest = leb a b && (leb b (length xs) && leb (dest + (b - a)) (length xs))

unfoldable pub buffer_write : Writer → Bytes → Outcome Writer
unfolding copy_at
buffer_write w data' =
    if ltb (length w.inner) (w.pos + length data')
    then failed exceeded_buffer
    else done (record { inner = copy_at w.inner w.pos data'; pos = w.pos + length data' })

-- The loop at the end of `splice`: the bytes are put in one by one.
unfoldable pub put_all : Bytes → ℕ → Bytes → ℕ → Outcome Writer
unfolding copy_at
put_all inner start data' pos =
    if ltb (length inner) (start + length data')
    then panicked
    else done (record { inner = copy_at inner start data'; pos = pos })

unfoldable pub splice : Writer → ℕ → ℕ → Bytes → Outcome Writer
unfolding copy_within put_all
splice w start end data' =
    let rem_len = end - start in
    let ins_len = length data' in
    let more = ins_len - rem_len in
    let less = rem_len - ins_len in
    if ltb end start
    then panicked
    else if ltb rem_len ins_len
    then (if ltb (length w.inner) (w.pos + more)
        then failed exceeded_buffer
        else if ltb end more
        then panicked
        else if within w.inner (end - more) w.pos end
        then put_all (copy_within w.inner (end - more) w.pos end) start data' (w.pos + more)
        else panicked)
    else if ltb ins_len rem_len
    then (if within w.inner end w.pos (end - less)
        then put_all (copy_within w.inner end w.pos (end - less)) start data' (w.pos - less)
        else panicked)
    else put_all w.inner start data' w.pos

unfoldable pub buffer_insert : Writer → ℕ → Bytes → Outcome Writer
unfolding splice
buffer_insert w at data' = splice w at at data'

unfoldable pub buffer_remove : Writer → ℕ → ℕ → Outcome Writer
unfolding copy_within
buffer_remove w start end =
    if ltb end start
    then panicked
    else if within w.inner end w.pos start
    then done (record { inner = copy_within w.inner end w.pos start; pos = w.pos - (end - start) })
    else panicked

unfoldable pub buffer_resize : Writer → ℕ → Outcome Writer
buffer_resize w len =
    if ltb (length w.inner) (w.pos + len)
    then failed exceeded_buffer
    else done (record w { pos = w.pos + len })

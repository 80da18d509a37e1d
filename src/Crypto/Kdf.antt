-- ===== src/Crypto/Kdf.antt =====
-- Key derivation: the ConcatKDF of askar-crypto/src/kdf/concat.rs, and the agreements ECDH-ES and ECDH-1PU
-- of kdf/ecdh_es.rs and kdf/ecdh_1pu.rs over it. The hash function and the key exchange are crates that
-- the source calls: they are parameters.
pub mod KeyPair
mod Concat
mod Agreement
mod Tests
use iviadc_aries_askar.Base.{
  ℕ, zero, suc, ◌+◌, ◌-◌, ◌*◌, ◌%◌, ◌^◌, ◌<◌, ◌≡◌, Bool, Option, none, some, [], ◌∷◌, ◌++◌, ltb,
  ◌==◌, if◌then◌else◌, length, take, replicate, Bytes, Result, ok, err, ◌>>=◌,
}
use Prim.Native.Nat.{min}
use iviadc_aries_askar.Crypto.Bits.{to_be_bytes}
use iviadc_aries_askar.Crypto.Error.{ErrorKind, exceeded_buffer, unexpected, usage, unsupported}
use iviadc_aries_askar.Crypto.Writer.{
  and_then, Writer, Outcome, done, failed, panicked, buffer_write, as_ref,
}

-- A hash function: the length of its output, and its output for all that was fed to it.
pub record Hash : Type 0 where
  pub output_size : ℕ
  pub digest : Bytes → Bytes

pub record IsHash (h : Hash) : Type 0 where
  pub output_pos : 0 < h.output_size
  pub length_digest : (m : Bytes) → length (h.digest m) ≡ h.output_size

pub record ConcatKdfParams : Type 0 where
  pub alg : Bytes
  pub apu : Bytes
  pub apv : Bytes
  pub pub_info : Bytes
  pub prv_info : Bytes

-- The hasher is what was fed to it since its last reset; the counter is a `u32`.
pub record ConcatKdfHash : Type 0 where
  pub hasher : Bytes
  pub counter : ℕ

-- `new`
abbrev pub new_kdf : ConcatKdfHash
new_kdf = record { hasher = []; counter = 1 }

-- `self.hasher.update(data)`, also `hash_message` and `buffer_write`
unfoldable pub hash_message : Bytes → ConcatKdfHash → ConcatKdfHash
hash_message data' k = record k { hasher = k.hasher ++ data' }

unfoldable pub start_pass : ConcatKdfHash → ConcatKdfHash
start_pass k = record {
  hasher = k.hasher ++ to_be_bytes 4 k.counter;
  counter = (k.counter + 1) % 2 ^ 32;
}

-- A field behind its length, as `hash_params` feeds it.
unfoldable pub sized : Bytes → Bytes
sized field = to_be_bytes 4 (length field) ++ field

-- All that `hash_params` feeds to the hasher, in its order.
unfoldable pub params_bytes : ConcatKdfParams → Bytes
unfolding sized
params_bytes p = sized p.alg ++ (sized p.apu ++ (sized p.apv ++ (p.pub_info ++ p.prv_info)))

unfoldable pub hash_params : ConcatKdfParams → ConcatKdfHash → ConcatKdfHash
unfolding hash_message params_bytes
hash_params p k = hash_message (params_bytes p) k

module _ (h : Hash) where
  -- `finalize_reset`
  unfoldable pub finish_pass : ConcatKdfHash → Bytes × ConcatKdfHash
  finish_pass k = (h.digest k.hasher, record k { hasher = [] })

  -- The loop of `derive_key`; `none` means that the fuel ran out.
  unfoldable pub derive_loop : ℕ → Bytes → ConcatKdfParams → ConcatKdfHash → ℕ → Option Bytes
  unfolding start_pass hash_message hash_params finish_pass
  derive_loop zero message params k remain = none
  derive_loop (suc fuel) message params k remain =
      let (hashed, k') = finish_pass (hash_params params (hash_message message (start_pass k))) in
      let cp_size = min (length hashed) remain in
      let rest = derive_loop fuel message params k' (remain - cp_size) in
      if remain == 0
      then some []
      else elim rest [ none ↦ none | some out ↦ some (take cp_size hashed ++ out) ]

  -- `derive_key` for an output of `output_len` bytes. Each pass writes at least one byte.
  unfoldable pub derive_key : Bytes → ConcatKdfParams → ℕ → Option (Result Bytes ErrorKind)
  unfolding derive_loop
  derive_key message params output_len =
      if ltb (h.output_size * (2 ^ 32 - 1) - 1) output_len
      then some (err usage)
      else elim (derive_loop (suc output_len) message params new_kdf output_len) [
        | none ↦ none
        | some out ↦ some (ok out)
      ]

-- The key types that agree on a shared secret: `KeyExchange`, as the bytes that it writes.
pub record KeyExchange : Type 1 where
  pub Key : Type 0
  pub exchange : Key → Key → Result Bytes ErrorKind

-- `Writer::from_slice(&mut [0u8; 132])`
abbrev pub pub_info_buffer : Writer
pub_info_buffer = record { inner = replicate 132 0; pos = 0 }

-- The writes of the tag, if it is not empty.
unfoldable pub write_tag : Bytes → Writer → Outcome Writer
write_tag [] w = done w
write_tag (t ∷ ts) w =
    and_then (buffer_write w (to_be_bytes 4 (length (t ∷ ts)))) (λ w'. buffer_write w' (t ∷ ts))

-- The public information of ECDH-1PU, written into a buffer of 132 bytes.
unfoldable pub write_pub_info : ℕ → Bytes → Outcome Writer
write_pub_info output_len cc_tag =
    and_then (buffer_write pub_info_buffer (to_be_bytes 4 (output_len * 8))) (write_tag cc_tag)

module _ (h : Hash) (x : KeyExchange) where
  open x use {Key, exchange}

  -- The last steps that both agreements share.
  unfoldable pub derive_one_pass : Bytes → ConcatKdfParams → ℕ → Bytes
  unfolding start_pass hash_message hash_params finish_pass
  derive_one_pass z params output_len =
      take output_len (finish_pass h (hash_params params (hash_message z (start_pass new_kdf)))).0

  -- `EcdhEs::derive_key_bytes`, for an output of `output_len` bytes.
  unfoldable pub ecdh_es : Key → Key → Bytes → Bytes → Bytes → Bool → ℕ → Result Bytes ErrorKind
  unfolding derive_one_pass
  ecdh_es ephem recip alg apu apv receive output_len =
      if ltb 32 output_len then err unsupported else do
        z ← if receive then exchange recip ephem else exchange ephem recip
        ok (
            derive_one_pass z
              (record {
                alg = alg;
                apu = apu;
                apv = apv;
                pub_info = to_be_bytes 4 (output_len * 8);
                prv_info = [];
              })
              output_len)

  -- The shared secret of ECDH-1PU: Ze, then Zs.
  unfoldable pub exchange_both : Key → Key → Key → Bool → Result Bytes ErrorKind
  exchange_both ephem send recip receive = do
    ze ← if receive then exchange recip ephem else exchange ephem recip
    zs ← if receive then exchange recip send else exchange send recip
    ok (ze ++ zs)

  -- `Ecdh1PU::derive_key_bytes`. Its writes do not panic: that case has no counterpart.
  unfoldable pub ecdh_1pu :
      Key → Key → Key → Bytes → Bytes → Bytes → Bytes → Bool → ℕ → Result Bytes ErrorKind
  ecdh_1pu ephem send recip alg apu apv cc_tag receive output_len =
      if ltb 32 output_len
      then err unsupported
      else if ltb 128 (length cc_tag)
      then err unsupported
      else do
        z ← exchange_both ephem send recip receive
        elim (write_pub_info output_len cc_tag) [
          | done w ↦ ok (
              derive_one_pass z
                (record { alg = alg; apu = apu; apv = apv; pub_info = as_ref w; prv_info = [] })
                output_len)
          | failed e ↦ err e
          | panicked ↦ err unexpected
        ]

-- ===== src/Storage/Protect/Kdf.antt =====
-- Derivation of a store key from a password: askar-storage/src/protect/kdf/mod.rs and kdf/argon2.rs. Argon2, the
-- decoding of hexadecimal text and the random salt are not of the source: they are parameters.
use iviadc_aries_askar.Base.{
  ℕ, zero, suc, ◌/◌, ◌%◌, String, ◌&&◌, Option, none, some, [], ◌∷◌, if◌then◌else◌, Bytes, Result,
  ok, err, ◌>>=◌,
}
use iviadc_aries_askar.Base.Text.{push_str, is_empty, or_default, split_once}
use iviadc_aries_askar.Crypto.Error as Crypto
use iviadc_aries_askar.Storage.Error.{ErrorKind, input, unsupported}
use iviadc_aries_askar.Storage.Options.{UrlText, Options, parse_uri, get}
use iviadc_aries_askar.Storage.Protect.ProfileKey.{lift}
use Prim.Native.Char.{Char}

pub data Level : Type 0 where
  interactive moderate : Level

abbrev pub default_level : Level
default_level = moderate

unfoldable pub from_str : String → Option Level
from_str level =
    if text.Mathlib.Text.◌==◌ level "int"
    then some interactive
    else if text.Mathlib.Text.◌==◌ level "13:int"
    then some interactive
    else if text.Mathlib.Text.◌==◌ level "mod"
    then some moderate
    else if text.Mathlib.Text.◌==◌ level "13:mod"
    then some moderate
    else if is_empty level
    then some default_level
    else none

unfoldable pub as_str : Level → String
as_str interactive = "13:int"
as_str moderate = "13:mod"

pub data KdfMethod : Type 0 where
  argon2i : Level → KdfMethod

-- The detail behind its question mark, and nothing for an empty one.
abbrev pub with_mark : String → String
with_mark detail = if is_empty detail then "" else push_str "?" detail

-- `KdfMethod::decode`: `splitn(3, ':')` is two cuts.
unfoldable pub decode : String → Result (KdfMethod × String) ErrorKind
decode uri =
    let (prefix, remain) = split_once b':' uri in
    let (method, remain') = split_once b':' (or_default remain) in
    let (level, detail) = split_once b'?' (or_default remain') in
    if text.Mathlib.Text.◌==◌ prefix "kdf" && text.Mathlib.Text.◌==◌ method "argon2i"
    then (elim (from_str level) [
      | some l ↦ ok (argon2i l, with_mark (or_default detail))
      | none ↦ err unsupported
    ])
    else err unsupported

-- `KdfMethod::encode`
unfoldable pub encode : KdfMethod → Option String → String
encode (argon2i level) detail =
    push_str "kdf:argon2i:" (push_str (as_str level) (or_default detail))

-- The digits of `{:02x}`.
abbrev pub nth : String → ℕ → Char
nth String.[] n = "0"
nth (String.◌∷◌ c s) zero = c
nth (String.◌∷◌ c s) (suc n) = nth s n

unfoldable pub hex_digit : ℕ → Char
hex_digit n = nth "0123456789abcdef" n

-- `as_hex`, printed by `HexRepr`
unfoldable pub as_hex : Bytes → String
as_hex [] = ""
as_hex (b ∷ bs) = String.◌∷◌ (hex_digit (b / 16)) (String.◌∷◌ (hex_digit (b % 16)) (as_hex bs))

-- Argon2 with the parameters of a level, and `hex::decode_to_slice` for a salt.
pub record Argon2 : Type 1 where
  pub Key : Type 0
  pub derive : Level → String → Bytes → Result Key Crypto.ErrorKind
  pub decode_salt : String → Option Bytes

module _ (u : UrlText) (a : Argon2) where
  open a use {Key, derive, decode_salt}

  unfoldable pub parse_salt : String → Result Bytes ErrorKind
  parse_salt detail = elim (get "salt" (Options.query (parse_uri u detail))) [
    | some salt ↦ elim (decode_salt salt) [ some s ↦ ok s | none ↦ err input ]
    | none ↦ err input
  ]

  -- `derive_new_key`, with the random salt.
  unfoldable pub derive_new_key : Bytes → KdfMethod → String → Result (Key × String) ErrorKind
  derive_new_key salt (argon2i level) password = do
    key ← lift (derive level password salt)
    ok (key, push_str "?salt=" (as_hex salt))

  unfoldable pub derive_key : KdfMethod → String → String → Result Key ErrorKind
  derive_key (argon2i level) password detail = do
    salt ← parse_salt detail
    lift (derive level password salt)

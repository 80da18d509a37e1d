-- ===== src/Lib.antt =====
-- A verification library for Aries Askar, the secure storage and cryptography library: the crates askar-crypto and
-- askar-storage.
--
-- The program. askar-crypto holds keys, ciphers, key derivation and the buffers that they write to. askar-storage keeps
-- encrypted entries in a database: a store key, derived from a password or given raw, wraps the profile keys;
-- a profile key encrypts the category, name, value and tags of each entry; a query in the wallet query language is
-- turned into tests on the encrypted tags; a session holds a connection and its transactions. The modules below
-- follow these two crates.
--
-- Base: shared names; Base.Tests (Boolean tests), Base.Lists (lists over the native numbers), Base.Results (Rust's
--   Result and `?`), Base.Text (strings cut at a character), Base.Decimal (numbers printed and read).
-- Crypto.Error: the kinds of askar-crypto/src/error.rs.
-- Crypto.Bits: exclusive or of byte strings, big-endian integers.
-- Crypto.KeyWrap: `AesKeyWrap::encrypt_in_place` and `decrypt_in_place` of askar-crypto/src/alg/aes/key_wrap.rs.
--   Pass, Rounds, RoundTrip and Accept prove what one pass, all rounds and the whole operations do.
-- Crypto.CbcHmac: AES-CBC-HMAC of askar-crypto/src/alg/aes/cbc_hmac.rs, on a `Vec<u8>` or a `SecretBytes`.
-- Crypto.Writer: `Writer<[u8]>` of askar-crypto/src/buffer/writer.rs: the slice and the position; a panic is an
--   outcome of its own.
-- Crypto.Kdf: `ConcatKDF` (askar-crypto/src/kdf/concat.rs), `EcdhEs` (kdf/ecdh_es.rs), `Ecdh1PU` (kdf/ecdh_1pu.rs,
--   which writes through Crypto.Writer). Kdf.KeyPair is `X25519KeyPair` of alg/x25519.rs and its exchange. Concat and
--   Agreement prove what they derive.
-- Crypto.Jwk.Ops: `KeyOps` and `KeyOpsSet` of askar-crypto/src/jwk/ops.rs; a set is the word that the code keeps. Union
--   evaluates it at every word of eight bits, Visit reads lists of names.
-- Crypto.Alg: `KeyAlg` of askar-crypto/src/alg/mod.rs, its names and `normalize_alg`.
-- Storage.Error: the kinds of askar-storage/src/error.rs and the conversion from those of askar-crypto.
-- Storage.Wql.Ops, Storage.Wql.Query: `CompareOp` and `ConjunctionOp` of askar-storage/src/wql/tags.rs, and
--   `AbstractQuery` of wql/query.rs with `optimise`, `map`, `map_names`, `map_values`; a query holding a list of
--   queries is two data types.
-- Storage.Wql.Json: `to_value`, `parse_query` and `deserialize` of wql/query.rs, on JSON values.
-- Storage.Wql.Tags: `tag_query`, `TagQueryEncoder` and `encode_tag_query` of wql/tags.rs; the encoder is a record of
--   operations, and what an encoder must promise is stated apart from it (Tags.Denotes).
-- Storage.Wql.Sql: `TagSqlEncoder` of wql/sql.rs, an instance of that encoder: a clause with `$N` and `$$`, and the
--   list of arguments. Sql.Inline is a second encoder, which writes each argument where it belongs in a
--   Storage.Wql.Template; it is what the first is held against. Sql.Predicate is what the SQL asks of the rows of an
--   entry's encrypted tags; Sql.Selects and Sql.Denotes find a predicate for each clause.
-- Storage.Options: `Options::parse_uri` and `into_uri` of askar-storage/src/options.rs.
-- Storage.Protect.ProfileKey: `ProfileKeyImpl` of askar-storage/src/protect/profile_key.rs with `HmacDeriver` of
--   hmac_key.rs, and `NullEncryptor` of protect/mod.rs.
-- Storage.Protect.Kdf, Storage.Protect.StoreKey: `KdfMethod` and `Level` of protect/kdf/mod.rs and kdf/argon2.rs,
--   `StoreKey`, `StoreKeyMethod`, `StoreKeyReference` of protect/store_key.rs and `PassKey` of pass_key.rs.
--   StoreKey.Uri, StoreKey.RoundTrip and StoreKey.Wrap are about the URIs, the opening of a store and wrapped data.
-- Storage.Session: `DbSession`, `DbSessionActive` and `DbSessionTxn` of askar-storage/src/backend/db_utils.rs.
--   A state is the session; a step is one of their operations (Session.Reach). `start_transaction` of sqlite/mod.rs
--   makes a database of a SQLite connection (Session.Sqlite).
-- Storage.Backend: the rest of db_utils.rs, which the backends share. Backend.Placeholders is
--   `replace_arg_placeholders`, Backend.Filter `encode_tag_filter` (Filter.Clauses, Filter.Agree and Filter.Placed go
--   through the clauses and the queries, Filter.Sound says what the filter asks of an entry), Backend.Params `QueryParams`, `QueryPrepare` and `extend_query`,
--   Backend.TagText `decode_tags` and the text that the statements build of tags, Backend.Scan the pages of
--   `perform_scan` and `decrypt_scan_batch`.
-- Storage.Entry: `Entry` and `EntryKind` of askar-storage/src/entry.rs.
-- Storage.Sqlite: the tables of a SQLite store (askar-storage/src/backend/sqlite/provision.rs) and its statements as
--   functions on rows (sqlite/mod.rs). Sqlite.Entries is `update`, `fetch`, `perform_insert` and `perform_remove`, which
--   encrypt through Storage.Protect.ProfileKey and read tags through Backend.TagText; Rows, Found, Stored, Removed,
--   Invariant and Kept prove what they do. Sqlite.Profiles is `create_profile`, `remove_profile`, `rekey` and
--   `resolve_profile_key` with `KeyCache` of protect/mod.rs.
-- The modules named Tests hold runs and instances of the theorems.
--
-- Conventions. A byte is a native number, in the program below 256; a word keeps its wrap-around (`% 2 ^ 32`). An error
-- is its kind; messages and causes are left out. Where the code panics, the result says so: an outcome of
-- its own in Crypto.Writer, `none` in Storage.Protect.StoreKey, Storage.Session, Storage.Backend and
-- Storage.Sqlite.Profiles. A text that the code walks is the list of its code points. A buffer that is changed in place
-- is passed and given back.
--
-- Fuel. The loop of ConcatKDF runs on fuel of the length of the output and one: each pass writes at least one byte,
-- as a hash has at least one. The digits of a number n are made in n + 1 rounds, more than it has digits. Nothing else
-- runs on fuel.
--
-- Parameters. What is not code of these crates is a parameter: the AES block cipher, its padded CBC mode, the hash
-- functions, Diffie-Hellman, AEAD and HMAC, the decoding of UTF-8, percent, form, base58 and hexadecimal text, the
-- form of a profile key in CBOR, the clock, Argon2, the database's transactions, and whatever is drawn at random.
-- What the theorems rely on is named in records of laws (`IsHash`, `IsCurve`, `IsPrimitives`, `IsArgon2`,
-- `IsDatabase`, `IsConnection`, `IsHex`, `IsCodec`, `IsCbcHmac`), and the modules named Tests fill each of them. A
-- failing call of the database may change the connection: a start that fails closes no transaction, and may leave one
-- open; a commit or a rollback closes at most one. How the database compares two values under an operator is a
-- parameter too; `PrefixesAgree` is what is asked of it and of the stored values.
--
-- Not modelled: the curve, signature and cipher modules of askar-crypto/src/alg besides the key wrap, AES-CBC-HMAC
-- and the exchange of key pairs, which call cryptographic crates; the JWK reader and writer
-- (askar-crypto/src/jwk/parts.rs, encode.rs); how the database reads the text of a clause, which Sql.Predicate says;
-- the failures of the database in Storage.Sqlite; opening and provisioning a store; the PostgreSQL and ODBC backends
-- besides a placeholder; migration; the foreign interface and the language wrappers. Of ConcatKDF's counter the
-- wrapping of a release build is modelled, of the placeholders' numbers the panic of a debug build.
pub mod Base
pub mod Crypto
pub mod Storage

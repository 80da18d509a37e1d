-- ===== src/Storage/Session.antt =====
-- Sessions with a database: `DbSession` of askar-storage/src/backend/db_utils.rs, its transactions, and their end. The
-- connection and its transactions are sqlx's: they are a parameter. A call of it gives whether it succeeded
-- and the connection afterwards.
mod Depth
mod Sqlite
mod Reach
mod Retry
mod Tests
use iviadc_aries_askar.Base.{
  ℕ, ◌+◌, ◌-◌, String, Bool, true, false, not, Option, none, some, ltb, ◌==◌, if◌then◌else◌, Result,
  ok, err,
}
use iviadc_aries_askar.Storage.Error.{ErrorKind, backend}

pub record Database : Type 1 where
  pub Conn : Type 0
  pub start_transaction : Bool → Conn → Bool × Conn
  pub commit : Conn → Bool × Conn
  pub rollback : Conn → Bool × Conn
  pub start_rollback : Conn → Conn
  -- How many transactions are open on the connection.
  pub depth : Conn → ℕ

-- A SQLite connection: `TransactionManager::begin`, and the statement `DELETE FROM config WHERE 0`.
pub record SqliteConnection : Type 1 where
  pub Conn : Type 0
  pub begin_transaction : Conn → Bool × Conn
  pub delete_nothing : Conn → Bool × Conn
  pub commit : Conn → Bool × Conn
  pub rollback : Conn → Bool × Conn
  pub start_rollback : Conn → Conn
  pub depth : Conn → ℕ

-- `start_transaction` of SQLite. Where the statement fails, the transaction is open all the same.
unfoldable pub sqlite_start : (x : SqliteConnection) → Bool → x.Conn → Bool × x.Conn
sqlite_start x nested c =
    let (begun, c') = x.begin_transaction c in
    if not begun then (false, c') else if nested then (true, c') else x.delete_nothing c'

abbrev pub sqlite : SqliteConnection → Database
sqlite x = record {
  Conn = x.Conn;
  start_transaction = sqlite_start x;
  commit = x.commit;
  rollback = x.rollback;
  start_rollback = x.start_rollback;
  depth = x.depth;
}

module _ (db : Database) (Key : Type 0) where
  open db use {Conn, start_transaction}

  pub data DbSessionState : Type 0 where
    active : Conn → DbSessionState
    pending : Bool → DbSessionState
    closed : DbSessionState

  pub data DbSessionKey : Type 0 where
    active_key : ℕ → Key → DbSessionKey
    pending_key : String → DbSessionKey

  pub record DbSession : Type 0 where
    pub profile_key : DbSessionKey
    pub state : DbSessionState
    pub txn_depth : ℕ

  -- `new`
  unfoldable pub new_session : String → Bool → DbSession
  new_session profile transaction = record {
    profile_key = pending_key profile;
    state = pending transaction;
    txn_depth = 0;
  }

  unfoldable pub connection_mut : DbSession → Option Conn
  connection_mut s = elim s.state [ active c ↦ some c | pending t ↦ none | closed ↦ none ]

  unfoldable pub in_transaction : DbSession → Bool
  in_transaction s =
      if ltb 0 s.txn_depth
      then true
      else elim s.state [ pending t ↦ t | active c ↦ false | closed ↦ false ]

  unfoldable pub profile_and_key : DbSession → Option (ℕ × Key)
  profile_and_key s = elim s.profile_key [ active_key i k ↦ some (i, k) | pending_key p ↦ none ]

  -- The lookup of a profile's key, given the connection, the profile's name and whether a transaction is open.
  abbrev pub InitKey : Type 0
  InitKey = Conn → String → Bool → Result (ℕ × Key) ErrorKind × Conn

  -- The transaction that a session which asks for one starts with its connection.
  unfoldable pub start_pending : Bool → Conn → DbSession → Result (Unit {0}) ErrorKind × DbSession
  start_pending false c s = (ok tt, record s { state = active c })
  start_pending true c s =
      let (started, c') = start_transaction false c in
      if started
      then (ok tt, record s { state = active c'; txn_depth = s.txn_depth + 1 })
      else (err backend, s)

  -- The first half of `make_active`, with what the pool gives.
  unfoldable pub acquire_connection :
      Option Conn → DbSession → Result (Unit {0}) ErrorKind × DbSession
  acquire_connection pool s = elim s.state [
    | pending t ↦ elim pool [ some c ↦ start_pending t c s | none ↦ (err backend, s) ]
    | active c ↦ (ok tt, s)
    | closed ↦ (ok tt, s)
  ]

  -- What `init_key` gave is stored. Until then the profile's name is empty.
  unfoldable pub store_key : Result (ℕ × Key) ErrorKind → DbSession → Result ℕ ErrorKind × DbSession
  store_key (ok found) s = (ok found.0, record s { profile_key = active_key found.0 found.1 })
  store_key (err e) s = (err e, record s { profile_key = pending_key "" })

  -- The second half; `none` is the panic of `unwrap` on a closed session.
  unfoldable pub find_key : InitKey → DbSession → Option (Result ℕ ErrorKind × DbSession)
  find_key init_key s = elim s.profile_key [
    | active_key i k ↦ some (ok i, s)
    | pending_key profile ↦ elim (connection_mut s) [
      | none ↦ none
      | some c ↦ some (
          store_key (init_key c profile (in_transaction s)).0
            (record s { state = active (init_key c profile (in_transaction s)).1 }))
    ]
  ]

  unfoldable pub make_active :
      Option Conn → InitKey → DbSession → Option (Result ℕ ErrorKind × DbSession)
  make_active pool init_key s =
      let (acquired, s') = acquire_connection pool s in
      elim acquired [ ok _ ↦ find_key init_key s' | err e ↦ some (err e, s') ]

  -- `DbSessionActive::begin` and the first branch of `as_transaction`: the transaction's `rollback` flag and the session,
  -- or an error; `none` is the panic of a session that is not active.
  unfoldable pub start_nested : Bool → DbSession → Option (Result Bool ErrorKind × DbSession)
  start_nested nested s = elim (connection_mut s) [
    | none ↦ none
    | some c ↦
        let (started, c') = start_transaction nested c in
        some (
          if started
          then (ok true, record s { state = active c'; txn_depth = s.txn_depth + 1 })
          else (err backend, record s { state = active c' }))
  ]

  unfoldable pub begin : DbSession → Option (Result Bool ErrorKind × DbSession)
  begin s = start_nested true s

  unfoldable pub as_transaction : DbSession → Option (Result Bool ErrorKind × DbSession)
  as_transaction s = if s.txn_depth == 0 then start_nested false s else some (ok false, s)

  -- `DbSessionTxn::commit`, by the transaction's flag; `none` is the panic of `txn_depth -= 1` at 0, or of a session
  -- that is not active.
  unfoldable pub commit_txn : Bool → DbSession → Option (Result (Unit {0}) ErrorKind × DbSession)
  commit_txn false s = some (ok tt, s)
  commit_txn true s = if s.txn_depth == 0 then none else elim (connection_mut s) [
    | none ↦ none
    | some c ↦ some (
      if (db.commit c).0 then ok tt else err backend,
      record s { state = active (db.commit c).1; txn_depth = s.txn_depth - 1 },
    )
  ]

  -- `Drop for DbSessionTxn`, with the same panics.
  unfoldable pub drop_txn : Bool → DbSession → Option DbSession
  drop_txn false s = some s
  drop_txn true s = if s.txn_depth == 0 then none else elim (connection_mut s) [
    | none ↦ none
    | some c ↦ some (record s { state = active (db.start_rollback c); txn_depth = s.txn_depth - 1 })
  ]

  -- `close`: the result, the session, and the connection that is given back to the pool.
  unfoldable pub close : Bool → DbSession → Result (Unit {0}) ErrorKind × DbSession × Option Conn
  close commit s =
      let closed_session : DbSession = record s { state = closed; txn_depth = 0 } in
      if s.txn_depth == 0
      then (ok tt, record s { state = closed }, connection_mut s)
      else elim (connection_mut s) [
        | none ↦ (ok tt, closed_session, none)
        | some c ↦
            let (ended, c') = if commit then db.commit c else db.rollback c in
            (if ended then ok tt else err backend, closed_session, some c')
      ]

  -- `Drop for DbSession`: the connection that is left.
  unfoldable pub drop_session : DbSession → Option Conn
  drop_session s = elim (connection_mut s) [
    | none ↦ none
    | some c ↦ some (if ltb 0 s.txn_depth then db.start_rollback c else c)
  ]

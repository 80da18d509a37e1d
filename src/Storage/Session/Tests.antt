-- ===== src/Storage/Session/Tests.antt =====
-- Runs of a session, with a database that counts its open transactions.
use iviadc_aries_askar.Base.{
  ℕ, suc, ◌-◌, ◌≡◌, refl, ◌⊎◌, Bool, true, false, Option, none, some, arith, ltb, Result, ok, err,
}
use iviadc_aries_askar.Storage.Session.Retry.{nameless, looked_up, make_active_forgets}
use iviadc_aries_askar.Storage.Error.{ErrorKind, not_found}
use iviadc_aries_askar.Storage.Session.{
  pending_key, Database, SqliteConnection, sqlite, sqlite_start, DbSession, active, active_key,
  InitKey, new_session, connection_mut, in_transaction, acquire_connection, start_pending,
  store_key, find_key, make_active, start_nested, begin, commit_txn, drop_txn,
}
use iviadc_aries_askar.Storage.Session.Sqlite.{IsConnection, sqlite-IsDatabase}
use iviadc_aries_askar.Storage.Session.Depth.{IsDatabase, IsSound}
use iviadc_aries_askar.Storage.Session.Reach.{
  Reachable, opened, activated, begun, Reachable-IsSound, transaction_ends,
}

-- The depth of its transactions; the statement fails at a depth of 2 or more.
abbrev connection : SqliteConnection
connection = record {
  Conn = ℕ;
  begin_transaction = λ c. (true, suc c);
  delete_nothing = λ c. (ltb c 2, c);
  commit = λ c. (ltb 0 c, c - 1);
  rollback = λ c. (ltb 0 c, c - 1);
  start_rollback = λ c. c - 1;
  depth = λ c. c;
}

connection-IsConnection : IsConnection connection
connection-IsConnection = record {
  begins = λ c h. refl;
  begins_not = λ c h. cc;
  deletes = λ c. refl;
  commits = λ c. omega arith;
  rolls_back = λ c. omega arith;
}

abbrev counting : Database
counting = sqlite connection

counting-IsDatabase : IsDatabase counting
counting-IsDatabase = sqlite-IsDatabase connection connection-IsConnection

-- Profile 7 has the key 42; there is no other.
abbrev found_if : ℕ × ℕ → Bool → Result (ℕ × ℕ) ErrorKind
found_if entry true = ok entry
found_if entry false = err not_found

abbrev lookup : InitKey counting ℕ
lookup c profile in_txn = (found_if (7, 42) (text.Mathlib.Text.◌==◌ profile "mine"), c)

abbrev Session : Type 0
Session = DbSession counting ℕ

abbrev after_begin : Session
after_begin = record { profile_key = active_key 7 42; state = active 2; txn_depth = 2 }

abbrev IsReached : Type 0
IsReached = Reachable counting counting-IsDatabase ℕ after_begin (some true)

reached : IsReached
unfolding new_session make_active acquire_connection start_pending find_key connection_mut
    in_transaction store_key begin start_nested sqlite_start
reached =
    begun true
      (activated {s' = record { profile_key = active_key 7 42; state = active 1; txn_depth = 1 }}
        (some 0) lookup (ok 7) (opened "mine" true) (λ c p t. omega arith) refl)
      refl

Reachable-IsSound_example : IsSound counting counting-IsDatabase ℕ after_begin (some true)
Reachable-IsSound_example = Reachable-IsSound counting counting-IsDatabase ℕ reached

transaction_ends_example :
    ((r : Result (Unit {0}) ErrorKind) × ((s' : Session) × (commit_txn counting ℕ true after_begin
          ≡ some (r, s'))
        × Reachable counting counting-IsDatabase ℕ s' none))
    × ((s' : Session) × (drop_txn counting ℕ true after_begin ≡ some s')
        × Reachable counting counting-IsDatabase ℕ s' none)
transaction_ends_example = transaction_ends counting counting-IsDatabase ℕ true reached

-- The first use looks for a profile that is not there.
abbrev nameless_session : Session
nameless_session = record { profile_key = pending_key ""; state = active 1; txn_depth = 1 }

first_use :
    make_active counting ℕ (some 0) lookup (new_session counting ℕ "other" true)
    ≡ some (err not_found, nameless_session)
unfolding new_session make_active acquire_connection start_pending find_key connection_mut
    in_transaction store_key sqlite_start
first_use = refl

make_active_forgets_example :
    (nameless_session ≡ new_session counting ℕ "other" true)
    ⊎ ((c : ℕ) × (nameless_session ≡ nameless counting ℕ c 1)
        × ((pool : Option ℕ) (init_key : InitKey counting ℕ)
            → make_active counting ℕ pool init_key nameless_session
              ≡ looked_up counting ℕ init_key "" true c 1))
make_active_forgets_example =
    make_active_forgets counting ℕ "other" true (some 0) lookup not_found nameless_session first_use

-- ===== src/Storage/Session/Depth.antt =====
-- What a session counts as open transactions, the connection has open (askar-storage/src/backend/db_utils.rs).
use iviadc_aries_askar.Base.{
  ℕ, zero, suc, ◌+◌, ◌≤◌, ◌<◌, String, ◌≡◌, refl, inl, inr, Bool, true, false, Option, none, some,
  arith, ◌==◌, Bool-cases, Result, ok, err,
}
use iviadc_aries_askar.Storage.Error.{ErrorKind}
use iviadc_aries_askar.Storage.Session.{
  Database, DbSession, DbSessionState, active, pending, closed, DbSessionKey, active_key,
  pending_key, InitKey, connection_mut, start_pending, acquire_connection, store_key, find_key,
  make_active, start_nested, as_transaction, commit_txn, drop_txn, close, in_transaction,
}

-- How the calls of the database change the number of open transactions, whether they succeed or not. A start that
-- fails closes none; it may leave one open.
pub record IsDatabase (db : Database) : Type 0 where
  pub starts :
      (n : Bool) (c : db.Conn)
      → (db.start_transaction n c).0 ≡ true
      → db.depth (db.start_transaction n c).1 ≡ suc (db.depth c)
  pub starts_not :
      (n : Bool) (c : db.Conn)
      → (db.start_transaction n c).0 ≡ false
      → db.depth c ≤ db.depth (db.start_transaction n c).1
  pub commits : (c : db.Conn) → db.depth c ≤ db.depth (db.commit c).1 + 1
  pub rolls_back : (c : db.Conn) → db.depth c ≤ db.depth (db.start_rollback c) + 1

module _ (db : Database) (laws : IsDatabase db) (Key : Type 0) where
  open db use {Conn, depth}

  abbrev pub Session : Type 0
  Session = DbSession db Key

  abbrev pub Tracked : DbSessionState db Key → ℕ → Type 0
  Tracked (active c) d = d ≤ depth c
  Tracked (pending t) d = d ≡ 0
  Tracked closed d = d ≡ 0

  -- Every transaction that the session counts is open on its connection.
  abbrev pub IsTracked : Session → Type 0
  IsTracked s = Tracked s.state s.txn_depth

  abbrev pub IsActive : DbSessionState db Key → Type 0
  IsActive (active c) = Unit
  IsActive (pending t) = ⊥
  IsActive closed = ⊥

  -- A session with a transaction open on it that rolls back when dropped (`true`), with one that does not (`false`), or
  -- with none.
  abbrev pub IsSound : Session → Option Bool → Type 0
  IsSound s none = IsTracked s
  IsSound s (some false) = IsTracked s × IsActive s.state
  IsSound s (some true) = IsTracked s × IsActive s.state × (0 < s.txn_depth)

  abbrev pub AfterBegin : Option (Result Bool ErrorKind × Session) → Type 0
  AfterBegin none = Unit
  AfterBegin (some (ok f, s)) = IsSound s (some f)
  AfterBegin (some (err e, s)) = IsSound s none

  pub start_nested-IsSound :
      (nested : Bool) (k : DbSessionKey db Key) (st : DbSessionState db Key) (d : ℕ)
      → Tracked st d
      → AfterBegin
          (start_nested db Key nested (record { profile_key = k; state = st; txn_depth = d }))
  unfolding start_nested connection_mut
  start_nested-IsSound nested k (pending t) d h = tt
  start_nested-IsSound nested k closed d h = tt
  start_nested-IsSound nested k (active c) d h =
      elim (Bool-cases (db.start_transaction nested c).0) [
        | inl e ↦
            let more : depth (db.start_transaction nested c).1 ≡ suc (depth c) =
              laws.starts nested c e in
            rw e (omega arith, tt, omega arith)
        | inr e ↦
            let kept : depth c ≤ depth (db.start_transaction nested c).1 =
              laws.starts_not nested c e in
            rw e (omega arith)
      ]

  pub as_transaction-IsSound :
      (k : DbSessionKey db Key) (st : DbSessionState db Key) (d : ℕ)
      → Tracked st d
      → IsActive st
      → AfterBegin (as_transaction db Key (record { profile_key = k; state = st; txn_depth = d }))
  unfolding as_transaction
  as_transaction-IsSound k st d h a = elim (Bool-cases (d == 0)) [
    | inl e ↦ rw e (start_nested-IsSound false k st d h)
    | inr e ↦ rw e (h, a)
  ]

  abbrev pub AfterEnd : Option (Result (Unit {0}) ErrorKind × Session) → Type 0
  AfterEnd none = ⊥
  AfterEnd (some (r, s)) = IsTracked s

  pub commit_txn-IsTracked :
      (f : Bool) (k : DbSessionKey db Key) (st : DbSessionState db Key) (d : ℕ)
      → IsSound (record { profile_key = k; state = st; txn_depth = d }) (some f)
      → AfterEnd (commit_txn db Key f (record { profile_key = k; state = st; txn_depth = d }))
  unfolding commit_txn connection_mut
  commit_txn-IsTracked false k st d h = h.0
  commit_txn-IsTracked true k (pending t) d (h, a, p) = absurd a
  commit_txn-IsTracked true k closed d (h, a, p) = absurd a
  commit_txn-IsTracked true k (active c) d (h, a, p) =
      let fewer : depth c ≤ depth (db.commit c).1 + 1 = laws.commits c in
      let counted : (d == 0) ≡ false = ground arith in rw counted (omega arith)

  abbrev pub AfterDrop : Option Session → Type 0
  AfterDrop none = ⊥
  AfterDrop (some s) = IsTracked s

  pub drop_txn-IsTracked :
      (f : Bool) (k : DbSessionKey db Key) (st : DbSessionState db Key) (d : ℕ)
      → IsSound (record { profile_key = k; state = st; txn_depth = d }) (some f)
      → AfterDrop (drop_txn db Key f (record { profile_key = k; state = st; txn_depth = d }))
  unfolding drop_txn connection_mut
  drop_txn-IsTracked false k st d h = h.0
  drop_txn-IsTracked true k (pending t) d (h, a, p) = absurd a
  drop_txn-IsTracked true k closed d (h, a, p) = absurd a
  drop_txn-IsTracked true k (active c) d (h, a, p) =
      let fewer : depth c ≤ depth (db.start_rollback c) + 1 = laws.rolls_back c in
      let counted : (d == 0) ≡ false = ground arith in rw counted (omega arith)

  pub close-IsTracked :
      (commit : Bool) (k : DbSessionKey db Key) (st : DbSessionState db Key) (d : ℕ)
      → IsTracked (close db Key commit (record { profile_key = k; state = st; txn_depth = d })).1
  unfolding close connection_mut
  close-IsTracked commit k st zero = refl
  close-IsTracked commit k (active c) (suc d) =
      let e : (suc d == 0) ≡ false = ground arith in rw e refl
  close-IsTracked commit k (pending t) (suc d) =
      let e : (suc d == 0) ≡ false = ground arith in rw e refl
  close-IsTracked commit k closed (suc d) = let e : (suc d == 0) ≡ false = ground arith in rw e refl

  -- The lookup of a key leaves the transactions as they are.
  abbrev pub Keeps : InitKey db Key → Type 0
  Keeps init_key = (c : Conn) (p : String) (t : Bool) → depth c ≤ depth (init_key c p t).1

  acquire_connection-IsTracked :
      (pool : Option Conn) (k : DbSessionKey db Key) (st : DbSessionState db Key) (d : ℕ)
      → Tracked st d
      → IsTracked
          (acquire_connection db Key pool (record { profile_key = k; state = st; txn_depth = d })).1
  unfolding acquire_connection start_pending
  acquire_connection-IsTracked pool k (active c) d h = h
  acquire_connection-IsTracked pool k closed d h = h
  acquire_connection-IsTracked none k (pending t) d h = h
  acquire_connection-IsTracked (some c) k (pending false) d h = omega arith
  acquire_connection-IsTracked (some c) k (pending true) d h =
      elim (Bool-cases (db.start_transaction false c).0) [
        | inl e ↦
            let more : depth (db.start_transaction false c).1 ≡ suc (depth c) =
              laws.starts false c e in
            rw e (omega arith)
        | inr e ↦ rw e h
      ]

  abbrev pub AfterActive : Option (Result ℕ ErrorKind × Session) → Type 0
  AfterActive none = Unit
  AfterActive (some (r, s)) = IsTracked s

  store_key-IsTracked :
      (r : Result (ℕ × Key) ErrorKind) (s : Session)
      → IsTracked s
      → IsTracked (store_key db Key r s).1
  unfolding store_key
  store_key-IsTracked (ok found) s h = h
  store_key-IsTracked (err e) s h = h

  find_key-IsTracked :
      (init_key : InitKey db Key) (k : DbSessionKey db Key) (st : DbSessionState db Key) (d : ℕ)
      → Keeps init_key
      → Tracked st d
      → AfterActive
          (find_key db Key init_key (record { profile_key = k; state = st; txn_depth = d }))
  unfolding find_key connection_mut
  find_key-IsTracked init_key (active_key i k) st d keeps h = h
  find_key-IsTracked init_key (pending_key p) (pending t) d keeps h = tt
  find_key-IsTracked init_key (pending_key p) closed d keeps h = tt
  find_key-IsTracked init_key (pending_key p) (active c) d keeps h =
      let s : Session = record { profile_key = pending_key p; state = active c; txn_depth = d } in
      let found = init_key c p (in_transaction db Key s) in
      let kept : depth c ≤ depth found.1 = keeps c p (in_transaction db Key s) in
      store_key-IsTracked found.0 (record s { state = active found.1 }) (omega arith)

  after_acquire :
      (init_key : InitKey db Key) (r : Result (Unit {0}) ErrorKind) (s : Session)
      → Keeps init_key
      → IsTracked s
      → AfterActive (elim r as (λ x. Option (Result ℕ ErrorKind × Session)) [
        | ok _ ↦ find_key db Key init_key s
        | err e ↦ some (err e, s)
      ])
  after_acquire init_key (ok _) s keeps h =
      find_key-IsTracked init_key s.profile_key s.state s.txn_depth keeps h
  after_acquire init_key (err e) s keeps h = h

  pub make_active-IsTracked :
      (pool : Option Conn) (init_key : InitKey db Key) (s : Session)
      → Keeps init_key
      → IsTracked s
      → AfterActive (make_active db Key pool init_key s)
  unfolding make_active
  make_active-IsTracked pool init_key s keeps h =
      let r = acquire_connection db Key pool s in
      after_acquire init_key r.0 r.1 keeps
        (acquire_connection-IsTracked pool s.profile_key s.state s.txn_depth h)

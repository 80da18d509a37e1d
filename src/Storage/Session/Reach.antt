-- ===== src/Storage/Session/Reach.antt =====
-- The states that a session reaches. At most one transaction is open at a time: it borrows the session.
use iviadc_aries_askar.Base.{
  ℕ, String, ◌≡◌, refl, subst, inl, inr, Bool, true, Option, none, some, Option-cases, Result, ok,
  err,
}
use iviadc_aries_askar.Storage.Error.{ErrorKind}
use iviadc_aries_askar.Storage.Session.{
  Database, DbSession, InitKey, new_session, make_active, begin, as_transaction, commit_txn,
  drop_txn, close,
}
use iviadc_aries_askar.Storage.Session.Depth.{
  IsDatabase, IsSound, Keeps, AfterBegin, AfterEnd, AfterDrop, AfterActive, start_nested-IsSound,
  as_transaction-IsSound, commit_txn-IsTracked, drop_txn-IsTracked, close-IsTracked,
  make_active-IsTracked, IsActive,
}

module _ (db : Database) (laws : IsDatabase db) (Key : Type 0) where
  abbrev Session : Type 0
  Session = DbSession db Key

  -- A session, and the `rollback` flag of the transaction that is open on it.
  pub data Reachable : Session → Option Bool → Type 0 where
    opened :
        (profile : String) (transaction : Bool)
        → Reachable (new_session db Key profile transaction) none
    activated :
        {s s' : Session} (pool : Option db.Conn) (init_key : InitKey db Key)
        (r : Result ℕ ErrorKind)
        → Reachable s none
        → Keeps db laws Key init_key
        → make_active db Key pool init_key s ≡ some (r, s')
        → Reachable s' none
    begun :
        {s s' : Session} (f : Bool)
        → Reachable s none
        → begin db Key s ≡ some (ok f, s')
        → Reachable s' (some f)
    not_begun :
        {s s' : Session} (e : ErrorKind)
        → Reachable s none
        → begin db Key s ≡ some (err e, s')
        → Reachable s' none
    joined :
        {s s' : Session} (f : Bool)
        → Reachable s none
        → IsActive db laws Key s.state
        → as_transaction db Key s ≡ some (ok f, s')
        → Reachable s' (some f)
    not_joined :
        {s s' : Session} (e : ErrorKind)
        → Reachable s none
        → IsActive db laws Key s.state
        → as_transaction db Key s ≡ some (err e, s')
        → Reachable s' none
    committed :
        {s s' : Session} (f : Bool) (r : Result (Unit {0}) ErrorKind)
        → Reachable s (some f)
        → commit_txn db Key f s ≡ some (r, s')
        → Reachable s' none
    dropped :
        {s s' : Session} (f : Bool)
        → Reachable s (some f)
        → drop_txn db Key f s ≡ some s'
        → Reachable s' none
    ended :
        {s : Session} (commit : Bool) → Reachable s none → Reachable (close db Key commit s).1 none

  -- Under the laws of the database, and if looking up a key closes no transaction: in every state that a session
  -- reaches, whatever the database refuses, the transactions that the session counts
  -- are open on its connection; a session that has none counts none; and while a transaction that rolls back when
  -- dropped is open, the session is active and counts at least one.
  pub Reachable-IsSound : {s : Session} {o : Option Bool} → Reachable s o → IsSound db laws Key s o
  unfolding new_session begin
  Reachable-IsSound (opened profile transaction) = refl
  Reachable-IsSound (activated {s} pool init_key r h keeps e) =
      subst (AfterActive db laws Key) e
        (make_active-IsTracked db laws Key pool init_key s keeps (Reachable-IsSound h))
  Reachable-IsSound (begun {s} f h e) = subst (AfterBegin db laws Key) e (
      start_nested-IsSound db laws Key true s.profile_key s.state s.txn_depth (Reachable-IsSound h))
  Reachable-IsSound (not_begun {s} x h e) = subst (AfterBegin db laws Key) e (
      start_nested-IsSound db laws Key true s.profile_key s.state s.txn_depth (Reachable-IsSound h))
  Reachable-IsSound (joined {s} f h a e) =
      subst (AfterBegin db laws Key) e (
        as_transaction-IsSound db laws Key s.profile_key s.state s.txn_depth (Reachable-IsSound h)
          a)
  Reachable-IsSound (not_joined {s} x h a e) =
      subst (AfterBegin db laws Key) e (
        as_transaction-IsSound db laws Key s.profile_key s.state s.txn_depth (Reachable-IsSound h)
          a)
  Reachable-IsSound (committed {s} f r h e) =
      subst (AfterEnd db laws Key) e
        (commit_txn-IsTracked db laws Key f s.profile_key s.state s.txn_depth (Reachable-IsSound h))
  Reachable-IsSound (dropped {s} f h e) =
      subst (AfterDrop db laws Key) e
        (drop_txn-IsTracked db laws Key f s.profile_key s.state s.txn_depth (Reachable-IsSound h))
  Reachable-IsSound (ended {s} commit h) =
      close-IsTracked db laws Key commit s.profile_key s.state s.txn_depth

  -- Under the laws of the database, a transaction that is open in a reachable state ends without a panic, whether it is
  -- committed or dropped: the session is active, and the depth that is counted down is not 0.
  pub transaction_ends :
      {s : Session} (f : Bool)
      → Reachable s (some f)
      → ((r : Result (Unit {0}) ErrorKind) × ((s' : Session) × (commit_txn db Key f s
              ≡ some (r, s'))
            × Reachable s' none))
        × ((s' : Session) × (drop_txn db Key f s ≡ some s') × Reachable s' none)
  transaction_ends {s} f h =
      let sound = Reachable-IsSound h in
      let c = commit_txn-IsTracked db laws Key f s.profile_key s.state s.txn_depth sound in
      let d = drop_txn-IsTracked db laws Key f s.profile_key s.state s.txn_depth sound in
      (
        elim (Option-cases (commit_txn db Key f s)) [
          | inl e ↦ absurd (subst (AfterEnd db laws Key) e c)
          | inr (rs, e) ↦ (rs.0, (rs.1, e, committed f rs.0 h e))
        ],
        elim (Option-cases (drop_txn db Key f s)) [
          | inl e ↦ absurd (subst (AfterDrop db laws Key) e d)
          | inr (s', e) ↦ (s', e, dropped f h e)
        ],
      )

-- ===== src/Storage/Session/Retry.antt =====
-- A session whose first use fails (askar-storage/src/backend/db_utils.rs, `make_active`).
use iviadc_aries_askar.Base.{
  ℕ, String, ◌≡◌, refl, sym, ap, ◌∙◌, ◌⊎◌, inl, inr, Bool, true, false, Option, none, some,
  Bool-cases, Result, ok, err,
}
use iviadc_aries_askar.Storage.Error.{ErrorKind, backend}
use iviadc_aries_askar.Storage.Session.{
  Database, DbSession, active, pending_key, InitKey, new_session, connection_mut, in_transaction,
  start_pending, acquire_connection, store_key, find_key, make_active,
}

module _ (db : Database) (Key : Type 0) where
  open db use {Conn}

  -- A session on a connection that has no name of its profile.
  abbrev pub nameless : Conn → ℕ → DbSession db Key
  nameless c d = record { profile_key = pending_key ""; state = active c; txn_depth = d }

  -- The lookup that a session with a connection makes.
  abbrev pub looked_up :
      InitKey db Key → String → Bool → Conn → ℕ → Option (Result ℕ ErrorKind × DbSession db Key)
  looked_up init_key profile transaction c d = some (
      store_key db Key (init_key c profile transaction).0 (record {
        profile_key = pending_key profile;
        state = active (init_key c profile transaction).1;
        txn_depth = d;
      }))

  -- How many transactions a new session starts.
  abbrev pub started : Bool → ℕ
  started true = 1
  started false = 0

  failed_lookup :
      (r : Result (ℕ × Key) ErrorKind) (s s' : DbSession db Key) (e : ErrorKind)
      → some (store_key db Key r s) ≡ some (err e, s')
      → s' ≡ record s { profile_key = pending_key "" }
  unfolding store_key
  failed_lookup (ok found) s s' e h = cc
  failed_lookup (err e') s s' e h = cc

  abbrev Forgets : String → Bool → DbSession db Key → Type 0
  Forgets profile transaction s' =
      (s' ≡ new_session db Key profile transaction)
      ⊎ ((c : Conn) × (s' ≡ nameless c (started transaction))
          × ((pool : Option Conn) (init_key : InitKey db Key)
              → make_active db Key pool init_key s'
                ≡ looked_up init_key "" transaction c (started transaction)))

  nameless-make_active :
      (transaction : Bool) (c : Conn) (pool : Option Conn) (init_key : InitKey db Key)
      → make_active db Key pool init_key (nameless c (started transaction))
        ≡ looked_up init_key "" transaction c (started transaction)
  unfolding make_active acquire_connection find_key connection_mut in_transaction
  nameless-make_active true c pool init_key = refl
  nameless-make_active false c pool init_key = refl

  forgotten :
      (profile : String) (transaction : Bool) (init_key : InitKey db Key) (c : Conn) (e : ErrorKind)
      (s' : DbSession db Key)
      → looked_up init_key profile transaction c (started transaction) ≡ some (err e, s')
      → Forgets profile transaction s'
  forgotten profile transaction init_key c e s' h =
      let same : s' ≡ nameless (init_key c profile transaction).1 (started transaction) =
        failed_lookup (init_key c profile transaction).0 _ s' e h in
      inr (
        (init_key c profile transaction).1,
        same,
        λ pool init_key'.
            ap (make_active db Key pool init_key') same
            ∙ nameless-make_active transaction (init_key c profile transaction).1 pool init_key',
      )

  -- The second half of `make_active`, by the outcome of the first.
  abbrev next :
      InitKey db Key
      → Result (Unit {0}) ErrorKind × DbSession db Key
      → Option (Result ℕ ErrorKind × DbSession db Key)
  next init_key a = elim a.0 [ ok _ ↦ find_key db Key init_key a.1 | err e ↦ some (err e, a.1) ]

  acquired :
      (profile : String) (c : Conn)
      → (db.start_transaction false c).0 ≡ true
      → acquire_connection db Key (some c) (new_session db Key profile true) ≡ (
        ok tt,
        record {
          profile_key = pending_key profile;
          state = active (db.start_transaction false c).1;
          txn_depth = 1;
        },
      )
  unfolding acquire_connection start_pending new_session
  acquired profile c y = rw (start_pending, y) refl

  not_acquired :
      (profile : String) (c : Conn)
      → (db.start_transaction false c).0 ≡ false
      → acquire_connection db Key (some c) (new_session db Key profile true)
        ≡ (err backend, new_session db Key profile true)
  unfolding acquire_connection start_pending new_session
  not_acquired profile c n = rw (start_pending, n) refl

  -- When the first use of a new session fails, either the session is as it was, since no connection could be had or
  -- no transaction started; or the lookup of the profile's key failed, and then the session is active
  -- and keeps no name of its profile: every later use of it, with whatever lookup, looks up the profile with the
  -- empty name, and takes what that gives.
  pub make_active_forgets :
      (profile : String) (transaction : Bool) (pool : Option Conn) (init_key : InitKey db Key)
      (e : ErrorKind) (s' : DbSession db Key)
      → make_active db Key pool init_key (new_session db Key profile transaction) ≡ some (err e, s')
      → (s' ≡ new_session db Key profile transaction)
        ⊎ ((c : Conn) × (s' ≡ nameless c (started transaction))
            × ((pool' : Option Conn) (init_key' : InitKey db Key)
                → make_active db Key pool' init_key' s'
                  ≡ looked_up init_key' "" transaction c (started transaction)))
  unfolding make_active acquire_connection start_pending find_key connection_mut in_transaction
      new_session
  make_active_forgets profile transaction none init_key e s' h = inl cc
  make_active_forgets profile false (some c) init_key e s' h =
      forgotten profile false init_key c e s' h
  make_active_forgets profile true (some c) init_key e s' h =
      elim (Bool-cases (db.start_transaction false c).0) [
        | inr n ↦ let same = ap (next init_key) (sym (not_acquired profile c n)) ∙ h in inl cc
        | inl y ↦
            forgotten profile true init_key (db.start_transaction false c).1 e s'
              (ap (next init_key) (sym (acquired profile c y)) ∙ h)
      ]

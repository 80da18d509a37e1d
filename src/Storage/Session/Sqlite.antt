-- ===== src/Storage/Session/Sqlite.antt =====
-- SQLite's connections keep the laws of a database: `start_transaction` of askar-storage/src/backend/sqlite/mod.rs.
use iviadc_aries_askar.Base.{suc, ◌+◌, ◌≤◌, ◌≡◌, inl, inr, Bool, true, false, arith, Bool-cases}
use iviadc_aries_askar.Storage.Session.{SqliteConnection, sqlite_start, sqlite}
use iviadc_aries_askar.Storage.Session.Depth.{IsDatabase}

-- What the calls of a connection do to the depth of its transactions. A statement leaves it as it is.
pub record IsConnection (x : SqliteConnection) : Type 0 where
  pub begins :
      (c : x.Conn)
      → (x.begin_transaction c).0 ≡ true
      → x.depth (x.begin_transaction c).1 ≡ suc (x.depth c)
  pub begins_not :
      (c : x.Conn)
      → (x.begin_transaction c).0 ≡ false
      → x.depth c ≤ x.depth (x.begin_transaction c).1
  pub deletes : (c : x.Conn) → x.depth (x.delete_nothing c).1 ≡ x.depth c
  pub commits : (c : x.Conn) → x.depth c ≤ x.depth (x.commit c).1 + 1
  pub rolls_back : (c : x.Conn) → x.depth c ≤ x.depth (x.start_rollback c) + 1

module _ (x : SqliteConnection) (laws : IsConnection x) where
  sqlite_start-true :
      (n : Bool) (c : x.Conn)
      → (sqlite_start x n c).0 ≡ true
      → x.depth (sqlite_start x n c).1 ≡ suc (x.depth c)
  unfolding sqlite_start
  sqlite_start-true n c h = elim (Bool-cases (x.begin_transaction c).0) [
    | inr e ↦ let no = rw (sqlite_start, e) at h in cc
    | inl e ↦ elim (Bool-cases n) [
      | inl m ↦ rw (e, m) (laws.begins c e)
      | inr m ↦ rw (e, m, laws.deletes (x.begin_transaction c).1) (laws.begins c e)
    ]
  ]

  sqlite_start-false :
      (n : Bool) (c : x.Conn)
      → (sqlite_start x n c).0 ≡ false
      → x.depth c ≤ x.depth (sqlite_start x n c).1
  unfolding sqlite_start
  sqlite_start-false n c h = elim (Bool-cases (x.begin_transaction c).0) [
    | inr e ↦ rw e (laws.begins_not c e)
    | inl e ↦
        let more = laws.begins c e in
        elim (Bool-cases n) [
          | inl m ↦ rw (e, m) (omega arith)
          | inr m ↦ rw (e, m, laws.deletes (x.begin_transaction c).1) (omega arith)
        ]
  ]

  pub sqlite-IsDatabase : IsDatabase (sqlite x)
  sqlite-IsDatabase = record {
    starts = sqlite_start-true;
    starts_not = sqlite_start-false;
    commits = laws.commits;
    rolls_back = laws.rolls_back;
  }

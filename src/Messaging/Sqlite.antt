-- ===== src/Messaging/Sqlite.antt =====
-- What MessageStore.cpp takes from SQLite, which the repository does not hold: the choice of a
-- rowid, the order of sorted results, and the answer of sqlite3_last_insert_rowid after a
-- statement that did not run. The laws are those of SQLite's documentation.
pub mod Sample
use mathlib.Core.List.{Perm}
use epic_1bit2qbit.Prelude.{ℕ, ◌<◌, ◌≢◌, List, [], ◌∷◌, Bool, Option, All, SortedBy}
use epic_1bit2qbit.Prelude.Int.{ℤ, ◌≤ℤ◌}
use epic_1bit2qbit.Prelude.Text.{Bytes}

-- A row of the messages table. A column that the table lacks has its default here.
pub record Row : Type 0 where
  pub id : ℕ
  pub peer : Bytes
  pub sender : Bytes
  pub recipient : Bytes
  pub timestamp_ms : ℤ
  pub type : ℤ
  pub body : Bytes
  pub edited : Bool
  pub deleted : Bool
  pub target_id : Option ℕ
  pub wire_ciphertext : Bytes
  pub mid : Bytes

-- The rows that a sorted result lists stand in the order of their keys.
abbrev pub Ascending : List Row → Type 0
Ascending = SortedBy λ r q. r.timestamp_ms ≤ℤ q.timestamp_ms

abbrev pub Descending : List (Bytes × ℤ) → Type 0
Descending = SortedBy λ g h. h.1 ≤ℤ g.1

pub record Sqlite : Type 0 where
  -- the rowid of a row whose INTEGER PRIMARY KEY is bound to NULL
  pub new_rowid : List ℕ → ℕ
  pub new_rowid_pos : (ids : List ℕ) → 0 < new_rowid ids
  pub new_rowid_fresh : (ids : List ℕ) → All (λ i. i ≢ new_rowid ids) ids
  -- ORDER BY timestamp_ms
  pub by_time : List Row → List Row
  pub by_time_perm : (rows : List Row) → Perm (by_time rows) rows
  pub by_time_sorted : (rows : List Row) → Ascending (by_time rows)
  -- ORDER BY MAX(timestamp_ms) DESC
  pub by_recency : List (Bytes × ℤ) → List (Bytes × ℤ)
  pub by_recency_perm : (groups : List (Bytes × ℤ)) → Perm (by_recency groups) groups
  pub by_recency_sorted : (groups : List (Bytes × ℤ)) → Descending (by_recency groups)
  -- sqlite3_last_insert_rowid after an INSERT that could not be prepared
  pub stale_rowid : List Row → ℕ
  -- sqlite3_errmsg
  pub errmsg : Bytes

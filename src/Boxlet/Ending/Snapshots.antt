-- ===== src/Boxlet/Ending/Snapshots.antt =====
-- deleteSandboxSnapshots leaves no snapshot of the sandbox.
use novita_box.Common.{
  ◌≡◌, refl, sym, String, Bool, true, false, List, [], ◌∷◌, any, All, arith, str_eq, eq_iff,
  Bool-cases, inl, inr,
}
use mathlib.Core.Path.{subst}
use novita_box.Store.Table.{select, delete, affected}
use novita_box.Store.Order.{insert, order_by}
use novita_box.Store.Records.{SnapshotRecord, Db}
use novita_box.Store.Artifact.Snapshots.{of_sandbox, has_snapshot_id, list_snapshots_by_sandbox}

abbrev is_one_of : List SnapshotRecord → SnapshotRecord → Bool
is_one_of ss r = any (λ (s : SnapshotRecord). str_eq r.id s.id) ss

-- Every snapshot of the sandbox among the rows has the id of one that is to be deleted.
abbrev pub IsCovered : String → List SnapshotRecord → List SnapshotRecord → Type 0
IsCovered id ss rows = All (λ r. of_sandbox id r ≡ true → is_one_of ss r ≡ true) rows

pub IsCovered-nil :
    (id : String) (rows : List SnapshotRecord)
    → IsCovered id [] rows
    → select (of_sandbox id) rows ≡ []
unfolding select
IsCovered-nil id [] c = refl
IsCovered-nil id (r ∷ rows) c = ground (arith, c.0, IsCovered-nil id rows c.1)

-- A snapshot that no row has any more need not be deleted.
pub IsCovered-absent :
    (id : String) (s : SnapshotRecord) (ss rows : List SnapshotRecord)
    → affected (has_snapshot_id s.id) rows ≡ 0
    → IsCovered id (s ∷ ss) rows
    → IsCovered id ss rows
unfolding affected
IsCovered-absent id s ss [] none_left c = tt
IsCovered-absent id s ss (r ∷ rows) none_left c =
    (λ own. ground (arith, c.0 own), IsCovered-absent id s ss rows (ground arith) c.1)

pub IsCovered-delete :
    (id : String) (s : SnapshotRecord) (ss rows : List SnapshotRecord)
    → IsCovered id (s ∷ ss) rows
    → IsCovered id ss (delete (has_snapshot_id s.id) rows)
unfolding delete
IsCovered-delete id s ss [] c = tt
IsCovered-delete id s ss (r ∷ rows) c = elim (Bool-cases (str_eq r.id s.id)) [
  | inl gone ↦ rw gone (IsCovered-delete id s ss rows c.1)
  | inr stays ↦ rw stays (λ own. ground (arith, c.0 own), IsCovered-delete id s ss rows c.1)
]

IsCovered-more :
    (id : String) (s : SnapshotRecord) (ss rows : List SnapshotRecord)
    → IsCovered id ss rows
    → IsCovered id (s ∷ ss) rows
IsCovered-more id s ss [] c = tt
IsCovered-more id s ss (r ∷ rows) c =
    (λ own. ground (arith, c.0 own), IsCovered-more id s ss rows c.1)

select-own :
    (id : String) (r : SnapshotRecord) (rows : List SnapshotRecord)
    → of_sandbox id r ≡ true
    → select (of_sandbox id) (r ∷ rows) ≡ r ∷ select (of_sandbox id) rows
unfolding select
select-own id r rows own = rw own refl

select-other :
    (id : String) (r : SnapshotRecord) (rows : List SnapshotRecord)
    → of_sandbox id r ≡ false
    → select (of_sandbox id) (r ∷ rows) ≡ select (of_sandbox id) rows
unfolding select
select-other id r rows other = rw other refl

select-IsCovered :
    (id : String) (rows : List SnapshotRecord) → IsCovered id (select (of_sandbox id) rows) rows
select-IsCovered id [] = tt
select-IsCovered id (r ∷ rows) = elim (Bool-cases (of_sandbox id r)) [
  | inl own ↦
      subst (λ ss. IsCovered id ss (r ∷ rows)) (sym (select-own id r rows own))
        (
          λ e. ground (arith, eq_iff r.id r.id),
          IsCovered-more id r (select (of_sandbox id) rows) rows (select-IsCovered id rows),
        )
  | inr other ↦
      subst (λ ss. IsCovered id ss (r ∷ rows)) (sym (select-other id r rows other))
        (λ e. ground arith, select-IsCovered id rows)
]

module _ (before : SnapshotRecord → SnapshotRecord → Bool) (r : SnapshotRecord) where
  one_of-insert :
      (x : SnapshotRecord) (ss : List SnapshotRecord)
      → is_one_of (insert before x ss) r ≡ is_one_of (x ∷ ss) r
  unfolding insert
  one_of-insert x [] = refl
  one_of-insert x (s ∷ ss) = ground (arith, one_of-insert x ss)

  one_of-order_by : (ss : List SnapshotRecord) → is_one_of (order_by before ss) r ≡ is_one_of ss r
  unfolding order_by
  one_of-order_by [] = refl
  one_of-order_by (x ∷ ss) =
      ground (arith, one_of-insert x (order_by before ss), one_of-order_by ss)

IsCovered-order_by :
    (id : String) (before : SnapshotRecord → SnapshotRecord → Bool) (ss rows : List SnapshotRecord)
    → IsCovered id ss rows
    → IsCovered id (order_by before ss) rows
IsCovered-order_by id before ss [] c = tt
IsCovered-order_by id before ss (r ∷ rows) c =
    (λ own. rw (one_of-order_by before r ss) (c.0 own), IsCovered-order_by id before ss rows c.1)

pub listed-IsCovered :
    (id : String) (db : Db) → IsCovered id (list_snapshots_by_sandbox id db) db.snapshots
unfolding list_snapshots_by_sandbox
listed-IsCovered id db = IsCovered-order_by id _ _ db.snapshots (select-IsCovered id db.snapshots)

-- ===== src/Recovery.antt =====
-- The recovery of a worker from a restored backup (cmd/worker/recover.go): the merge of what the
-- routers have accepted, and the quarantine of what the backup alone says. `Run` has the whole command.
pub mod Merge
pub mod Sources
pub mod Numbers
pub mod Quarantine
pub mod Prepared
pub mod Progress
pub mod Origins
pub mod Run
pub mod Command
pub mod Start
pub mod Started
use edgelab.Shared.Table.{Table, insert, lookup}
use edgelab.Registry.{RouteRecord, RouteSnapshot, max_revision, u64}
use edgelab.Shared.Outcome.{Outcome, err, fail_if, ok, ◌>>=◌, ◌>>◌}
use edgelab.Shared.{
  Bool, List, Option, String, [], if◌then◌else◌, leb, ltb, none, not, some, str_eq, true, ℕ, ◌&&◌,
  ◌+◌, ◌||◌, ◌∷◌,
}

pub data RecoverError : Type 0 where
  invalid_arguments invalid_config busy io_failure journal_mismatch : RecoverError
  undecodable_backup foreign_backup router_blocked conflicting_identities : RecoverError
  revisions_exhausted invalid_journal not_acknowledged different_digests : RecoverError
  missing_row crashed : RecoverError

-- old.App == record.App && old.Endpoint == record.Endpoint
unfoldable pub same_identity : RouteRecord → RouteRecord → Bool
same_identity a b = str_eq a.app b.app && str_eq a.endpoint b.endpoint

-- The record that two accepted records of one instance become: the later one, deleted if either is.
unfoldable pub join : RouteRecord → RouteRecord → RouteRecord
join old r =
    if ltb old.revision r.revision
    then record r { deleted = r.deleted || old.deleted }
    else if r.deleted
    then record old { deleted = true }
    else old

-- One round of the loop over an owner's records.
unfoldable pub merge_record :
    Table RouteRecord → String → RouteRecord → Outcome RecoverError (Table RouteRecord)
merge_record merged id r = elim (lookup id merged) [
  | none ↦ ok (insert id r merged)
  | some old ↦
      if same_identity old r then ok (insert id (join old r) merged) else err conflicting_identities
]

unfoldable pub merge_records :
    Table RouteRecord → Table RouteRecord → Outcome RecoverError (Table RouteRecord)
merge_records merged [] = ok merged
merge_records merged ((id, r) ∷ rest) = do
  merged' ← merge_record merged id r
  merge_records merged' rest

-- `if a > m { m = a }`
unfoldable pub raise_to : ℕ → ℕ → ℕ
raise_to m a = if ltb m a then a else m

-- One router's accepted snapshot.
unfoldable pub merge_owner : RouteSnapshot → RouteSnapshot → Outcome RecoverError RouteSnapshot
merge_owner merged accepted = do
  records ← merge_records merged.records accepted.records
  ok (record merged {
    incarnation = raise_to merged.incarnation accepted.incarnation;
    revision = raise_to merged.revision accepted.revision;
    records = records;
  })

unfoldable pub merge_owners :
    RouteSnapshot → List RouteSnapshot → Outcome RecoverError RouteSnapshot
merge_owners merged [] = ok merged
merge_owners merged (accepted ∷ rest) = do
  merged' ← merge_owner merged accepted
  merge_owners merged' rest

-- merged.Incarnation++ and merged.Revision++, below 1<<63-1
unfoldable pub advance : RouteSnapshot → Outcome RecoverError RouteSnapshot
advance merged = do
  fail_if (leb max_revision merged.incarnation || leb max_revision merged.revision)
      revisions_exhausted
  ok (record merged {
    incarnation = u64 (merged.incarnation + 1);
    revision = u64 (merged.revision + 1);
  })

-- A deletion that the backup knows of, for the same identity, holds in the merge too.
unfoldable pub carry_deletion : RouteRecord → Option RouteRecord → Option RouteRecord
carry_deletion old none = none
carry_deletion old (some accepted) =
    if old.deleted && same_identity accepted old
    then some
        (record accepted { deleted = true; revision = raise_to accepted.revision old.revision })
    else some accepted

-- !exists || another identity || accepted.Deleted && !old.Deleted
unfoldable pub is_quarantined : RouteRecord → Option RouteRecord → Bool
is_quarantined old none = true
is_quarantined old (some accepted) =
    not (same_identity old accepted) || (accepted.deleted && not old.deleted)

unfoldable pub store : String → Option RouteRecord → Table RouteRecord → Table RouteRecord
store id none m = m
store id (some r) m = insert id r m

-- The loop over the backup's records: the merge, and what is quarantined.
unfoldable pub reconcile_backup :
    Table RouteRecord
    → Table RouteRecord
    → Table RouteRecord
    → Table RouteRecord × Table RouteRecord
reconcile_backup merged quarantined [] = (merged, quarantined)
reconcile_backup merged quarantined ((id, old) ∷ rest) =
    let accepted = carry_deletion old (lookup id merged) in
    reconcile_backup (store id accepted merged)
      (if is_quarantined old accepted then insert id old quarantined else quarantined) rest

-- The snapshot to be recovered, and the quarantine, from the backup and the routers' accounts.
unfoldable pub prepare :
    RouteSnapshot → List RouteSnapshot → Outcome RecoverError (RouteSnapshot × Table RouteRecord)
prepare backup accepted = do
  let start : RouteSnapshot = record backup { schema = 1; records = [] }
  merged ← merge_owners start accepted
  next ← advance merged
  let (records, quarantined) = reconcile_backup next.records [] backup.records
  ok (record next { records = records }, quarantined)

-- ===== src/Recovery/Run.antt =====
-- The `recover` command (cmd/worker/recover.go): its journal, the order of its durable writes, and
-- its calls of the routers. A run may fail or be interrupted at each of them; the files stay.
use edgelab.Shared.Table.{Table, insert}
use edgelab.Recovery.{
  RecoverError, busy, foreign_backup, io_failure, journal_mismatch, missing_row, prepare,
  router_blocked, undecodable_backup,
}
use edgelab.Registry.{Platform, RouteRecord, RouteSnapshot}
use edgelab.Shared.Outcome.{Outcome, err, expect, ok}
use edgelab.Shared.{
  Bool, List, Option, String, [], false, if◌then◌else◌, none, not, some, str_eq, ◌&&◌, ◌∷◌,
}
use edgelab.Shared.Action.{◌>>=◌, ◌>>◌, Action, gets, lift, modify, pure, stop_if}

pub record RecoveryJournal : Type 0 where
  pub operation : String
  pub owner : String
  pub database : String
  pub snapshot : Option RouteSnapshot
  pub credential : String
  pub quarantined : Table RouteRecord
  pub acknowledgements : Table String
  pub complete : Bool

-- What outlives a run: the restore guard, the journal, the restored database's row and the token of
-- the configuration file.
pub record Files (Blob : Type 0) : Type 0 where
  pub guard : Option String
  pub journal : Option RecoveryJournal
  pub body : Option Blob
  pub token : String

-- The durable steps of a run, each of which may fail.
pub data Point : Type 0 where
  take_lock write_guard read_journal save_journal open_database read_backup : Point
  random save_prepared save_acknowledgement write_row : Point
  write_config save_complete remove_guard sync_guard : Point

-- A router's answer to the recovered snapshot.
pub record Recovery : Type 0 where
  pub operation : String
  pub digest : String

-- What a run meets: the steps that fail, what the routers answer to a freeze, to a second call for
-- their account and to the recovered snapshot with the hash of the credential, and the random bytes.
pub record Environment : Type 0 where
  pub fails : Point → Bool
  pub freezes : String → Bool
  pub account : String → Option RouteSnapshot
  pub acknowledge : String → RouteSnapshot → String → Option (Option Recovery)
  pub random_credential : String
  pub crash_after_first_ack : Bool

pub record Arguments : Type 0 where
  pub operation : String
  pub database : String
  pub owner : String
  pub routers : List String

-- encoding/hex and SHA-256.
pub record Digests : Type 0 where
  pub sha256 : String → String
  pub is_hex : String → Bool

unfoldable pub new_journal : Arguments → RecoveryJournal
new_journal a = record {
  operation = a.operation;
  owner = a.owner;
  database = a.database;
  snapshot = none;
  credential = "";
  quarantined = [];
  acknowledgements = [];
  complete = false;
}

-- A journal that is there must be of this recovery.
unfoldable pub resume : Arguments → Option RecoveryJournal → Outcome RecoverError RecoveryJournal
unfolding new_journal
resume a none = ok (new_journal a)
resume a (some j) =
    if str_eq j.operation a.operation && str_eq j.owner a.owner && str_eq j.database a.database
    then ok j
    else err journal_mismatch

-- Every router is frozen before any account is taken.
unfoldable pub freeze_all : Environment → List String → Outcome RecoverError (Unit {0})
freeze_all env [] = ok tt
freeze_all env (router ∷ rest) =
    if env.freezes router then freeze_all env rest else err router_blocked

unfoldable pub collect_all : Environment → List String → Outcome RecoverError (List RouteSnapshot)
collect_all env [] = ok []
collect_all env (router ∷ rest) = elim (env.account router) [
  | none ↦ err router_blocked
  | some account ↦ elim (collect_all env rest) [
    | err e ↦ err e
    | ok accounts ↦ ok (account ∷ accounts)
  ]
]

unfoldable pub insert_all : Table RouteRecord → Table RouteRecord → Table RouteRecord
insert_all m [] = m
insert_all m ((id, r) ∷ rest) = insert_all (insert id r m) rest

module _ {Blob : Type 0} (p : Platform Blob) (digests : Digests) (a : Arguments)
    (env : Environment) where
  unfoldable pub save : Point → RecoveryJournal → Action (Files Blob) RecoverError (Unit {0})
  save point j = do
    stop_if (env.fails point) io_failure
    modify (λ w. record w { journal = some j })

  -- Up to the first save: the lock, the guard, the journal.
  unfoldable pub begin : Action (Files Blob) RecoverError RecoveryJournal
  unfolding save
  begin = do
    stop_if (env.fails take_lock) busy
    stop_if (env.fails write_guard) io_failure
    modify (λ w. record w { guard = some a.operation })
    stop_if (env.fails read_journal) io_failure
    prior ← gets (λ w. w.journal)
    j ← lift (resume a prior)
    save save_journal j
    stop_if (env.fails open_database) io_failure
    pure j

  -- The snapshot and the credential, unless the journal has them.
  unfoldable pub plan_new : RecoveryJournal → Action (Files Blob) RecoverError RecoveryJournal
  unfolding save
  plan_new j = do
    stop_if (env.fails read_backup) io_failure
    row ← gets (λ w. w.body)
    blob ← lift (expect missing_row row)
    backup ← lift (expect undecodable_backup (p.decode blob))
    stop_if (not (str_eq backup.owner a.owner)) foreign_backup
    lift (freeze_all env a.routers)
    accounts ← lift (collect_all env a.routers)
    (s, quarantined) ← lift (prepare backup accounts)
    stop_if (env.fails random) io_failure
    let j' = record j {
      snapshot = some s;
      credential = env.random_credential;
      quarantined = insert_all j.quarantined quarantined;
    }
    save save_prepared j'
    pure j'

  unfoldable pub plan :
      RecoveryJournal → Option RouteSnapshot → Action (Files Blob) RecoverError RecoveryJournal
  unfolding plan_new
  plan j none = plan_new j
  plan j (some s) = pure j

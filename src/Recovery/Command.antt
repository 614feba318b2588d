-- ===== src/Recovery/Command.antt =====
-- The rest of the `recover` command (cmd/worker/recover.go): the routers' acknowledgements, and the
-- writes that end the recovery.
pub mod Fence
pub mod Resume
pub mod Completion
use edgelab.Shared.Table.{insert}
use edgelab.Recovery.{
  RecoverError, crashed, different_digests, invalid_journal, io_failure, missing_row,
  not_acknowledged, router_blocked,
}
use edgelab.Registry.{Platform, RouteSnapshot, snapshot}
use edgelab.Shared.Outcome.{Outcome, err, expect, is_some, ok}
use edgelab.Shared.{
  Bool, List, Option, String, [], false, if◌then◌else◌, len, none, not, some, str_eq, true, ◌&&◌,
  ◌==◌, ◌∷◌,
}
use edgelab.Recovery.Run.{
  Arguments, Digests, Environment, Files, Recovery, RecoveryJournal, begin, plan, remove_guard,
  save, save_acknowledgement, save_complete, write_config, write_row, sync_guard,
}
use edgelab.Shared.Action.{◌>>◌, Action, gets, lift, modify, pure, stop_if, ◌>>=◌}

unfoldable pub acknowledged : Arguments → Option (Option Recovery) → Outcome RecoverError Recovery
acknowledged a none = err router_blocked
acknowledged a (some none) = err not_acknowledged
acknowledged a (some (some recovery)) =
    if str_eq recovery.operation a.operation then ok recovery else err not_acknowledged

-- The first router's digest is the one that the others must have.
unfoldable pub agree_on : Option String → String → Outcome RecoverError String
agree_on none digest = ok digest
agree_on (some first) digest = if str_eq digest first then ok first else err different_digests

unfoldable pub is_first : Option String → Bool
is_first none = true
is_first (some digest) = false

-- len(journal.Credential) != 64 || journal.Snapshot.Owner != config.Owner, and the hex digits
unfoldable pub check_journal :
    Digests → Arguments → RouteSnapshot → RecoveryJournal → Outcome RecoverError (Unit {0})
check_journal digests a s j =
    if len j.credential == 64 && str_eq s.owner a.owner && digests.is_hex j.credential
    then ok tt
    else err invalid_journal

module _ {Blob : Type 0} (p : Platform Blob) (digests : Digests) (a : Arguments)
    (env : Environment) where
  -- One router's acknowledgement, saved before the next call.
  unfoldable pub acknowledge_one :
      RouteSnapshot
      → Option String
      → RecoveryJournal
      → String
      → Action (Files Blob) RecoverError (RecoveryJournal × String)
  unfolding save
  acknowledge_one s first j router = do
    recovery ← lift (acknowledged a (env.acknowledge router s (digests.sha256 j.credential)))
    digest ← lift (agree_on first recovery.digest)
    let j' : RecoveryJournal = record j {
      acknowledgements = insert router recovery.digest j.acknowledgements;
    }
    save p digests a env save_acknowledgement j'
    stop_if (is_first first && env.crash_after_first_ack) crashed
    pure (j', digest)

  unfoldable pub acknowledge_all :
      RouteSnapshot
      → Option String
      → RecoveryJournal
      → List String
      → Action (Files Blob) RecoverError RecoveryJournal
  acknowledge_all s first j [] = pure j
  acknowledge_all s first j (router ∷ rest) =
      acknowledge_one s first j router >>= λ x. acknowledge_all s (some x.1) x.0 rest

  -- UPDATE routing_state: the row must be there.
  unfoldable pub write_body : RouteSnapshot → Action (Files Blob) RecoverError (Unit {0})
  write_body s = do
    encoded ← lift (expect io_failure (p.encode s))
    stop_if (env.fails write_row) io_failure
    row ← gets (λ w. w.body)
    stop_if (not (is_some row)) missing_row
    modify (λ w. record w { body = some encoded })

  -- The row, the configuration, the journal's end, and last of all the guard.
  unfoldable pub complete_recovery :
      RouteSnapshot → RecoveryJournal → Action (Files Blob) RecoverError (Unit {0})
  unfolding save write_body
  complete_recovery s j = do
    write_body s
    stop_if (env.fails write_config) io_failure
    modify (λ w. record w { token = j.credential })
    save p digests a env save_complete (record j { complete = true })
    stop_if (env.fails remove_guard) io_failure
    modify (λ w. record w { guard = none })
    stop_if (env.fails sync_guard) io_failure

  unfoldable pub distribute :
      RecoveryJournal → Option RouteSnapshot → Action (Files Blob) RecoverError (Unit {0})
  distribute j none = lift (err invalid_journal)
  distribute j (some s) = do
    lift (check_journal digests a s j)
    j' ← acknowledge_all s none j a.routers
    complete_recovery s j'

  -- The command once its arguments and its configuration have passed.
  unfoldable pub recover : Action (Files Blob) RecoverError (Unit {0})
  recover = do
    j ← begin p digests a env
    j' ← plan p digests a env j j.snapshot
    distribute j' j'.snapshot

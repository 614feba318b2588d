-- ===== src/Daemon/Run.antt =====
-- serveWorker (cmd/worker/serve.go) from its start on: what the daemon's handlers and its publication
-- loop do, in turn.
use edgelab.Daemon.{
  Machine, ServeError, ServeFlags, check_owner, invalid_config, not_inserted, open_state, opening,
  read_config, status_epoch,
}
use edgelab.Registry.{Database, Faults, Platform}
use edgelab.Registry.History.{insert_initial}
use edgelab.Management.{Config, Decoders, Guard, HttpRequest, check_config, post_instances}
use edgelab.Publication.{Surroundings, Worker, note, publish}
use edgelab.Shared.Outcome.{err, ok}
use edgelab.Shared.Table.{Table}
use edgelab.Shared.Action.{◌>>=◌, ◌>>◌, Action, lift, pure, relabel_outcome, stop_if}
use edgelab.Shared.{List, Option, String, [], not, ℕ, ◌∷◌}

-- What the start leaves to the handlers.
pub record Settings : Type 0 where
  pub config : Config
  pub allowed : Table (Unit {0})
  pub epoch : Option ℕ

-- What the handlers and the loop see, in turn.
pub data Event (Body : Type 0) : Type 0 where
  called : Faults → Guard → HttpRequest Body → Event Body
  published : Surroundings → Event Body

-- The routers that the round of the loop has not come to yet.
pub record Daemon (Blob : Type 0) : Type 0 where
  pub database : Database Blob
  pub worker : Worker
  pub due : List String

module _ {Blob : Type 0} (p : Platform Blob) where
  unfoldable pub store_initial : String → Action (Database Blob) ServeError (Unit {0})
  store_initial owner db = elim (insert_initial p owner db) [
    | ok db' ↦ (db', ok tt)
    | err e ↦ (db, err (opening e))
  ]

  unfoldable pub serve_worker : ServeFlags → Machine → Action (Database Blob) ServeError Settings
  unfolding read_config open_state status_epoch
  serve_worker flags h = do
    config ← lift (read_config flags h)
    allowed ← lift (relabel_outcome invalid_config (check_config config))
    lift (open_state h)
    stop_if (not h.inserts) not_inserted
    store_initial config.owner
    epoch ← lift (status_epoch h flags.status_version)
    (λ db. (db, check_owner p h config.owner db))
    pure (record { config = config; allowed = allowed; epoch = epoch })

  -- The maps of a new daemon are empty.
  unfoldable pub started : Settings → Database Blob → Daemon Blob
  started settings db = record {
    database = db;
    worker = record { identities = []; publications = []; commands = []; posts = [] };
    due = settings.config.routers;
  }

  -- A call of `/instances`, or the loop's next router; after the last one the loop starts again.
  unfoldable pub handle :
      {Body : Type 0} → Decoders Body → Settings → Event Body → Daemon Blob → Daemon Blob
  handle d settings (called f guard r) x = record x {
    database = (post_instances d settings.config settings.allowed p f guard x.database r).0;
  }
  handle d settings (published env) x = elim x.due [
    | [] ↦ record x { due = settings.config.routers }
    | router ∷ rest ↦ record x {
      worker =
          note settings.config env router
            (publish settings.config env p x.database router x.worker);
      due = rest;
    }
  ]

  unfoldable pub serve :
      {Body : Type 0} → Decoders Body → Settings → List (Event Body) → Daemon Blob → Daemon Blob
  serve d settings [] x = x
  serve d settings (event ∷ rest) x = serve d settings rest (handle d settings event x)

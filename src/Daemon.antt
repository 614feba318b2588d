-- ===== src/Daemon.antt =====
-- The start of serveWorker (cmd/worker/serve.go): its configuration's file, its lock and its database.
pub mod Run
pub mod Served
pub mod Started
use edgelab.Registry.{Database, Platform, snapshot}
use edgelab.Registry.History.{OpenError}
use edgelab.Management.{Config, ConfigError}
use edgelab.Shared.Pragmas.{is_durable}
use edgelab.Shared.Outcome.{Outcome, err, expect, fail_if, ok, ◌>>=◌, ◌>>◌}
use edgelab.Shared.{
  Bool, Option, String, if◌then◌else◌, ltb, none, not, some, str_eq, ℕ, ◌==◌, ◌||◌,
}

-- A status version below 0 is unsupported as any but 1 and 2 is.
pub record ServeFlags : Type 0 where
  pub config_path : String
  pub state_path : String
  pub status_version : ℕ

-- What the start meets: the configuration's file, by its length and its decoded form; the lock; the
-- database with its settings; which of its statements succeed; the epoch that it has.
pub record Machine : Type 0 where
  pub config_file : Option (ℕ × Option Config)
  pub opens_lock : Bool
  pub is_free : Bool
  pub opens_database : Bool
  pub journal : Option String
  pub synchronous : Option ℕ
  pub makes_tables : Bool
  pub inserts : Bool
  pub epoch : Option ℕ
  pub reads_state : Bool

pub data ServeError : Type 0 where
  no_paths unreadable_config config_too_large undecodable_config : ServeError
  invalid_config : ConfigError → ServeError
  busy unreadable_database not_durable no_tables not_inserted : ServeError
  opening : OpenError → ServeError
  no_epoch unsupported_status unreadable_state other_owner : ServeError

unfoldable pub read_config : ServeFlags → Machine → Outcome ServeError Config
read_config flags h = do
  fail_if (str_eq flags.state_path "" || str_eq flags.config_path "") no_paths
  (bytes, decoded) ← expect unreadable_config h.config_file
  fail_if (ltb 65536 bytes) config_too_large
  expect undecodable_config decoded

-- The lock, the settings of the database and its tables.
unfoldable pub open_state : Machine → Outcome ServeError (Unit {0})
open_state h = do
  fail_if (not h.opens_lock || not h.is_free) busy
  fail_if (not h.opens_database) unreadable_database
  fail_if (not (is_durable h.journal h.synchronous)) not_durable
  fail_if (not h.makes_tables) no_tables

unfoldable pub status_epoch : Machine → ℕ → Outcome ServeError (Option ℕ)
status_epoch h version =
    if version == 2
    then (do epoch ← expect no_epoch h.epoch; ok (some epoch))
    else if version == 1
    then ok none
    else err unsupported_status

unfoldable pub check_owner :
    {Blob : Type 0}
    → Platform Blob
    → Machine
    → String
    → Database Blob
    → Outcome ServeError (Unit {0})
check_owner p h owner db = do
  fail_if (not h.reads_state) unreadable_state
  current ← expect unreadable_state (snapshot p db)
  fail_if (not (str_eq current.owner owner)) other_owner

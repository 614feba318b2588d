-- ===== src/Registry.antt =====
-- The worker's registry of instances (cmd/worker/serve.go): the routing records, the database that
-- holds them, and `register`, the one operation that changes them. The proofs are in the children.
pub mod Registered
pub mod Rollback
pub mod Invariant
pub mod Identity
pub mod Idempotency
pub mod Capacity
pub mod History
pub mod Deletion
pub mod Revisions
pub mod Lives
pub mod Refinement
use edgelab.Image.Unpack.{written}
use edgelab.Shared.{
  ℕ, ◌+◌, ◌-◌, ◌%◌, ◌^◌, String, ◌≡◌, Bool, true, false, not, ◌&&◌, ◌||◌, Option, none, some, List,
  [], ◌∷◌, leb, if◌then◌else◌, length, str_eq,
}
use edgelab.Shared.Table.{Table, lookup, insert}
use edgelab.Shared.Outcome.{Outcome, ok, err, ◌>>=◌, ◌>>◌, fail_if, expect}

pub record RouteRecord : Type 0 where
  pub id : String
  pub app : String
  pub endpoint : String
  pub revision : ℕ  -- uint64
  pub deleted : Bool

pub record RouteSnapshot : Type 0 where
  pub schema : ℕ
  pub owner : String
  pub incarnation : ℕ  -- uint64
  pub revision : ℕ  -- uint64
  pub records : Table RouteRecord

pub record Registration : Type 0 where
  pub operation : String
  pub id : String
  pub app : String
  pub endpoint : String
  pub deleted : Bool

-- A row of `routing_operations`.
pub record Operation : Type 0 where
  pub request_hash : String
  pub revision : ℕ

-- `body` is the row of `routing_state` with id 1, if it is there.
pub record Database (Blob : Type 0) : Type 0 where
  pub body : Option Blob
  pub operations : Table Operation

-- encoding/json on snapshots, and the SHA-256 of an encoded request. A snapshot that was encoded is
-- decoded to itself.
pub record Platform (Blob : Type 0) : Type 0 where
  pub encode : RouteSnapshot → Option Blob
  pub decode : Blob → Option RouteSnapshot
  pub request_hash : Registration → String
  pub decode-encode : (s : RouteSnapshot) (b : Blob) → encode s ≡ some b → decode b ≡ some s

-- Which calls of the database fail.
pub record Faults : Type 0 where
  pub begin : Bool
  pub read_operation : Bool
  pub count_operations : Bool
  pub read_state : Bool
  pub write_state : Bool
  pub write_operation : Bool
  pub commit : Bool

pub data RegisterError : Type 0 where
  database undecodable not_encodable : RegisterError
  different_intent operation_capacity identity_conflict : RegisterError
  unknown_or_full endpoint_reserved revision_exhausted : RegisterError

abbrev pub max_operations : ℕ
max_operations = 16384

abbrev pub max_records : ℕ
max_records = 4096

-- 1<<63-1
abbrev pub max_revision : ℕ
max_revision = 2 ^ 63 - 1

-- uint64 addition wraps.
abbrev pub u64 : ℕ → ℕ
u64 n = n % 2 ^ 64

-- exists && !old.Deleted && request.Deleted
unfoldable pub is_reserved_deletion : Option RouteRecord → Registration → Bool
is_reserved_deletion none request = false
is_reserved_deletion (some old) request = not old.deleted && request.deleted

-- exists && (old.App != request.App || old.Endpoint != … || old.Deleted && !request.Deleted)
unfoldable pub conflicts : Option RouteRecord → Registration → Bool
conflicts none request = false
conflicts (some old) request =
    not (str_eq old.app request.app)
    || not (str_eq old.endpoint request.endpoint)
    || (old.deleted && not request.deleted)

-- !exists && (request.Deleted || len(state.Records) >= 4096)
unfoldable pub is_unknown_or_full : Option RouteRecord → Registration → ℕ → Bool
is_unknown_or_full none request size = request.deleted || leb max_records size
is_unknown_or_full (some old) request size = false

-- The loop over the records: another instance has the endpoint.
unfoldable pub is_taken : String → String → Table RouteRecord → Bool
is_taken endpoint id [] = false
is_taken endpoint id ((k, r) ∷ m) =
    (str_eq r.endpoint endpoint && not (str_eq k id)) || is_taken endpoint id m

-- The guards of a new operation, in their order.
unfoldable pub check : ℕ → RouteSnapshot → Registration → Outcome RegisterError (Unit {0})
check count state request = do
  let old = lookup request.id state.records
  fail_if (leb max_operations count && not (is_reserved_deletion old request)) operation_capacity
  fail_if (conflicts old request) identity_conflict
  fail_if (is_unknown_or_full old request (length state.records)) unknown_or_full
  fail_if (is_taken request.endpoint request.id state.records) endpoint_reserved
  fail_if (leb max_revision state.revision) revision_exhausted

-- The record that a registration leaves.
abbrev pub new_record : Registration → ℕ → RouteRecord
new_record request revision = record {
  id = request.id;
  app = request.app;
  endpoint = request.endpoint;
  revision = revision;
  deleted = request.deleted;
}

-- state.Revision++ and the write to the map
unfoldable pub record_request : RouteSnapshot → Registration → RouteSnapshot
record_request state request =
    let revision = u64 (state.revision + 1) in
    record state {
      revision = revision;
      records = insert request.id (new_record request revision) state.records;
    }

module _ {Blob : Type 0} (p : Platform Blob) where
  -- `daemon.snapshot()`: the row, decoded.
  unfoldable pub snapshot : Database Blob → Option RouteSnapshot
  snapshot db = elim db.body [ none ↦ none | some blob ↦ p.decode blob ]

  -- The reads of a new operation, up to the snapshot that is to be written, encoded.
  unfoldable pub next_state :
      Faults → Database Blob → Registration → Outcome RegisterError (Blob × ℕ)
  next_state f db request = do
    fail_if f.count_operations database
    fail_if f.read_state database
    blob ← expect database db.body
    state ← expect undecodable (p.decode blob)
    check (length db.operations) state request
    let next = record_request state request
    encoded ← expect not_encodable (p.encode next)
    ok (encoded, next.revision)

  -- UPDATE and INSERT, on what the transaction sees: a failing INSERT leaves the UPDATE in it.
  unfoldable pub write_rows :
      Faults → Registration → Blob → ℕ → Database Blob → Database Blob × Outcome RegisterError ℕ
  write_rows f request encoded revision db =
      let updated : Database Blob = record db { body = some encoded } in
      let row : Operation = record { request_hash = p.request_hash request; revision = revision } in
      if f.write_state
      then (db, err database)
      else if f.write_operation
      then (updated, err database)
      else (record updated { operations = insert request.operation row db.operations }, ok revision)

  -- What follows the lookup of the operation, if it is new.
  unfoldable pub register_new :
      Faults → Database Blob → Registration → Database Blob × Outcome RegisterError ℕ
  unfolding next_state write_rows
  register_new f db request = elim (next_state f db request) [
    | err e ↦ (db, err e)
    | ok (encoded, revision) ↦ write_rows f request encoded revision db
  ]

  -- `tx.Commit()`, after which the others see what the transaction has written; after an error the
  -- deferred `tx.Rollback()` leaves them what was there before.
  unfoldable pub finish :
      Faults
      → Database Blob
      → Database Blob × Outcome RegisterError ℕ
      → Database Blob × Outcome RegisterError ℕ
  finish f before (written, err e) = (before, err e)
  finish f before (written, ok revision) =
      if f.commit then (before, err database) else (written, ok revision)

  -- What is done once the operation's row has been read; a replay writes nothing.
  unfoldable pub replay_or_new :
      Faults
      → Database Blob
      → Registration
      → Option Operation
      → Database Blob × Outcome RegisterError ℕ
  unfolding finish
  replay_or_new f db request (some old) = (
    db,
    if str_eq old.request_hash (p.request_hash request)
        then ok old.revision
        else err different_intent,
  )
  replay_or_new f db request none = finish f db (register_new f db request)

  unfoldable pub register :
      Faults → Database Blob → Registration → Database Blob × Outcome RegisterError ℕ
  register f db request =
      if f.begin || f.read_operation
      then (db, err database)
      else replay_or_new f db request (lookup request.operation db.operations)

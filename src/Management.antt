-- ===== src/Management.antt =====
-- The management server of a worker (cmd/worker/serve.go): its configuration, and the handlers of
-- `/snapshot` and `/instances` in front of the registry.
pub mod Access
pub mod Ownership
use edgelab.Shared.Table.{Table, insert, lookup}
use edgelab.Shared.Outcome.{Outcome, err, expect, fail_if, is_some, ok, ◌>>=◌, ◌>>◌}
use edgelab.Registry.{
  Database, Faults, Platform, RegisterError, Registration, RouteSnapshot, register, snapshot,
}
use edgelab.Shared.{
  Bool, List, Option, String, [], false, length, ltb, none, not, some, str_eq, true, ℕ, ◌&&◌, ◌==◌,
  ◌||◌, ◌∷◌, len, starts_with, str_append,
}
use edgelab.Registry
use edgelab.Shared.Text.{matches_class, is_alphanumeric}

pub record Workload : Type 0 where
  pub unit : String
  pub app : String
  pub endpoint : String
  pub version : String
  pub kind : String

pub record Config : Type 0 where
  pub router_admin_token : String
  pub workloads : Table Workload
  pub owner : String
  pub applications : List String
  pub token : String
  pub admin_token : String
  pub routers : List String
  pub restore_guard : String

-- ^[a-zA-Z0-9_.-]{1,128}$
unfoldable pub route_name : String → Bool
route_name = matches_class (λ c. is_alphanumeric c || c == b'_' || c == b'.' || c == b'-') 1 128

pub data ConfigError : Type 0 where
  invalid_owner invalid_application application_count router_scheme : ConfigError

-- The set of the configured applications.
unfoldable pub allow : List String → Table (Unit {0}) → Outcome ConfigError (Table (Unit {0}))
allow [] allowed = ok allowed
allow (app ∷ rest) allowed = do
  fail_if (not (route_name app)) invalid_application
  allow rest (insert app tt allowed)

unfoldable pub all_http : List String → Bool
all_http [] = true
all_http (router ∷ rest) = starts_with router "http://" && all_http rest

-- serveWorker's checks of its configuration, with the set of applications.
unfoldable pub check_config : Config → Outcome ConfigError (Table (Unit {0}))
check_config config = do
  fail_if
      (not (route_name config.owner)
        || ltb (len config.token) 32
        || ltb (len config.admin_token) 32
        || not (length config.routers == 2)
        || not (starts_with config.restore_guard "/"))
      invalid_owner
  allowed ← allow config.applications []
  fail_if (length allowed == 0 || ltb 64 (length allowed)) application_count
  fail_if (not (all_http config.routers)) router_scheme
  ok allowed

-- What os.Stat says of the restore guard.
pub data Guard : Type 0 where
  absent present unreadable : Guard

-- err == nil || !os.IsNotExist(err)
unfoldable pub is_restoring : Guard → Bool
is_restoring absent = false
is_restoring present = true
is_restoring unreadable = true

pub record HttpRequest (Body : Type 0) : Type 0 where
  pub method : String
  pub authorization : String
  pub body : Body

-- A literal endpoint, as net/netip reads it: `canonical` is its text with the address unmapped.
pub record AddrPort : Type 0 where
  pub port : ℕ
  pub is_unspecified : Bool
  pub is_multicast : Bool
  pub canonical : String

-- The decoders of the standard library: one JSON value of at most 4096 bytes with no unknown field,
-- whether nothing follows it, and net/netip's reader of endpoints.
pub record Decoders (Body : Type 0) : Type 0 where
  pub registration : Body → Option Registration
  pub is_at_end : Body → Bool
  pub addr_port : String → Option AddrPort

unfoldable pub authorized : {Body : Type 0} → HttpRequest Body → String → Bool
authorized r token = str_eq r.authorization (str_append "Bearer " token)

-- The guards that both handlers begin with, as HTTP statuses.
unfoldable pub admit :
    {Body : Type 0} → String → String → Guard → HttpRequest Body → Outcome ℕ (Unit {0})
unfolding authorized is_restoring
admit method token guard r = do
  fail_if (not (str_eq r.method method)) 405
  fail_if (not (authorized r token)) 401
  fail_if (is_restoring guard) 503

-- port 0, unspecified and multicast addresses are no backends.
unfoldable pub is_backend : AddrPort → Bool
is_backend a = not (a.port == 0 || a.is_unspecified || a.is_multicast)

-- expected, ok := config.Workloads[…]; !ok || expected.App != … || expected.Endpoint != …
unfoldable pub is_configured : Option Workload → String → String → Bool
is_configured none app endpoint = false
is_configured (some expected) app endpoint =
    str_eq expected.app app && str_eq expected.endpoint endpoint

module _ {Body : Type 0} (d : Decoders Body) (config : Config) (allowed : Table (Unit {0})) where
  -- The request of an `/instances` call, its endpoint made canonical, or the status that refuses it.
  unfoldable pub validate : Body → Outcome ℕ Registration
  unfolding is_backend is_configured
  validate body = do
    request ← expect 400 (d.registration body)
    fail_if (not (d.is_at_end body)) 400
    fail_if
        (not (
          route_name request.operation
          && route_name request.id
          && is_some (lookup request.app allowed)))
        400
    address ← expect 400 (d.addr_port request.endpoint)
    fail_if (not (is_backend address)) 400
    let canonical : Registration = record request { endpoint = address.canonical }
    fail_if (not (is_configured (lookup request.id config.workloads) request.app address.canonical))
        400
    ok canonical

  module _ {Blob : Type 0} (p : Platform Blob) where
    -- The status of a registration's outcome.
    unfoldable pub answer : Database Blob × Outcome RegisterError ℕ → Database Blob × Outcome ℕ ℕ
    answer (db, ok revision) = (db, ok revision)
    answer (db, err e) = (db, err 409)

    -- The handler of `/instances`: the revision (status 200), or the status that refuses.
    unfoldable pub post_instances :
        Faults → Guard → Database Blob → HttpRequest Body → Database Blob × Outcome ℕ ℕ
    unfolding answer
    post_instances f guard db r =
        elim (do admit "POST" config.admin_token guard r; validate r.body) [
          | err status ↦ (db, err status)
          | ok request ↦ answer (register p f db request)
        ]

    -- The handler of `/snapshot`.
    unfoldable pub get_snapshot : Guard → Database Blob → HttpRequest Body → Outcome ℕ RouteSnapshot
    get_snapshot guard db r = do admit "GET" config.token guard r; expect 503 (snapshot p db)

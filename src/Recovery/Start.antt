-- ===== src/Recovery/Start.antt =====
-- The `recover` command from its flags on (cmd/worker/recover.go): the checks that precede its lock.
use edgelab.Management.{Config, route_name}
use edgelab.Recovery.{RecoverError}
use edgelab.Recovery.Command.{recover}
use edgelab.Recovery.Run.{Arguments, Digests, Environment, Files}
use edgelab.Registry.{Platform}
use edgelab.Shared.Action.{Action, relabel}
use edgelab.Shared.Outcome.{Outcome, err, expect, fail_if, ok, ◌>>=◌, ◌>>◌}
use edgelab.Shared.{Bool, List, Option, String, [], false, len, ltb, not, str_eq, ◌&&◌, ◌∷◌}

pub record RecoverFlags : Type 0 where
  pub config_path : String
  pub database : String
  pub journal_path : String
  pub operation : String

pub data StartError : Type 0 where
  invalid_arguments unreadable_config undecodable_config unguarded_routers : StartError

pub data CommandError : Type 0 where
  refused : StartError → CommandError
  failed : RecoverError → CommandError

unfoldable pub are_valid : RecoverFlags → Bool
are_valid f =
    route_name f.operation
    && not (str_eq f.database "")
    && not (str_eq f.journal_path "")
    && not (str_eq f.config_path "")
    && not (str_eq f.database f.journal_path)

-- Exactly two, which differ.
unfoldable pub are_two : List String → Bool
are_two [] = false
are_two (first ∷ []) = false
are_two (first ∷ second ∷ []) = not (str_eq first second)
are_two (first ∷ second ∷ third ∷ rest) = false

unfoldable pub is_recoverable : Config → Bool
is_recoverable c =
    are_two c.routers && not (ltb (len c.router_admin_token) 32) && not (str_eq c.restore_guard "")

-- The configuration's file, as far as it can be read, and its decoded form.
unfoldable pub check_options : RecoverFlags → Option (Option Config) → Outcome StartError Arguments
check_options f content = do
  fail_if (not (are_valid f)) invalid_arguments
  decoded ← expect unreadable_config content
  c ← expect undecodable_config decoded
  fail_if (not (is_recoverable c)) unguarded_routers
  ok (record {
    operation = f.operation;
    database = f.database;
    owner = c.owner;
    routers = c.routers;
  })

module _ {Blob : Type 0} (p : Platform Blob) (digests : Digests) (env : Environment) where
  unfoldable pub recover_worker :
      RecoverFlags → Option (Option Config) → Action (Files Blob) CommandError (Unit {0})
  recover_worker f content w = elim (check_options f content) [
    | err e ↦ (w, err (refused e))
    | ok a ↦ relabel failed (recover p digests a env) w
  ]

-- ===== src/Prepare/Worker.antt =====
-- A run of the worker's main that prepares an operation (cmd/worker/main.go): the start, and then the
-- preparation with what the start has read, or the extraction of the child that such a run starts.
use edgelab.Shared.Table.{lookup}
use edgelab.Shared.Outcome.{is_some}
use edgelab.Prepare.Steps.{base_name, extract_image}
use edgelab.Shared.{Bool, if◌then◌else◌, not, str_eq, ◌&&◌}
use edgelab.Prepare.{Setup, World, PrepareError, find_mount}
use edgelab.Shared.Action.{Action, ◌>>=◌, ◌>>◌, lift, relabel, relabel_outcome, gets}
use edgelab.Prepare.Run.{prepare}
use edgelab.Prepare.Start.{
  Arguments, Host, PoolFile, StartError, check_worker, limits_of, open_intents, check_child,
}

pub data WorkError : Type 0 where
  starting : StartError → WorkError
  preparing : PrepareError → WorkError

module _ {Content Number : Type 0} (x : Setup Content Number) (h : Host)
    (a : Arguments Number) where
  -- The setup for the arguments and the pool.
  unfoldable pub setup_for : PoolFile → Setup Content Number
  setup_for p = record x {
    limits = limits_of x.floats x.tools h a p;
    request = record {
      id = a.id;
      image = record {
        media_type = "application/vnd.oci.image.manifest.v1+json";
        digest = a.image;
        size = a.size;
      };
    };
  }

  -- findmnt
  unfoldable pub has_mount : PoolFile → World Content → Bool
  unfolding base_name
  has_mount p w =
      is_some (lookup (base_name (setup_for p)) w.mounts) && not (x.conditions.fails find_mount)

  -- A run that is started for an extraction takes no lock and opens no database.
  unfoldable pub extract_alone : PoolFile → Action (World Content) WorkError (Unit {0})
  unfolding has_mount extract_image
  extract_alone p = do
    mounted ← gets (has_mount p)
    lift (relabel_outcome starting (check_child x.floats x.tools h a mounted))
    relabel preparing (extract_image (setup_for p))

  unfoldable pub prepare_alone : PoolFile → Action (World Content) WorkError (Unit {0})
  prepare_alone p = do
    lift (relabel_outcome starting (open_intents x.floats x.tools h))
    relabel preparing (prepare (setup_for p))

  unfoldable pub work : Action (World Content) WorkError (Unit {0})
  unfolding setup_for extract_alone prepare_alone
  work w =
      (lift (relabel_outcome starting (check_worker x.floats x.tools h a w.volumes)) >>= λ p.
      if str_eq a.unpack_root "" then prepare_alone p else extract_alone p)
        w

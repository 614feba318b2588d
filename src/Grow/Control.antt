-- ===== src/Grow/Control.antt =====
-- The growth controller from its start (cmd/grow/main.go): the checks, and the loop over its steps.
use edgelab.Shared.{List, String, [], if◌then◌else◌, ◌∷◌}
use edgelab.Shared.Action.{◌>>=◌, Action, lift, pure, relabel}
use edgelab.Grow.Step.{step}
use edgelab.Grow.Start.{ControlError, Host, refused, start}
use edgelab.Grow.{Conditions, Flags, GrowError, Report, Volume, whole_extents}

-- The loop, for as many rounds as there are conditions: a step that fails ends it, and so does the
-- first one unless the controller watches.
unfoldable pub reconcile : String → Flags → List Conditions → Action Volume GrowError (List Report)
reconcile uuid flags [] = pure []
reconcile uuid flags (c ∷ rest) = step uuid flags c >>= λ report.
    if flags.watch
    then (reconcile uuid flags rest >>= λ more. pure (report ∷ more))
    else pure (report ∷ [])

-- The target in whole extents.
unfoldable pub control :
    String → Flags → Host → List Conditions → Action Volume ControlError (List Report)
control root flags h rounds = lift (start root flags h) >>= λ f.
    relabel refused (reconcile f.uuid (record flags { target = whole_extents flags.target }) rounds)

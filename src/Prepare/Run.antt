-- ===== src/Prepare/Run.antt =====
-- A run of the worker's main (cmd/worker/main.go): the steps in their order, and what is noted of a
-- failure.
use Prim.Native.String.{slice}
use edgelab.Image.Layers.{load_layers}
use edgelab.Storage.Creation.{create}
use edgelab.Prepare.Steps.{
  base_name, begin, check_capacity, check_existing, fault_point, image_hash, on_cache, on_volumes,
  rebuild_unless, register_snapshot, stage, take_snapshot, seal_origin,
}
use edgelab.Shared.{String, if◌then◌else◌, str_append, true}
use edgelab.Prepare.{
  PrepareError, Setup, World, is_interruption, load_error, save_error, update_row, verified, sealed,
}
use edgelab.Shared.Outcome.{Outcome, err, ok}
use edgelab.Storage.{LogicalVolume}
use edgelab.Shared.Action.{◌>>=◌, ◌>>◌, Action, pure}

module _ {Content Number : Type 0} (x : Setup Content Number) where
  -- UPDATE operations SET error=?, whose own failure is passed over.
  unfoldable pub note_error : World Content → World Content
  note_error w = if x.conditions.fails save_error then w else record w {
    operations = update_row (λ row. record row { has_error = true }) x.request.id w.operations;
  }

  unfoldable pub noted :
      {A : Type 0} → World Content × Outcome PrepareError A → World Content × Outcome PrepareError A
  unfolding note_error
  noted (w, ok a) = (w, ok a)
  noted (w, err e) = ((if is_interruption e then w else note_error w), err e)

  unfoldable pub image_tag : String
  image_tag = str_append "image_" (image_hash x)

  -- The layers are in the cache, and are what they should be.
  unfoldable pub load : Action (World Content) PrepareError (Unit {0})
  unfolding fault_point check_capacity on_cache
  load = do
    fault_point x "requested"
    check_capacity x 0
    image ←
        on_cache x load_error
          (load_layers x.contents x.decoding x.net x.conditions.crash_after x.request.image)
    pure tt

  unfoldable pub create_base : Action (World Content) PrepareError LogicalVolume
  unfolding image_tag on_volumes
  create_base = on_volumes x (create x.floats x.limits x.tools (base_name x) image_tag "")

  -- Up to the image's volume, which may have been there.
  unfoldable pub verify : Action (World Content) PrepareError LogicalVolume
  unfolding load create_base
  verify = load >> (stage x "verified" verified >> create_base)

  -- The volume holds the image.
  unfoldable pub ensure_image : LogicalVolume → Action (World Content) PrepareError (Unit {0})
  ensure_image origin = do
    fault_point x "lv"
    valid ← check_existing x
    rebuild_unless x valid origin

  unfoldable pub lay_out : LogicalVolume → Action (World Content) PrepareError (Unit {0})
  unfolding ensure_image
  lay_out origin = ensure_image origin >> (seal_origin x >> stage x "sealed" sealed)

  -- The hash of the operation names its snapshot.
  unfoldable pub snapshot_name : String
  snapshot_name = str_append "operation_" (slice x.conditions.operation_hash 0 24)

  unfoldable pub snapshot_tag : String
  snapshot_tag = str_append "operation_" x.conditions.operation_hash

  unfoldable pub carry_on : String → Action (World Content) PrepareError (Unit {0})
  unfolding verify lay_out snapshot_tag
  carry_on old_uuid =
      (verify >>= lay_out)
      >> (take_snapshot x snapshot_name snapshot_tag old_uuid >>= λ snap.
          register_snapshot x snap.uuid)

  unfoldable pub prepare : Action (World Content) PrepareError (Unit {0})
  unfolding carry_on noted snapshot_name
  prepare = begin x snapshot_name >>= λ old_uuid w. noted (carry_on old_uuid w)

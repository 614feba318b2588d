-- ===== src/Storage/Creation.antt =====
-- The creation of thin volumes, and their mounts (cmd/worker/storage.go).
use edgelab.Shared.Table.{delete, insert, lookup, Table}
use edgelab.Shared.Outcome.{Outcome, err, is_some, ok}
use edgelab.Shared.{List, Option, String, none, not, some, str_eq, ◌&&◌}
use edgelab.Storage.{
  Floats, Limits, LogicalVolume, StorageError, Tools, no_volume, capacity, creation_reserve,
  device_of, found_valid, inspect, lvcreate, mkdir, mount_conflict, mount_volume, readlink,
  tool_failed, umount,
}
use edgelab.Shared.Action.{Action, ◌>>=◌, ◌>>◌, gets, lift, modify, stop_if}

module _ {Number : Type 0} (floats : Floats Number) (limits : Limits Number) (tools : Tools) where
  -- A volume that is not there yet.
  unfoldable pub create_new :
      String → String → String → Action (List LogicalVolume) StorageError LogicalVolume
  unfolding capacity found_valid
  create_new name tag origin = do
    before ← gets (λ volumes. volumes)
    lift (capacity floats limits tools creation_reserve before)
    stop_if (tools.fails lvcreate) tool_failed
    modify (tools.created name tag origin)
    after ← gets (λ volumes. volumes)
    lift (found_valid floats limits tools tag origin (inspect floats limits tools name after))

  unfoldable pub create_if_absent :
      String
      → String
      → String
      → Outcome StorageError LogicalVolume
      → Action (List LogicalVolume) StorageError LogicalVolume
  unfolding create_new
  create_if_absent name tag origin (ok v) = lift (found_valid floats limits tools tag origin (ok v))
  create_if_absent name tag origin (err no_volume) = create_new name tag origin
  create_if_absent name tag origin (err e) = lift (err e)

  unfoldable pub create :
      String → String → String → Action (List LogicalVolume) StorageError LogicalVolume
  unfolding create_if_absent
  create name tag origin volumes =
      create_if_absent name tag origin (inspect floats limits tools name volumes) volumes

  -- findmnt finds nothing, or the device that is mounted, which must be the volume's.
  unfoldable pub mount_at : String → Option String → Action (Table String) StorageError (Unit {0})
  mount_at name none = do
    stop_if (tools.fails mount_volume) tool_failed
    modify (insert name (device_of name))
  mount_at name (some existing) = do
    stop_if (tools.fails readlink) tool_failed
    stop_if (not (str_eq (tools.resolve existing) (tools.resolve (device_of name)))) mount_conflict

  unfoldable pub mount : String → Action (Table String) StorageError (Unit {0})
  unfolding mount_at
  mount name = do
    stop_if (tools.fails mkdir) tool_failed
    existing ← gets (lookup name)
    mount_at name existing

  -- findmnt finds nothing, or something that is unmounted.
  unfoldable pub unmount : String → Action (Table String) StorageError (Unit {0})
  unmount name = do
    existing ← gets (lookup name)
    stop_if (is_some existing && tools.fails umount) tool_failed
    modify (delete name)

-- ===== src/Service/Devices.antt =====
-- What an owner does with a device (internal/server/service/device.go).
pub mod Follows
pub mod Flip
mod Tests
use diyddns.Prelude.{String, Bool, false, List, str_eq, if◌then◌else◌}
use diyddns.Store.Db.{Error, not_found, Result, ok, err, Db, Sql, pure, throw}
use diyddns.Store.Users.{User, get_user_by_id}
use diyddns.Store.Devices.Rows.{Device}
use diyddns.Store.Devices.Writes.{get_by_id, rename}
use diyddns.Store.Devices.Lists.{list_by_user}
use diyddns.Store.Devices.Expiry.{delete}
use diyddns.Store.Audit.{entry, log}
use diyddns.Service.Membership.{
  Membership, in_feed, Fires, lift, fail, give, ◌>>=◌, emit_membership, flip_disabled,
}

-- `List`
unfoldable pub list_devices : String → Sql (List Device)
list_devices user_id = list_by_user user_id

abbrev pub owned_by : String → Result Device × Db → Result Device × Db
owned_by user_id (err e, db) = (err e, db)
owned_by user_id (ok dev, db) =
    if str_eq dev.user_id user_id then (ok dev, db) else (err not_found, db)

-- `ownedDevice`: the device of another user is not found.
unfoldable pub owned_device : String → String → Sql Device
owned_device user_id id db = owned_by user_id (get_by_id id db)

module _ (notify : Membership → Db → Db) where
  -- `Rename`
  unfoldable pub rename_device : String → String → String → Fires Device
  rename_device user_id id new_label = do
    _ ← lift (owned_device user_id id)
    _ ← lift (rename id new_label)
    _ ← lift (log (entry user_id "device.renamed" "device" id))
    lift (get_by_id id)

  -- `SetEnabled`
  unfoldable pub set_enabled : String → String → Bool → Fires Device
  set_enabled user_id id disabled = do
    dev ← lift (owned_device user_id id)
    owner ← lift (get_user_by_id dev.user_id)
    let event = if disabled then "device.disabled" else "device.enabled"
    flip_disabled notify dev owner disabled (entry user_id event "device" id)

  -- `Delete`
  unfoldable pub delete_device : String → String → Fires (Unit {0})
  delete_device user_id id = do
    dev ← lift (owned_device user_id id)
    owner ← lift (get_user_by_id dev.user_id)
    _ ← lift (delete id)
    _ ← lift (log (entry user_id "device.deleted" "device" id))
    emit_membership notify dev (in_feed dev owner) false

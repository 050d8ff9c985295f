-- ===== src/Service/Enrollment.antt =====
-- The enrollment of devices with single-use codes (internal/server/service/enrollment.go). What
-- GenerateSecret and SealSecret return is an argument: nothing, or a secret and its sealed form.
pub mod Once
mod Tests
pub mod Accounts
pub mod Reaches
pub mod Redeemed
use diyddns.Prelude.{
  ℕ, ◌+◌, String, Bool, false, List, Option, none, some, str_eq, leb, ◌==◌, not, if◌then◌else◌,
}
use diyddns.Store.Db.{
  Error, not_found, conflict, driver, Result, ok, err, Db, Sql, pure, throw, now_unix, ◌>>=◌, ◌>>◌,
}
use diyddns.Store.Devices.Rows.{Device}
use diyddns.Store.Devices.Writes.{create}
use diyddns.Store.Devices.Expiry.{delete}
use diyddns.Store.Codes.{EnrollmentCode, create_code, get_code, consume_enrollment_code}
use diyddns.Store.Audit.{entry, log}
use diyddns.Auth.Timestamp.{seconds}

pub record ClientMeta : Type 0 where
  pub hostname : String
  pub os : String
  pub client_version : String

pub record EnrollResult (Secret : Type 0) : Type 0 where
  pub device_id : String
  pub secret : Secret

-- The reasons that are logged.
pub data Rejected : Type 0 where
  unknown used expired lost_race label_conflict : Rejected

-- `CreateCode`, with the random code and the TTL in nanoseconds.
unfoldable pub create_enrollment_code : ℕ → String → String → String → Sql (String × ℕ)
create_enrollment_code code_ttl code user_id label = do
  now ← now_unix
  let expires_at = now + seconds code_ttl
  _ ← create_code (record {
    code = code;
    user_id = user_id;
    label = label;
    expires_at = expires_at;
    used_at = 0;
    device_id = "";
  })
  pure (code, expires_at)

abbrev pub new_device : String → String → String → ClientMeta → Device
new_device user_id label sealed meta = record {
  id = "";
  user_id = user_id;
  label = label;
  secret_hash = sealed;
  current_ipv4 = "";
  current_ipv6 = "";
  hostname = meta.hostname;
  os = meta.os;
  client_version = meta.client_version;
  last_seen_at = 0;
  disabled = false;
  created_at = 0;
  updated_at = 0;
  v4_confirmed_at = 0;
  v6_confirmed_at = 0;
  v4_warn_level = 0;
  v6_warn_level = 0;
}

-- What `ConsumeCode` returns, the reason it logs, and the device whose compensating delete failed.
pub record Outcome (Secret : Type 0) : Type 0 where
  pub result : Result (EnrollResult Secret)
  pub reason : Option Rejected
  pub orphan : Option String

abbrev pub fresh_used : Result EnrollmentCode → Bool
fresh_used (ok c) = not (c.used_at == 0)
fresh_used (err e) = false

-- `rollbackDevice`
abbrev pub orphaned : String → Result (Unit {0}) → Option String
orphaned id (ok _) = none
orphaned id (err e) = some id

abbrev pub race_lost : Error → Option Rejected
race_lost not_found = some lost_race
race_lost conflict = none
race_lost driver = none

module _ {Secret : Type 0} where
  -- `createSealedDevice`
  unfoldable pub create_sealed_device :
      Option (Secret × String) → String → String → String → ClientMeta → Sql (Device × Secret)
  create_sealed_device none new_id user_id label meta = throw driver
  create_sealed_device (some (secret, sealed)) new_id user_id label meta = do
    dev ← create new_id (new_device user_id label sealed meta)
    pure (dev, secret)

  abbrev pub refused : Error → Option Rejected → Outcome Secret
  refused e reason = record { result = err e; reason = reason; orphan = none }

  -- `conflictRejection`
  unfoldable pub conflict_rejection : String → Db → Outcome Secret × Db
  conflict_rejection code db =
      let (fresh, db') = get_code code db in
      if fresh_used fresh
      then (refused not_found (some lost_race), db')
      else (refused conflict (some label_conflict), db')

  -- From `Consume` on.
  abbrev pub settled : Device → Secret → String → Result EnrollmentCode → Db → Outcome Secret × Db
  settled dev secret user_id (ok _) db =
      let (_, end) = log (entry user_id "device.enroll.code" "device" dev.id) db in
      (
        record {
          result = ok (record { device_id = dev.id; secret = secret });
          reason = none;
          orphan = none;
        },
        end,
      )
  settled dev secret user_id (err e) db =
      let (undone, end) = delete dev.id db in
      (record { result = err e; reason = race_lost e; orphan = orphaned dev.id undone }, end)

  abbrev pub redeem : String → Device → Secret → ℕ → EnrollmentCode → Db → Outcome Secret × Db
  redeem code dev secret now c db =
      let (r, db') = consume_enrollment_code code dev.id now db in
      settled dev secret c.user_id r db'

  abbrev pub created :
      String → ℕ → EnrollmentCode → Result (Device × Secret) → Db → Outcome Secret × Db
  created code now c (ok (dev, secret)) db = redeem code dev secret now c db
  created code now c (err conflict) db = conflict_rejection code db
  created code now c (err not_found) db = (refused not_found none, db)
  created code now c (err driver) db = (refused driver none, db)

  abbrev pub checked :
      Option (Secret × String)
      → String
      → String
      → ClientMeta
      → EnrollmentCode
      → Db
      → Outcome Secret × Db
  checked minted new_id code meta c db =
      let now = db.clock in
      if not (c.used_at == 0)
      then (refused not_found (some used), db)
      else if leb c.expires_at now
      then (refused not_found (some expired), db)
      else let (r, db') = create_sealed_device minted new_id c.user_id c.label meta db in
        created code now c r db'

  abbrev pub looked_up :
      Option (Secret × String)
      → String
      → String
      → ClientMeta
      → Result EnrollmentCode
      → Db
      → Outcome Secret × Db
  looked_up minted new_id code meta (ok c) db = checked minted new_id code meta c db
  looked_up minted new_id code meta (err not_found) db = (refused not_found (some unknown), db)
  looked_up minted new_id code meta (err conflict) db = (refused conflict none, db)
  looked_up minted new_id code meta (err driver) db = (refused driver none, db)

  -- `ConsumeCode`
  unfoldable pub consume_code :
      Option (Secret × String) → String → String → ClientMeta → Db → Outcome Secret × Db
  consume_code minted new_id code meta db =
      let (r, db') = get_code code db in looked_up minted new_id code meta r db'

  -- `EnrollForUser`
  unfoldable pub enroll_for_user :
      Option (Secret × String) → String → String → String → ClientMeta → Sql (EnrollResult Secret)
  enroll_for_user minted new_id user_id event_type meta = do
    let label = if str_eq meta.hostname "" then "device" else meta.hostname
    made ← create_sealed_device minted new_id user_id label meta
    log (entry user_id event_type "device" made.0.id)
    pure (record { device_id = made.0.id; secret = made.1 })

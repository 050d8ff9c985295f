-- ===== src/Store/Devices/Writes.antt =====
-- Reads and single-statement writes of the devices table (internal/store/devices.go).
pub mod Laws
use diyddns.Prelude.{
  ℕ, String, Bool, not, ◌&&◌, ◌||◌, List, [], ◌∷◌, ◌++◌, Option, none, some, str_eq, if◌then◌else◌,
  find_where, update_where, exists,
}
use diyddns.Store.Db.{
  not_found, conflict, driver, Result, ok, err, UserRow, DeviceRow, Tables, Sql, pure, statement,
  now_unix, ◌>>=◌, null_if_empty, null_if_zero, has_id,
}
use diyddns.Store.Devices.Rows.{Device, scan_device, device_row}

abbrev pub has_label : String → String → DeviceRow → Bool
has_label user_id label r = str_eq r.user_id user_id && str_eq r.label label

abbrev pub found {ℓ} : {A : Type ℓ} → Option A → Result A
found none = err not_found
found (some a) = ok a

unfoldable pub get_by_id : String → Sql Device
get_by_id id = do
  row ← statement (λ t. (found (find_where (has_id id) t.devices), t))
  pure (scan_device row)

unfoldable pub get_by_user_and_label : String → String → Sql Device
get_by_user_and_label user_id label = do
  row ← statement (λ t. (found (find_where (has_label user_id label) t.devices), t))
  pure (scan_device row)

-- The UNIQUE (user_id, label) and PRIMARY KEY constraints, and the foreign key on users, which is
-- no uniqueness violation.
unfoldable pub insert_device : Device → Tables → Result Device × Tables
unfolding device_row
insert_device d t =
    if exists (has_id d.id) t.devices || exists (has_label d.user_id d.label) t.devices
    then (err conflict, t)
    else if exists (λ (u : UserRow). str_eq u.id d.user_id) t.users
    then (ok d, record t { devices = t.devices ++ device_row d ∷ [] })
    else (err driver, t)

-- `Create`; `new_id` is what `NewID()` returns.
unfoldable pub create : String → Device → Sql Device
unfolding insert_device
create new_id d = do
  now ← now_unix
  let id = if str_eq d.id "" then new_id else d.id
  statement (insert_device (record d { id = id; created_at = now; updated_at = now }))

-- An UPDATE by id; no affected row is `ErrNotFound`.
abbrev pub update_device : String → (DeviceRow → DeviceRow) → Tables → Result (Unit {0}) × Tables
update_device id f t =
    if exists (has_id id) t.devices
    then (ok tt, record t { devices = update_where (has_id id) f t.devices })
    else (err not_found, t)

-- CASE WHEN ? THEN a ELSE b END
abbrev pub case_when {ℓ} : {A : Type ℓ} → Bool → A → A → A
case_when b x y = if b then x else y

-- The contact columns that `updateDeviceIP` and `Touch` share.
abbrev pub contact : Bool → Bool → ℕ → ℕ → DeviceRow → DeviceRow
contact v4_asserted v6_asserted last_seen_at updated_at r = record r {
  last_seen_at = null_if_zero last_seen_at;
  updated_at = updated_at;
  v4_confirmed_at = case_when v4_asserted (some last_seen_at) r.v4_confirmed_at;
  v6_confirmed_at = case_when v6_asserted (some last_seen_at) r.v6_confirmed_at;
  v4_warn_level = case_when v4_asserted 0 r.v4_warn_level;
  v6_warn_level = case_when v6_asserted 0 r.v6_warn_level;
}

-- The arguments of `updateDeviceIP` that are columns.
pub record Contact : Type 0 where
  pub ipv4 : String
  pub ipv6 : String
  pub client_version : String
  pub hostname : String
  pub os : String

abbrev pub set_contact : Contact → Bool → Bool → ℕ → ℕ → DeviceRow → DeviceRow
set_contact c v4_asserted v6_asserted last_seen_at updated_at r =
    let r' = contact v4_asserted v6_asserted last_seen_at updated_at r in
    record r' {
      current_ipv4 = null_if_empty c.ipv4;
      current_ipv6 = null_if_empty c.ipv6;
      client_version = null_if_empty c.client_version;
      hostname = null_if_empty c.hostname;
      os = null_if_empty c.os;
    }

unfoldable pub update_device_ip : String → Contact → Bool → Bool → ℕ → ℕ → Sql (Unit {0})
update_device_ip id c v4_asserted v6_asserted last_seen_at updated_at =
    statement (update_device id (set_contact c v4_asserted v6_asserted last_seen_at updated_at))

unfoldable pub update_ip : String → Contact → ℕ → Sql (Unit {0})
unfolding update_device_ip
update_ip id c last_seen_at = do
  now ← now_unix
  update_device_ip id c (not (str_eq c.ipv4 "")) (not (str_eq c.ipv6 "")) last_seen_at now

unfoldable pub touch : String → Bool → Bool → ℕ → Sql (Unit {0})
touch id v4_asserted v6_asserted last_seen_at = do
  now ← now_unix
  statement (update_device id (contact v4_asserted v6_asserted last_seen_at now))

-- The rows that a rename would collide with: another device of the same user.
abbrev collides : String → String → List DeviceRow → DeviceRow → Bool
collides id label rows r =
    exists (λ (o : DeviceRow). has_label r.user_id label o && not (has_id id o)) rows

unfoldable pub rename : String → String → Sql (Unit {0})
rename id label = do
  now ← now_unix
  statement λ t.
      if exists (λ r. has_id id r && collides id label t.devices r) t.devices
      then (err conflict, t)
      else update_device id (λ r. record r { label = label; updated_at = now }) t

unfoldable pub rotate_secret : String → String → Sql (Unit {0})
rotate_secret id secret_hash = do
  now ← now_unix
  statement (update_device id (λ r. record r { secret_hash = secret_hash; updated_at = now }))

unfoldable pub set_disabled : String → Bool → Sql (Unit {0})
set_disabled id disabled = do
  now ← now_unix
  statement (update_device id (λ r. record r { disabled = disabled; updated_at = now }))

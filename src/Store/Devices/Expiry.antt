-- ===== src/Store/Devices/Expiry.antt =====
-- The pinned writes of the staleness sweep, the feed query and the deletion
-- (internal/store/devices.go).
pub mod Contract
use diyddns.Prelude.{
  ℕ, String, Bool, not, ◌&&◌, ◌||◌, Option, none, some, str_eq, ◌==◌, if◌then◌else◌, update_where,
  exists, select, length, map,
}
use diyddns.Store.Db.{
  not_found, Result, ok, err, DeviceRow, Tables, Sql, pure, statement, transaction_unless_none,
  ◌>>=◌, scan_int64, is_null, has_id,
}
use diyddns.Store.Users.{forget_devices}
use diyddns.Store.Devices.Writes.{case_when, get_by_id}
use diyddns.Store.History.{append_ip_history}

-- COALESCE(v4_confirmed_at, 0) = ? AND COALESCE(v6_confirmed_at, 0) = ?
abbrev pub pinned : ℕ → ℕ → DeviceRow → Bool
pinned pin_v4 pin_v6 r =
    scan_int64 r.v4_confirmed_at == pin_v4 && scan_int64 r.v6_confirmed_at == pin_v6

-- The column of one family; every family but 6 is IPv4.
abbrev pub level_of : ℕ → DeviceRow → ℕ
level_of family r = if family == 6 then r.v6_warn_level else r.v4_warn_level

abbrev pub set_level : ℕ → ℕ → ℕ → DeviceRow → DeviceRow
set_level family level now r =
    if family == 6
    then record r { v6_warn_level = level; updated_at = now }
    else record r { v4_warn_level = level; updated_at = now }

-- An UPDATE that reports whether exactly one row was affected.
abbrev pub update_counted :
    (DeviceRow → Bool) → (DeviceRow → DeviceRow) → Tables → Result Bool × Tables
update_counted p f t =
    (ok (length (select p t.devices) == 1), record t { devices = update_where p f t.devices })

abbrev pub warnable : String → ℕ → ℕ → ℕ → ℕ → DeviceRow → Bool
warnable id family from_level pin_v4 pin_v6 r =
    has_id id r && level_of family r == from_level && pinned pin_v4 pin_v6 r

-- `family level from_level pin_v4 pin_v6 now`
unfoldable pub advance_warn_level : String → ℕ → ℕ → ℕ → ℕ → ℕ → ℕ → Sql Bool
advance_warn_level id family level from_level pin_v4 pin_v6 now =
    statement
      (update_counted (warnable id family from_level pin_v4 pin_v6) (set_level family level now))

-- The WHERE of the expiring UPDATE.
abbrev pub expirable : String → Bool → Bool → ℕ → ℕ → DeviceRow → Bool
expirable id v4_due v6_due pin_v4 pin_v6 r =
    has_id id r
    && pinned pin_v4 pin_v6 r
    && (v4_due && not (is_null r.current_ipv4) || v6_due && not (is_null r.current_ipv6))

abbrev pub expire_row : Bool → Bool → ℕ → DeviceRow → DeviceRow
expire_row v4_due v6_due now r = record r {
  current_ipv4 = case_when v4_due none r.current_ipv4;
  current_ipv6 = case_when v6_due none r.current_ipv6;
  v4_warn_level = case_when v4_due 0 r.v4_warn_level;
  v6_warn_level = case_when v6_due 0 r.v6_warn_level;
  updated_at = now;
}

-- What the sweep's transaction appends once the addresses are cleared; every read is on the
-- transaction (`getDeviceTx`).
unfoldable pub record_expiry : String → ℕ → Sql (Option ℕ)
record_expiry id now = do
  after ← get_by_id id
  row ← append_ip_history (record {
    id = 0;
    device_id = id;
    ipv4 = after.current_ipv4;
    ipv6 = after.current_ipv6;
    observed_at = now;
    client_version = "";
  })
  pure (some row.id)

unfoldable pub clear_due : String → Bool → Bool → ℕ → ℕ → ℕ → Tables → Result Bool × Tables
clear_due id v4_due v6_due pin_v4 pin_v6 now t =
    let p = expirable id v4_due v6_due pin_v4 pin_v6 in
    (
      ok (exists p t.devices),
      record t { devices = update_where p (expire_row v4_due v6_due now) t.devices },
    )

unfoldable pub expire_body : String → Bool → Bool → ℕ → ℕ → ℕ → Sql (Option ℕ)
unfolding record_expiry clear_due
expire_body id v4_due v6_due pin_v4 pin_v6 now = do
  changed ← statement (clear_due id v4_due v6_due pin_v4 pin_v6 now)
  if changed then record_expiry id now else pure none

-- `ExpireFamilies`, `id v4_due v6_due pin_v4 pin_v6 now`: the id of the history row, or `none` where
-- nothing changed.
unfoldable pub expire_families : String → Bool → Bool → ℕ → ℕ → ℕ → Sql (Option ℕ)
unfolding expire_body
expire_families id v4_due v6_due pin_v4 pin_v6 now =
    transaction_unless_none (expire_body id v4_due v6_due pin_v4 pin_v6 now)

-- The device's history goes by ON DELETE CASCADE, and its code stays, ON DELETE SET NULL.
abbrev pub remove_device : String → Tables → Result (Unit {0}) × Tables
remove_device id t =
    if exists (has_id id) t.devices
    then (
      ok tt,
      record t {
        devices = select (λ r. not (has_id id r)) t.devices;
        history = select (λ h. not (str_eq h.device_id id)) t.history;
        codes = map (forget_devices (select (has_id id) t.devices)) t.codes;
      },
    )
    else (err not_found, t)

-- `Delete`
unfoldable pub delete : String → Sql (Unit {0})
delete id = statement (remove_device id)

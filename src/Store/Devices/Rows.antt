-- ===== src/Store/Devices/Rows.antt =====
-- Rows of the devices table and the `Device` that is read from them (internal/store/devices.go).
use diyddns.Prelude.{ℕ, String, Bool}
use diyddns.Store.Db.{DeviceRow, null_if_empty, scan_string, null_if_zero, scan_int64}

pub record Device : Type 0 where
  pub id : String
  pub user_id : String
  pub label : String
  pub secret_hash : String
  pub current_ipv4 : String
  pub current_ipv6 : String
  pub hostname : String
  pub os : String
  pub client_version : String
  pub last_seen_at : ℕ
  pub disabled : Bool
  pub created_at : ℕ
  pub updated_at : ℕ
  pub v4_confirmed_at : ℕ
  pub v6_confirmed_at : ℕ
  pub v4_warn_level : ℕ
  pub v6_warn_level : ℕ

unfoldable pub scan_device : DeviceRow → Device
scan_device r = record {
  id = r.id;
  user_id = r.user_id;
  label = r.label;
  secret_hash = r.secret_hash;
  current_ipv4 = scan_string r.current_ipv4;
  current_ipv6 = scan_string r.current_ipv6;
  hostname = scan_string r.hostname;
  os = scan_string r.os;
  client_version = scan_string r.client_version;
  last_seen_at = scan_int64 r.last_seen_at;
  disabled = r.disabled;
  created_at = r.created_at;
  updated_at = r.updated_at;
  v4_confirmed_at = scan_int64 r.v4_confirmed_at;
  v6_confirmed_at = scan_int64 r.v6_confirmed_at;
  v4_warn_level = r.v4_warn_level;
  v6_warn_level = r.v6_warn_level;
}

-- The row that `Create` inserts.
unfoldable pub device_row : Device → DeviceRow
device_row d = record {
  id = d.id;
  user_id = d.user_id;
  label = d.label;
  secret_hash = d.secret_hash;
  current_ipv4 = null_if_empty d.current_ipv4;
  current_ipv6 = null_if_empty d.current_ipv6;
  hostname = null_if_empty d.hostname;
  os = null_if_empty d.os;
  client_version = null_if_empty d.client_version;
  last_seen_at = null_if_zero d.last_seen_at;
  disabled = d.disabled;
  created_at = d.created_at;
  updated_at = d.updated_at;
  v4_confirmed_at = null_if_zero d.v4_confirmed_at;
  v6_confirmed_at = null_if_zero d.v6_confirmed_at;
  v4_warn_level = d.v4_warn_level;
  v6_warn_level = d.v6_warn_level;
}

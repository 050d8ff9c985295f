-- ===== src/Service/Checkin.antt =====
-- The check-in of a device (internal/server/service/checkin.go). What the notifier is called with is
-- returned beside the result: `IPChanged` returns nothing, and a panic of it is swallowed.
pub mod Contract
pub mod Family
pub mod Returns
pub mod Branches
pub mod Merge
use diyddns.Prelude.{
  ℕ, String, Bool, true, false, not, ◌&&◌, Option, none, some, str_eq, if◌then◌else◌,
}
use diyddns.Store.Db.{Sql, pure, now_unix, ◌>>=◌, ◌>>◌}
use diyddns.Store.Devices.Rows.{Device}
use diyddns.Store.Devices.Writes.{get_by_id, touch}
use diyddns.Store.History.{IpHistory}
use diyddns.Store.Checkin.{IpChange, record_ip_change}

pub record CheckinReport : Type 0 where
  pub ipv4 : String
  pub ipv6 : String
  pub hostname : String
  pub os : String
  pub client_version : String

pub record CheckinResult : Type 0 where
  pub device_id : String
  pub current_ipv4 : String
  pub current_ipv6 : String
  pub stored : Bool

-- `store.IPChangeEvent`
pub record IpChangeEvent : Type 0 where
  pub event_id : ℕ
  pub occurred_at : ℕ
  pub device : Device
  pub prev_ipv4 : String
  pub prev_ipv6 : String
  pub curr_ipv4 : String
  pub curr_ipv6 : String

-- An omitted family preserves the stored value.
abbrev pub effective : String → String → String
effective reported stored = if str_eq reported "" then stored else reported

abbrev pub asserted : String → Bool
asserted reported = not (str_eq reported "")

abbrev pub touch_reply : Device → CheckinResult × Option IpChangeEvent
touch_reply dev = (
  record {
    device_id = dev.id;
    current_ipv4 = dev.current_ipv4;
    current_ipv6 = dev.current_ipv6;
    stored = false;
  },
  none,
)

-- The branch in which no address changed.
unfoldable pub checkin_touch : CheckinReport → Device → Sql (CheckinResult × Option IpChangeEvent)
checkin_touch r dev = do
  now ← now_unix
  touch dev.id (asserted r.ipv4) (asserted r.ipv6) now
  pure (touch_reply dev)

abbrev pub change_of : CheckinReport → Device → IpChange
change_of r dev = record {
  device_id = dev.id;
  ipv4 = effective r.ipv4 dev.current_ipv4;
  ipv6 = effective r.ipv6 dev.current_ipv6;
  client_version = r.client_version;
  hostname = r.hostname;
  os = r.os;
  v4_asserted = asserted r.ipv4;
  v6_asserted = asserted r.ipv6;
}

abbrev pub change_reply : CheckinReport → Device → IpHistory → CheckinResult × Option IpChangeEvent
change_reply r dev row =
    let eff_v4 = effective r.ipv4 dev.current_ipv4 in
    let eff_v6 = effective r.ipv6 dev.current_ipv6 in
    (
      record { device_id = dev.id; current_ipv4 = eff_v4; current_ipv6 = eff_v6; stored = true },
      some (record {
        event_id = row.id;
        occurred_at = row.observed_at;
        device = dev;
        prev_ipv4 = dev.current_ipv4;
        prev_ipv6 = dev.current_ipv6;
        curr_ipv4 = eff_v4;
        curr_ipv6 = eff_v6;
      }),
    )

-- The branch in which one did.
unfoldable pub checkin_change : CheckinReport → Device → Sql (CheckinResult × Option IpChangeEvent)
checkin_change r dev = do row ← record_ip_change (change_of r dev); pure (change_reply r dev row)

abbrev pub unchanged : CheckinReport → Device → Bool
unchanged r dev =
    str_eq (effective r.ipv4 dev.current_ipv4) dev.current_ipv4
    && str_eq (effective r.ipv6 dev.current_ipv6) dev.current_ipv6

unfoldable pub checkin : String → CheckinReport → Sql (CheckinResult × Option IpChangeEvent)
checkin device_id r = do
  dev ← get_by_id device_id
  if unchanged r dev then checkin_touch r dev else checkin_change r dev

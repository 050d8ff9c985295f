-- ===== src/Store/Devices/Lists.antt =====
-- The lists of devices, and the feed's query (internal/store/devices.go).
use diyddns.Prelude.{ℕ, String, Bool, not, ◌&&◌, ◌||◌, List, str_eq, exists, select, map}
use diyddns.Store.Db.{ok, UserRow, DeviceRow, Sql, statement, is_null, scan_string, scan_int64}
use diyddns.Store.Order.{order_by, order_by_number_desc}
use diyddns.Store.Users.{has_user_id}
use diyddns.Store.Devices.Rows.{Device, scan_device}

-- `ListByUser`
unfoldable pub list_by_user : String → Sql (List Device)
list_by_user user_id = statement λ t. (
  ok (
      map scan_device (
        order_by (λ (r : DeviceRow). r.label)
          (select (λ (r : DeviceRow). str_eq r.user_id user_id) t.devices))),
  t,
)

-- `ListAll`, newest first
unfoldable pub list_all : Sql (List Device)
list_all = statement λ t.
    (ok (map scan_device (order_by_number_desc (λ (r : DeviceRow). r.created_at) t.devices)), t)

pub record FeedDevice : Type 0 where
  pub id : String
  pub label : String
  pub ipv4 : String
  pub ipv6 : String
  pub last_seen_at : ℕ

abbrev pub scan_feed_device : DeviceRow → FeedDevice
scan_feed_device r = record {
  id = r.id;
  label = r.label;
  ipv4 = scan_string r.current_ipv4;
  ipv6 = scan_string r.current_ipv6;
  last_seen_at = scan_int64 r.last_seen_at;
}

-- JOIN users u ON u.id = d.user_id, and u.disabled = 0
abbrev pub active_owner : String → UserRow → Bool
active_owner user_id u = has_user_id user_id u && not u.disabled

-- The WHERE of `listFeedQuery`.
abbrev pub in_feed_query : List UserRow → DeviceRow → Bool
in_feed_query users r =
    not r.disabled
    && exists (active_owner r.user_id) users
    && (not (is_null r.current_ipv4) || not (is_null r.current_ipv6))

-- `ListFeed`
unfoldable pub list_feed : Sql (List FeedDevice)
list_feed = statement λ t. (
  ok (
      map scan_feed_device
        (order_by (λ (r : DeviceRow). r.id) (select (in_feed_query t.users) t.devices))),
  t,
)

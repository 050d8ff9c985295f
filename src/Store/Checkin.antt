-- ===== src/Store/Checkin.antt =====
-- `RecordIPChange`, the write of a check-in that changed an address (internal/store/checkin.go).
pub mod Atomic
use diyddns.Prelude.{ℕ, String, Bool}
use diyddns.Store.Db.{Sql, now_unix, transaction, ◌>>=◌, ◌>>◌}
use diyddns.Store.Devices.Writes.{Contact, update_device_ip}
use diyddns.Store.History.{IpHistory, append_ip_history}

pub record IpChange : Type 0 where
  pub device_id : String
  pub ipv4 : String
  pub ipv6 : String
  pub client_version : String
  pub hostname : String
  pub os : String
  pub v4_asserted : Bool
  pub v6_asserted : Bool

-- The statements inside the transaction, with one instant for both rows.
unfoldable pub record_body : IpChange → Sql IpHistory
record_body c = do
  now ← now_unix
  update_device_ip c.device_id
      (record {
        ipv4 = c.ipv4;
        ipv6 = c.ipv6;
        client_version = c.client_version;
        hostname = c.hostname;
        os = c.os;
      })
      c.v4_asserted c.v6_asserted now now
  append_ip_history (record {
    id = 0;
    device_id = c.device_id;
    ipv4 = c.ipv4;
    ipv6 = c.ipv6;
    observed_at = now;
    client_version = c.client_version;
  })

unfoldable pub record_ip_change : IpChange → Sql IpHistory
record_ip_change c = transaction (record_body c)

-- ===== src/Service/Tests.antt =====
-- Check-ins of one device, and instances of what is proved of them.
use diyddns.Prelude.{true, false, ◌≡◌, ◌⊎◌, refl, [], ◌∷◌, arith}
use diyddns.Store.Db.{Error, ok, err, driver, Db, statement, now_unix, boundary, transaction}
use diyddns.Store.Samples.{calm, tables}
use diyddns.Store.Devices.Rows.{scan_device}
use diyddns.Store.Devices.Writes.{get_by_id, update_device_ip}
use diyddns.Store.History.{IpHistory, append_ip_history}
use diyddns.Store.Devices.Expiry.{expire_families}
use diyddns.Store.Devices.Expiry.Contract.{Expiry, expire_families-Expiry}
use diyddns.Store.Checkin.{IpChange, record_ip_change, record_body}
use diyddns.Store.Checkin.Atomic.{Recorded, record_ip_change-Recorded}
use diyddns.Service.Checkin.{CheckinReport, checkin, checkin_touch, checkin_change}

-- The fourth statement, the INSERT of the transaction, fails.
abbrev stormy : Db
stormy = record calm {
  weather =
      record { elapsed = 0; fails = false }
      ∷ record { elapsed = 1; fails = false }
      ∷ record { elapsed = 0; fails = false }
      ∷ record { elapsed = 1; fails = true }
      ∷ [];
}

abbrev moved : CheckinReport
moved = record {
  ipv4 = "198.51.100.7";
  ipv6 = "";
  hostname = "nas";
  os = "linux";
  client_version = "v1";
}

calm-checkin : (checkin "d1" moved calm).1.tables.history_seq ≡ 5
unfolding checkin checkin_touch checkin_change get_by_id statement scan_device record_ip_change
    record_body update_device_ip append_ip_history now_unix transaction boundary
calm-checkin = refl

stormy-checkin : (checkin "d1" moved stormy).0 ≡ err driver
unfolding checkin checkin_touch checkin_change get_by_id statement scan_device record_ip_change
    record_body update_device_ip append_ip_history now_unix transaction boundary
stormy-checkin = refl

-- Time passes, and no statement fails.
abbrev breezy : Db
breezy = record calm {
  weather =
      record { elapsed = 3; fails = false }
      ∷ record { elapsed = 1; fails = false }
      ∷ record { elapsed = 2; fails = false }
      ∷ [];
}

abbrev change : IpChange
change = record {
  device_id = "d1";
  ipv4 = "198.51.100.7";
  ipv6 = "2001:db8::1";
  client_version = "v1";
  hostname = "nas";
  os = "linux";
  v4_asserted = true;
  v6_asserted = false;
}

record_ip_change-Recorded_example :
    let (r, end) = record_ip_change change calm in
    ((e : Error) × (r ≡ err e) × (end.tables ≡ tables))
    ⊎ ((row : IpHistory) × (r ≡ ok row) × Recorded 2000 change row tables end.tables)
record_ip_change-Recorded_example = record_ip_change-Recorded change calm (omega arith)

expire_families-Expiry_example :
    let (r, end) = expire_families "d1" true false 1000 950 9000 calm in
    Expiry "d1" true false 1000 950 9000 r tables end.tables
expire_families-Expiry_example =
    expire_families-Expiry "d1" true false 1000 950 9000 calm (omega arith)

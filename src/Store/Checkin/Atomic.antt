-- ===== src/Store/Checkin/Atomic.antt =====
-- `RecordIPChange` is all or nothing (internal/store/checkin.go).
use diyddns.Prelude.{
  ℕ, suc, ◌≤◌, ◌<◌, true, ◌≡◌, ◌⊎◌, inl, inr, refl, ap, ◌∙◌, sym, subst, [], ◌∷◌, ◌++◌, arith,
  exists, update_where,
}
use diyddns.Store.Db.{
  Error, Result, ok, err, Tables, HistoryRow, Db, has_id, null_if_empty, now_unix, statement,
  boundary,
}
use diyddns.Store.Db.Instants.{clock_after, boundary_clock, boundary-later, transaction_begun}
use diyddns.Store.Db.Laws.{transaction_atomic, transaction_ok, bind_ok}
use diyddns.Store.Devices.Writes.{Contact, set_contact, update_device_ip, update_device}
use diyddns.Store.Devices.Writes.Laws.{update_device_ok}
use diyddns.Store.History.{IpHistory, append_ip_history}
use diyddns.Store.History.Laws.{append_ip_history_ok, appended}
use diyddns.Store.Checkin.{IpChange, record_body, record_ip_change}

abbrev pub contact_of : IpChange → Contact
contact_of c = record {
  ipv4 = c.ipv4;
  ipv6 = c.ipv6;
  client_version = c.client_version;
  hostname = c.hostname;
  os = c.os;
}

abbrev pub history_of : IpChange → ℕ → ℕ → HistoryRow
history_of c id at = record {
  id = id;
  device_id = c.device_id;
  ipv4 = null_if_empty c.ipv4;
  ipv6 = null_if_empty c.ipv6;
  observed_at = at;
  client_version = null_if_empty c.client_version;
}

abbrev pub entry_of : IpChange → ℕ → IpHistory
entry_of c at = record {
  id = 0;
  device_id = c.device_id;
  ipv4 = c.ipv4;
  ipv6 = c.ipv6;
  observed_at = at;
  client_version = c.client_version;
}

-- Both rows are written, at the one instant that the result carries, which is not before `from`; no
-- other table is changed.
pub record Recorded (from : ℕ) (c : IpChange) (row : IpHistory) (old new : Tables) : Type 0 where
  pub instant : from ≤ row.observed_at
  pub present : exists (has_id c.device_id) old.devices ≡ true
  pub fresh_id : row.id ≡ suc old.history_seq
  pub device_written :
      new.devices
      ≡ update_where
          (has_id c.device_id)
          (set_contact (contact_of c) c.v4_asserted c.v6_asserted row.observed_at row.observed_at)
          old.devices
  pub history_written : new.history ≡ old.history ++ history_of c row.id row.observed_at ∷ []
  pub users_kept : new.users ≡ old.users
  pub nonces_kept : new.nonces ≡ old.nonces
  pub elsewhere :
      new ≡ record old { devices = new.devices; history = new.history; history_seq = row.id }

Recorded-of :
    (from : ℕ) (c : IpChange) (at : ℕ) (row : IpHistory) (old mid new : Tables)
    → from ≤ at
    → exists (has_id c.device_id) old.devices ≡ true
    → mid ≡ record old {
      devices =
          update_where
            (has_id c.device_id)
            (set_contact (contact_of c) c.v4_asserted c.v6_asserted at at)
            old.devices;
    }
    → row ≡ record (entry_of c at) { id = suc mid.history_seq }
    → new ≡ appended (entry_of c at) mid
    → Recorded from c row old new
Recorded-of from c at row old mid new later there m r n =
    subst (λ x. Recorded from c x old new) (sym r)
      (subst (λ t. Recorded from c (record (entry_of c at) { id = suc mid.history_seq }) old t)
        (sym n)
        (subst
          (λ (t : Tables).
            Recorded from c (record (entry_of c at) { id = suc t.history_seq }) old
              (appended (entry_of c at) t))
          (sym m)
          (record {
            instant = later;
            present = there;
            fresh_id = refl;
            device_written = refl;
            history_written = refl;
            users_kept = refl;
            nonces_kept = refl;
            elsewhere = refl;
          })))

body-Recorded :
    (from : ℕ) (c : IpChange) (start : Db) (row : IpHistory)
    → from ≤ start.clock
    → 0 < start.clock
    → (record_body c start).0 ≡ ok row
    → Recorded from c row start.tables (record_body c start).1.tables
unfolding record_body now_unix update_device_ip
body-Recorded from c start row later p h =
    let now = start.clock in
    let write = statement (
      update_device c.device_id (set_contact (contact_of c) c.v4_asserted c.v6_asserted now now)) in
    let entry = entry_of c now in
    let (done, wrote, rest, end) = bind_ok write (λ _. append_ip_history entry) start row h in
    let updated = update_device_ok c.device_id _ start done wrote in
    let added = append_ip_history_ok entry (write start).1 row p rest in
    let tables =
      Recorded-of from c now row start.tables (write start).1.tables _ later updated.0 updated.1
        added.0 added.1 in
    subst (λ (d : Db). Recorded from c row start.tables d.tables) (sym end) tables

-- A check-in that changed an address either returns an error, and no table has changed, or returns
-- the history row, and both the device's row and the history row are written with that row's instant.
pub record_ip_change-Recorded :
    (c : IpChange) (db : Db)
    → 0 < db.clock
    → let (r, end) = record_ip_change c db in
      ((e : Error) × (r ≡ err e) × (end.tables ≡ db.tables))
      ⊎ ((row : IpHistory) × (r ≡ ok row) × Recorded db.clock c row db.tables end.tables)
unfolding record_ip_change
record_ip_change-Recorded c db p = by_result (record_ip_change c db).0 refl
  where
    by_result :
        (r : Result IpHistory)
        → (record_ip_change c db).0 ≡ r
        → ((e : Error) × ((record_ip_change c db).0 ≡ err e)
            × ((record_ip_change c db).1.tables ≡ db.tables))
          ⊎ ((row : IpHistory) × ((record_ip_change c db).0 ≡ ok row)
              × Recorded db.clock c row db.tables (record_ip_change c db).1.tables)
    by_result (err e) h = inl (e, h, transaction_atomic (record_body c) db e h)
    by_result (ok row) h =
        let (start, same, later, done, kept) = transaction_ok (record_body c) db row h in
        let written = body-Recorded db.clock c start row later (omega arith) done in
        inr (
          row,
          h,
          subst (λ t. Recorded db.clock c row db.tables t) (sym kept)
              (subst (λ t. Recorded db.clock c row t (record_body c start).1.tables) same written),
        )

pub record_ip_change_err :
    (c : IpChange) (db : Db) (e : Error)
    → (record_ip_change c db).0 ≡ err e
    → (record_ip_change c db).1.tables ≡ db.tables
unfolding record_ip_change
record_ip_change_err c db e h = transaction_atomic (record_body c) db e h

body_instant :
    (c : IpChange) (start : Db) (row : IpHistory)
    → 0 < start.clock
    → (record_body c start).0 ≡ ok row
    → row.observed_at ≡ start.clock
unfolding record_body now_unix update_device_ip
body_instant c start row p h =
    let now = start.clock in
    let write = statement (
      update_device c.device_id (set_contact (contact_of c) c.v4_asserted c.v6_asserted now now)) in
    let entry = entry_of c now in
    let (done, wrote, rest, end) = bind_ok write (λ _. append_ip_history entry) start row h in
    ap (λ (x : IpHistory). x.observed_at) (append_ip_history_ok entry (write start).1 row p rest).0

-- The instant is the clock right after the BEGIN.
pub record_ip_change_instant :
    (c : IpChange) (db : Db) (row : IpHistory)
    → 0 < db.clock
    → (record_ip_change c db).0 ≡ ok row
    → row.observed_at ≡ clock_after 1 db.weather db.clock
unfolding record_ip_change
record_ip_change_instant c db row p h =
    body_instant c (boundary db).1 row (boundary-later db p)
      (transaction_begun (record_body c) db row h)
    ∙ boundary_clock db

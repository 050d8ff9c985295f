-- ===== src/Service/Checkin/Returns.antt =====
-- When a check-in returns a result (internal/server/service/checkin.go).
use diyddns.Prelude.{
  suc, ◌==◌, String, Bool, true, false, ◌≡◌, ◌⊎◌, inl, inr, refl, sym, ◌∙◌, ap, subst, Option, none,
  some, find_where, find_where-exists, exists, exists-update_where, update_where, if◌then◌else◌,
  Bool-cases, arith,
}
use diyddns.Store.Db.{
  Error, not_found, Result, ok, err, DeviceRow, Tables, Db, has_id, pure, statement, now_unix, Sql,
}
use diyddns.Store.Db.Calm.{
  any_fails, IsCalm, statement-IsCalm, bind_run, bind_returns, transaction-IsCalm,
}
use diyddns.Store.Devices.Rows.{Device, scan_device}
use diyddns.Store.Devices.Writes.{
  found, get_by_id, touch, contact, set_contact, update_device, update_device_ip,
}
use diyddns.Store.Devices.Writes.Laws.{find_has_id}
use diyddns.Store.History.{IpHistory, insert_history, append_ip_history}
use diyddns.Store.Checkin.{IpChange, record_body, record_ip_change}
use diyddns.Store.Checkin.Atomic.{contact_of, entry_of}
use diyddns.Service.Checkin.{
  CheckinReport, CheckinResult, IpChangeEvent, asserted, checkin_touch, change_of, touch_reply,
  change_reply, checkin_change, unchanged, checkin,
}

insert_returns :
    (h : IpHistory) (t : Tables)
    → exists (has_id h.device_id) t.devices ≡ true
    → (insert_history h t).0 ≡ ok (record h { id = suc t.history_seq })
unfolding insert_history
insert_returns h t there = ground arith

-- An INSERT of a history row succeeds where its device is stored.
append-IsCalm :
    (h : IpHistory) (db : Db)
    → IsCalm db
    → exists (has_id h.device_id) db.tables.devices ≡ true
    → (row : IpHistory) × ((append_ip_history h db).0 ≡ ok row) × IsCalm (append_ip_history h db).1
unfolding append_ip_history now_unix insert_history
append-IsCalm h db calm there =
    let at = if h.observed_at == 0 then db.clock else h.observed_at in
    let entry : IpHistory = record h { observed_at = at } in
    let (done, _, calm') = statement-IsCalm (insert_history entry) db calm in
    (
      record entry { id = suc db.tables.history_seq },
      done ∙ insert_returns entry db.tables there,
      calm',
    )

update-IsCalm :
    (id : String) (f : DeviceRow → DeviceRow) (db : Db)
    → IsCalm db
    → exists (has_id id) db.tables.devices ≡ true
    → ((statement (update_device id f) db).0 ≡ ok tt)
      × ((statement (update_device id f) db).1.tables.devices
          ≡ update_where (has_id id) f db.tables.devices)
      × IsCalm (statement (update_device id f) db).1
update-IsCalm id f db calm there = ground (arith, statement-IsCalm (update_device id f) db)

body-IsCalm :
    (c : IpChange) (db : Db)
    → IsCalm db
    → exists (has_id c.device_id) db.tables.devices ≡ true
    → (row : IpHistory) × ((record_body c db).0 ≡ ok row) × IsCalm (record_body c db).1
unfolding record_body now_unix update_device_ip
body-IsCalm c db calm there =
    let now = db.clock in
    let f = set_contact (contact_of c) c.v4_asserted c.v6_asserted now now in
    let write = statement (update_device c.device_id f) in
    let (done, devices, calm') = update-IsCalm c.device_id f db calm there in
    let kept : exists (has_id c.device_id) (write db).1.tables.devices ≡ true =
      subst (λ rows. exists (has_id c.device_id) rows ≡ true) (sym devices)
        (exists-update_where (has_id c.device_id) (has_id c.device_id) f db.tables.devices
          (λ x _ k. k) there) in
    let (row, added, calm'') = append-IsCalm (entry_of c now) (write db).1 calm' kept in
    let run = bind_run write (λ _. append_ip_history (entry_of c now)) db tt done in
    (
      row,
      ap (λ (x : Result IpHistory × Db). x.0) run ∙ added,
      subst (λ (x : Result IpHistory × Db). IsCalm x.1) (sym run) calm'',
    )

record_ip_change_returns :
    (c : IpChange) (db : Db)
    → IsCalm db
    → exists (has_id c.device_id) db.tables.devices ≡ true
    → (row : IpHistory) × ((record_ip_change c db).0 ≡ ok row)
unfolding record_ip_change
record_ip_change_returns c db calm there =
    transaction-IsCalm (record_body c) db calm (λ start same calm'.
      body-IsCalm c start calm'
        (subst (λ (t : Tables). exists (has_id c.device_id) t.devices ≡ true) (sym same) there))

abbrev pub Answer : Type 0
Answer = CheckinResult × Option IpChangeEvent

branch_returns :
    (r : CheckinReport) (row : DeviceRow) (db : Db) (b : Bool)
    → IsCalm db
    → exists (has_id row.id) db.tables.devices ≡ true
    → (res : Answer) × (((if b
            then checkin_touch r (scan_device row)
            else checkin_change r (scan_device row))
          db).0
        ≡ ok res)
unfolding checkin_touch checkin_change touch now_unix scan_device
branch_returns r row db true calm there =
    let dev = scan_device row in
    let write = contact (asserted r.ipv4) (asserted r.ipv6) db.clock db.clock in
    (
      touch_reply dev,
      bind_returns (statement (update_device row.id write)) (λ _. pure (touch_reply dev)) db tt
          (touch_reply dev) (update-IsCalm row.id write db calm there).0 refl,
    )
branch_returns r row db false calm there =
    let dev = scan_device row in
    let (entry, done) = record_ip_change_returns (change_of r dev) db calm there in
    (
      change_reply r dev entry,
      bind_returns (record_ip_change (change_of r dev)) (λ x. pure (change_reply r dev x)) db entry
          (change_reply r dev entry) done refl,
    )

-- What follows the read of the device.
abbrev pub branch : CheckinReport → Device → Sql Answer
branch r dev = if unchanged r dev then checkin_touch r dev else checkin_change r dev

module _ (id : String) (r : CheckinReport) (db : Db) (calm : IsCalm db) where
  abbrev read : Tables → Result DeviceRow × Tables
  read t = (found (find_where (has_id id) t.devices), t)

  -- The read of a device that is stored.
  read_returns :
      (row : DeviceRow)
      → find_where (has_id id) db.tables.devices ≡ some row
      → ((get_by_id id db).0 ≡ ok (scan_device row))
        × ((get_by_id id db).1.tables ≡ db.tables)
        × IsCalm (get_by_id id db).1
  unfolding get_by_id
  read_returns row there =
      let (done, same, calm') = statement-IsCalm read db calm in
      let run : get_by_id id db ≡ (ok (scan_device row), (statement read db).1) =
        bind_run (statement read) (λ x. pure (scan_device x)) db row (done ∙ ap found there) in
      (
        ap (λ (x : Result Device × Db). x.0) run,
        ap (λ (x : Result Device × Db). x.1.tables) run ∙ same,
        subst (λ (x : Result Device × Db). IsCalm x.1) (sym run) calm',
      )

  checkin_missing :
      find_where (has_id id) db.tables.devices ≡ none → (checkin id r db).0 ≡ err not_found
  unfolding checkin get_by_id
  checkin_missing h = ground (arith, statement-IsCalm read db calm)

  checkin_returns :
      (row : DeviceRow)
      → find_where (has_id id) db.tables.devices ≡ some row
      → (res : Answer) × ((checkin id r db).0 ≡ ok res)
  unfolding checkin
  checkin_returns row there =
      let (done, same, calm') = read_returns row there in
      let mid = (get_by_id id db).1 in
      let stored : exists (has_id row.id) mid.tables.devices ≡ true =
        subst (λ (t : Tables). exists (has_id row.id) t.devices ≡ true) (sym same)
          (subst (λ i. exists (has_id i) db.tables.devices ≡ true)
            (sym (find_has_id id db.tables.devices row there))
            (find_where-exists (has_id id) db.tables.devices row there).1) in
      let (res, answered) = branch_returns r row mid (unchanged r (scan_device row)) calm' stored in
      (res, bind_returns (get_by_id id) (branch r) db (scan_device row) res done answered)

-- A check-in that returns an error did not find the device, or the driver failed a statement.
pub checkin_err :
    (id : String) (r : CheckinReport) (db : Db) (e : Error)
    → (checkin id r db).0 ≡ err e
    → (e ≡ not_found) × (find_where (has_id id) db.tables.devices ≡ none)
      ⊎ (any_fails db.weather ≡ true)
checkin_err id r db e h = elim (Bool-cases (any_fails db.weather)) [
  | inl failed ↦ inr failed
  | inr calm ↦ inl (by_row calm (find_where (has_id id) db.tables.devices) refl)
]
  where
    by_row :
        any_fails db.weather ≡ false
        → (o : Option DeviceRow) → find_where (has_id id) db.tables.devices ≡ o
        → (e ≡ not_found) × (find_where (has_id id) db.tables.devices ≡ none)
    by_row calm none there =
        let missing = checkin_missing id r db calm there in (ground arith, there)
    by_row calm (some row) there =
        let (res, done) = checkin_returns id r db calm row there in absurd (ground arith)

-- ===== src/Service/Checkin/Branches.antt =====
-- The two branches of a check-in (internal/server/service/checkin.go).
use diyddns.Prelude.{
  ℕ, List, ◌<◌, String, Bool, true, false, not, ◌≡◌, refl, sym, ◌∙◌, subst, ap, inl, inr, some,
  arith, if◌then◌else◌, find_where, update_where,
}
use text.Mathlib.TextPositions.{eq_refl}
use diyddns.Store.Db.{
  Weather, Result, ok, err, pure, DeviceRow, Tables, Db, has_id, scan_string, statement, now_unix,
}
use diyddns.Store.Db.Instants.{clock_after, weather_after, clock_after-suc}
use diyddns.Store.Db.Laws.{bind_ok, bind_err, ok-injective}
use diyddns.Store.Devices.Rows.{scan_device}
use diyddns.Store.Devices.Writes.{touch, contact, set_contact, update_device}
use diyddns.Store.Devices.Writes.Laws.{update_device_ok, update_device_err}
use diyddns.Store.History.{IpHistory}
use diyddns.Store.Checkin.{record_ip_change}
use diyddns.Store.Checkin.Atomic.{
  record_ip_change-Recorded, record_ip_change_err, record_ip_change_instant, Recorded, contact_of,
}
use diyddns.Service.Checkin.{
  CheckinReport, effective, asserted, checkin_touch, change_of, touch_reply, change_reply,
  checkin_change, unchanged,
}
use diyddns.Service.Checkin.Returns.{Answer}
use diyddns.Service.Checkin.Contract.{CheckedIn}
use diyddns.Service.Checkin.Family.{contact-Merged, set_contact-Merged, scan-null_if_empty}

-- What a check-in has written, whatever the reason of an error.
abbrev pub Writes :
    CheckinReport → String → List Weather → ℕ → Result Answer → Tables → Tables → Type 0
Writes r id ws clock (ok res) old new = CheckedIn r id ws clock res old new
Writes r id ws clock (err e) old new = new ≡ old

module _ (r : CheckinReport) (row : DeviceRow) (ws : List Weather) (clock : ℕ) where
  -- The fields of `CheckedIn` that do not mention the tables, for the branch without a change.
  touched :
      (old : Tables) (at : ℕ)
      → find_where (has_id row.id) old.devices ≡ some row
      → 0 < at
      → at ≡ clock_after 1 ws clock
      → unchanged r (scan_device row) ≡ true
      → CheckedIn r row.id ws clock (touch_reply (scan_device row)) old (record old {
        devices =
            update_where
              (has_id row.id)
              (contact (asserted r.ipv4) (asserted r.ipv6) at at)
              old.devices;
      })
  unfolding scan_device
  touched old at there p now same = record {
    row = row;
    found_row = there;
    at = at;
    instant = now;
    write = contact (asserted r.ipv4) (asserted r.ipv6) at at;
    merged = contact-Merged r at row p same;
    devices = refl;
    reply_id = refl;
    reply_v4 = refl;
    reply_v6 = refl;
    stored = simp eq_refl;
    elsewhere = refl;
    quiet = λ _. (refl, refl, refl, (refl, refl, refl));
    changed = λ h. absurd (ground arith);
  }

  recorded :
      (from : ℕ) (old new : Tables) (h : IpHistory)
      → 0 < from
      → find_where (has_id row.id) old.devices ≡ some row
      → h.observed_at ≡ clock_after 2 ws clock
      → unchanged r (scan_device row) ≡ false
      → Recorded from (change_of r (scan_device row)) h old new
      → CheckedIn r row.id ws clock (change_reply r (scan_device row) h) old new
  unfolding scan_device
  recorded from old new h p there now differ w = record {
    row = row;
    found_row = there;
    at = h.observed_at;
    instant = now;
    write =
        set_contact (contact_of (change_of r (scan_device row))) (asserted r.ipv4) (asserted r.ipv6)
          h.observed_at h.observed_at;
    merged = set_contact-Merged r h.observed_at row (omega (arith, w.instant));
    devices = w.device_written;
    reply_id = refl;
    reply_v4 = sym (scan-null_if_empty (effective r.ipv4 (scan_string row.current_ipv4)));
    reply_v6 = sym (scan-null_if_empty (effective r.ipv6 (scan_string row.current_ipv6)));
    stored =
        rw
          (
            scan-null_if_empty (effective r.ipv4 (scan_string row.current_ipv4)),
            scan-null_if_empty (effective r.ipv6 (scan_string row.current_ipv6)),
          )
          (ap not (sym differ));
    elsewhere =
        subst
          (λ n. new ≡ record old { devices = new.devices; history = new.history; history_seq = n })
          (sym counted) w.elsewhere;
    quiet = λ h. absurd (ground arith);
    changed = λ _. (
      h.id,
      w.fresh_id,
      counted,
      (scan-null_if_empty r.hostname, scan-null_if_empty r.os, scan-null_if_empty r.client_version),
      w.history_written,
      refl,
    );
  }
    where
      counted : new.history_seq ≡ h.id
      counted = ap (λ (t : Tables). t.history_seq) w.elsewhere

CheckedIn-eq :
    (r : CheckinReport) (id : String) (ws : List Weather) (clock : ℕ) (old : Tables)
    {res res' : Answer} {new new' : Tables}
    → res ≡ res'
    → new ≡ new'
    → CheckedIn r id ws clock res old new
    → CheckedIn r id ws clock res' old new'
CheckedIn-eq r id ws clock old {res} {res'} {new} e t c =
    subst (λ x. CheckedIn r id ws clock res' old x) t
      (subst (λ x. CheckedIn r id ws clock x old new) e c)

module _ (r : CheckinReport) (row : DeviceRow) (db : Db) (ws : List Weather) (clock : ℕ)
    (now : db.clock ≡ clock_after 1 ws clock) (rest : db.weather ≡ weather_after ws) where
  touch-Writes :
      (res : Result Answer)
      → find_where (has_id row.id) db.tables.devices ≡ some row
      → 0 < db.clock
      → unchanged r (scan_device row) ≡ true
      → (checkin_touch r (scan_device row) db).0 ≡ res
      → Writes r row.id ws clock res db.tables (checkin_touch r (scan_device row) db).1.tables
  unfolding checkin_touch touch now_unix scan_device
  touch-Writes (ok res) there p same h =
      let write = contact (asserted r.ipv4) (asserted r.ipv6) db.clock db.clock in
      let (done, wrote, e, end) =
        bind_ok (statement (update_device row.id write)) (λ _. pure (touch_reply (scan_device row)))
          db res h in
      let updated = update_device_ok row.id write db done wrote in
      let tables = ap (λ (d : Db). d.tables) end ∙ updated.1 in
      CheckedIn-eq r row.id ws clock db.tables (ok-injective e) (sym tables)
        (touched r row ws clock db.tables db.clock there p now same)
  touch-Writes (err e) there p same h =
      let write = contact (asserted r.ipv4) (asserted r.ipv6) db.clock db.clock in
      elim (bind_err (statement (update_device row.id write))
        (λ _. pure (touch_reply (scan_device row))) db e h) [
          | inl (failed, end) ↦
              ap (λ (d : Db). d.tables) end ∙ update_device_err row.id write db e failed
          | inr (done, wrote, no_error, end) ↦ absurd (ground arith)
        ]

  second : clock_after 1 db.weather db.clock ≡ clock_after 2 ws clock
  second =
      ap (λ v. clock_after 1 v db.clock) rest
      ∙ ap (clock_after 1 (weather_after ws)) now
      ∙ clock_after-suc 1 ws clock

  change-Writes :
      (res : Result Answer)
      → find_where (has_id row.id) db.tables.devices ≡ some row
      → 0 < db.clock
      → unchanged r (scan_device row) ≡ false
      → (checkin_change r (scan_device row) db).0 ≡ res
      → Writes r row.id ws clock res db.tables (checkin_change r (scan_device row) db).1.tables
  unfolding checkin_change
  change-Writes (ok res) there p differ h =
      let change = change_of r (scan_device row) in
      let (entry, wrote, e, end) =
        bind_ok (record_ip_change change) (λ x. pure (change_reply r (scan_device row) x)) db res
          h in
      elim (record_ip_change-Recorded change db p) [
        | inl (x, failed, _) ↦ absurd (ground arith)
        | inr (entry', wrote', w) ↦
            CheckedIn-eq r row.id ws clock db.tables
              (ap (change_reply r (scan_device row)) (ok-injective (sym wrote' ∙ wrote))
                ∙ ok-injective e)
              (ap (λ (d : Db). d.tables) (sym end))
              (recorded r row ws clock db.clock db.tables (record_ip_change change db).1.tables
                entry' p there (record_ip_change_instant change db entry' p wrote' ∙ second) differ
                w)
      ]
  change-Writes (err e) there p differ h =
      let change = change_of r (scan_device row) in
      elim (bind_err (record_ip_change change) (λ x. pure (change_reply r (scan_device row) x)) db e
        h) [
          | inl (failed, end) ↦
              ap (λ (d : Db). d.tables) end ∙ record_ip_change_err change db e failed
          | inr (entry, wrote, no_error, end) ↦ absurd (ground arith)
        ]

  pub found-Writes :
      (b : Bool)
      → find_where (has_id row.id) db.tables.devices ≡ some row
      → 0 < db.clock
      → unchanged r (scan_device row) ≡ b
      → let (res, end) =
          (if b then checkin_touch r (scan_device row) else checkin_change r (scan_device row))
            db in
        Writes r row.id ws clock res db.tables end.tables
  found-Writes true there p e = touch-Writes _ there p e refl
  found-Writes false there p e = change-Writes _ there p e refl

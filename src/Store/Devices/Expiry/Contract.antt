-- ===== src/Store/Devices/Expiry/Contract.antt =====
-- `ExpireFamilies`: pinned on what the sweep read, and all or nothing (internal/store/devices.go).
use diyddns.Prelude.{
  ℕ, suc, ◌<◌, String, Bool, true, false, ◌≡◌, ◌⊎◌, sym, ap, ◌∙◌, subst, [], ◌∷◌, ◌++◌, Option,
  none, some, if◌then◌else◌, arith, exists, find_where, update_where, inl, inr,
}
use diyddns.Store.Db.{
  Result, ok, err, DeviceRow, Tables, Db, Sql, has_id, scan_string, null_if_empty, statement, pure,
  ◌>>=◌,
}
use diyddns.Store.Db.Laws.{
  statement_ok, bind_ok, ok-injective, Commits, transaction_unless_none-Commits,
}
use diyddns.Store.Devices.Rows.{Device, scan_device}
use diyddns.Store.Devices.Writes.{get_by_id}
use diyddns.Store.Devices.Writes.Laws.{get_by_id_ok}
use diyddns.Store.History.{IpHistory, append_ip_history}
use diyddns.Store.History.Laws.{append_ip_history_ok, appended}
use diyddns.Store.Devices.Expiry.{
  expirable, expire_row, record_expiry, clear_due, expire_body, expire_families,
}

-- The device that was cleared, and the entry of the history that says what is left.
pub record Expired (id : String) (v4_due v6_due : Bool) (pin_v4 pin_v6 now : ℕ) (hid : ℕ)
    (old new : Tables) : Type 0 where
  pub due : exists (expirable id v4_due v6_due pin_v4 pin_v6) old.devices ≡ true
  pub cleared :
      new.devices
      ≡ update_where
          (expirable id v4_due v6_due pin_v4 pin_v6)
          (expire_row v4_due v6_due now)
          old.devices
  pub row : DeviceRow
  pub found_row : find_where (has_id id) new.devices ≡ some row
  pub fresh_id : hid ≡ suc old.history_seq
  pub recorded :
      new.history
      ≡ old.history
        ++ record {
          id = hid;
          device_id = id;
          ipv4 = null_if_empty (scan_string row.current_ipv4);
          ipv6 = null_if_empty (scan_string row.current_ipv6);
          observed_at = now;
          client_version = none;
        }
          ∷ []
  pub users_kept : new.users ≡ old.users

some-injective : {a b : ℕ} → some a ≡ some b → a ≡ b
some-injective h = ground arith

record_expiry_ok :
    (id : String) (now : ℕ) (db : Db) (r : Option ℕ)
    → 0 < now
    → (record_expiry id now db).0 ≡ ok r
    → (row : DeviceRow) × (find_where (has_id id) db.tables.devices ≡ some row)
      × (r ≡ some (suc db.tables.history_seq))
      × ((record_expiry id now db).1.tables
          ≡ appended
              (record {
                id = 0;
                device_id = id;
                ipv4 = scan_string row.current_ipv4;
                ipv6 = scan_string row.current_ipv6;
                observed_at = now;
                client_version = "";
              })
              db.tables)
unfolding record_expiry scan_device
record_expiry_ok id now db r p h =
    let entry : Device → IpHistory = λ after. record {
      id = 0;
      device_id = id;
      ipv4 = after.current_ipv4;
      ipv6 = after.current_ipv6;
      observed_at = now;
      client_version = "";
    } in
    let (after, read, h1, e1) =
      bind_ok (get_by_id id) (λ after. do row ← append_ip_history (entry after); pure (some row.id))
        db r h in
    let (row, there, same, kept, _) = get_by_id_ok id db after read in
    let (x, wrote, h2, e2) =
      bind_ok (append_ip_history (entry after)) (λ row. pure (some row.id)) (get_by_id id db).1 r
        h1 in
    let (is, tables) = append_ip_history_ok (entry after) (get_by_id id db).1 x p wrote in
    let mid = (get_by_id id db).1 in
    (
      row,
      there,
      ok-injective (sym h2)
          ∙ ap (λ (y : IpHistory). some y.id) is
          ∙ ap (λ (t : Tables). some (suc t.history_seq)) kept,
      ap (λ (d : Db). d.tables) e1
          ∙ ap (λ (d : Db). d.tables) e2
          ∙ tables
          ∙ ap (λ a. appended (entry a) mid.tables) same
          ∙ ap (appended (entry (scan_device row))) kept,
    )

-- Nothing to do: the database is as it was, and no row of that id still carries what the sweep read
-- together with an address that is due.
abbrev pub Expiry : String → Bool → Bool → ℕ → ℕ → ℕ → Result (Option ℕ) → Tables → Tables → Type 0
Expiry id v4_due v6_due pin_v4 pin_v6 now (ok (some hid)) old new =
    Expired id v4_due v6_due pin_v4 pin_v6 now hid old new
Expiry id v4_due v6_due pin_v4 pin_v6 now (ok none) old new =
    (exists (expirable id v4_due v6_due pin_v4 pin_v6) old.devices ≡ false) × (new ≡ old)
Expiry id v4_due v6_due pin_v4 pin_v6 now (err e) old new = new ≡ old

module _ (id : String) (v4_due v6_due : Bool) (pin_v4 pin_v6 now : ℕ) (p : 0 < now) where
  cleared_tables : Tables → Tables
  cleared_tables t = record t {
    devices =
        update_where (expirable id v4_due v6_due pin_v4 pin_v6) (expire_row v4_due v6_due now)
          t.devices;
  }

  decided-Expiry :
      (start : Db) (b : Bool) (db : Db) (r : Option ℕ)
      → exists (expirable id v4_due v6_due pin_v4 pin_v6) start.tables.devices ≡ b
      → db.tables ≡ cleared_tables start.tables
      → ((if b then record_expiry id now else pure none) db).0 ≡ ok r
      → (r ≡ none)
          × (exists (expirable id v4_due v6_due pin_v4 pin_v6) start.tables.devices ≡ false)
        ⊎ ((hid : ℕ) × (r ≡ some hid)
            × Expired id v4_due v6_due pin_v4 pin_v6 now hid start.tables
                ((if b then record_expiry id now else pure none) db).1.tables)
  unfolding cleared_tables
  decided-Expiry start false db r e t h = inl (ground arith, e)
  decided-Expiry start true db r e t h =
      let (row, there, is, end) = record_expiry_ok id now db r p h in
      inr (
        suc db.tables.history_seq,
        is,
        record {
          due = e;
          cleared = ap (λ (x : Tables). x.devices) end ∙ ap (λ (x : Tables). x.devices) t;
          row = row;
          found_row = ap (λ (x : Tables). find_where (has_id id) x.devices) end ∙ there;
          fresh_id = ap (λ (x : Tables). suc x.history_seq) t;
          recorded =
              ap (λ (x : Tables). x.history) end
              ∙ ap
                  (λ (x : Tables).
                    x.history
                    ++ record {
                      id = suc db.tables.history_seq;
                      device_id = id;
                      ipv4 = null_if_empty (scan_string row.current_ipv4);
                      ipv6 = null_if_empty (scan_string row.current_ipv6);
                      observed_at = now;
                      client_version = none;
                    }
                      ∷ [])
                  t;
          users_kept = ap (λ (x : Tables). x.users) end ∙ ap (λ (x : Tables). x.users) t;
        },
      )

  body-Expiry :
      (start : Db) (r : Option ℕ)
      → (expire_body id v4_due v6_due pin_v4 pin_v6 now start).0 ≡ ok r
      → (r ≡ none)
          × (exists (expirable id v4_due v6_due pin_v4 pin_v6) start.tables.devices ≡ false)
        ⊎ ((hid : ℕ) × (r ≡ some hid)
            × Expired id v4_due v6_due pin_v4 pin_v6 now hid start.tables
                (expire_body id v4_due v6_due pin_v4 pin_v6 now start).1.tables)
  unfolding expire_body clear_due cleared_tables
  body-Expiry start r h =
      let clear = statement (clear_due id v4_due v6_due pin_v4 pin_v6 now) in
      let rest : Bool → Sql (Option ℕ) =
        λ changed. if changed then record_expiry id now else pure none in
      let (changed, cleared, after, end) = bind_ok clear rest start r h in
      let (is, tables) =
        statement_ok (clear_due id v4_due v6_due pin_v4 pin_v6 now) start changed cleared in
      subst
        (λ (d : Db).
          (r ≡ none)
            × (exists (expirable id v4_due v6_due pin_v4 pin_v6) start.tables.devices ≡ false)
          ⊎ ((hid : ℕ) × (r ≡ some hid)
              × Expired id v4_due v6_due pin_v4 pin_v6 now hid start.tables d.tables))
        (sym end) (decided-Expiry start changed (clear start).1 r (ok-injective is) tables after)

  settled-Expiry :
      (db : Db) (res : Result (Option ℕ)) (end : Db)
      → Commits db (expire_body id v4_due v6_due pin_v4 pin_v6 now) (res, end)
      → Expiry id v4_due v6_due pin_v4 pin_v6 now res db.tables end.tables
  settled-Expiry db (err e) end (_, t) = t
  settled-Expiry db (ok none) end (start, same, e, t) = elim (body-Expiry start none e) [
    | inl (_, none_due) ↦ (
      ap (λ (x : Tables). exists (expirable id v4_due v6_due pin_v4 pin_v6) x.devices) (sym same)
          ∙ none_due,
      t,
    )
    | inr (hid, is, _) ↦ absurd (ground arith)
  ]
  settled-Expiry db (ok (some a)) end (start, same, e, t) = elim (body-Expiry start (some a) e) [
    | inl (is, _) ↦ absurd (ground arith)
    | inr (hid, is, x) ↦
        let there =
          subst
            (λ n.
              Expired id v4_due v6_due pin_v4 pin_v6 now n start.tables
                (expire_body id v4_due v6_due pin_v4 pin_v6 now start).1.tables)
            (some-injective (sym is)) x in
        let from =
          subst
            (λ old.
              Expired id v4_due v6_due pin_v4 pin_v6 now a old
                (expire_body id v4_due v6_due pin_v4 pin_v6 now start).1.tables)
            same there in
        subst (Expired id v4_due v6_due pin_v4 pin_v6 now a db.tables) (sym t) from
  ]

-- The sweep's expiry, at an instant after the epoch, does one of three things whatever fails on the
-- way. It returns the id of a new history entry, and then the device had an address that was due
-- and still carried the confirmations the sweep had read, exactly the rows of that kind lost the due
-- addresses and their warning levels, and the entry appended at that instant carries what the
-- device is left with. It finds no such row and changes no table. Or it fails and changes no table.
pub expire_families-Expiry :
    (id : String) (v4_due v6_due : Bool) (pin_v4 pin_v6 now : ℕ) (db : Db)
    → 0 < now
    → let (r, end) = expire_families id v4_due v6_due pin_v4 pin_v6 now db in
      Expiry id v4_due v6_due pin_v4 pin_v6 now r db.tables end.tables
unfolding expire_families
expire_families-Expiry id v4_due v6_due pin_v4 pin_v6 now db p =
    let run = expire_families id v4_due v6_due pin_v4 pin_v6 now db in
    settled-Expiry id v4_due v6_due pin_v4 pin_v6 now p db run.0 run.1
      (transaction_unless_none-Commits db (expire_body id v4_due v6_due pin_v4 pin_v6 now))

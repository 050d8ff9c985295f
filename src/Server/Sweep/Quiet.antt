-- ===== src/Server/Sweep/Quiet.antt =====
-- Each statement of the sweep keeps the rows (internal/store/devices.go, ip_history.go, feed_state.go).
use diyddns.Prelude.{
  ℕ, ◌+◌, String, Bool, true, false, ◌≡◌, sym, subst, if◌then◌else◌, none, some, find_where, All2,
  All2-update_where, ◌==◌, arith,
}
use diyddns.Store.Db.{ok, Tables, Sql, has_id, statement, now_unix, pure, ◌>>=◌}
use diyddns.Store.Db.Moves.{Moves, Moves-statement, Moves-bind, Moves-transaction_unless_none}
use diyddns.Store.Devices.Rows.{Device, scan_device}
use diyddns.Store.Devices.Writes.{get_by_id, found}
use diyddns.Store.Devices.Expiry.{
  expirable, expire_row, warnable, set_level, update_counted, advance_warn_level, clear_due,
  record_expiry, expire_body, expire_families,
}
use diyddns.Store.History.{IpHistory, insert_history, append_ip_history}
use diyddns.Store.Users.{get_user_by_id}
use diyddns.Store.Users.Laws.{tables-get_user_by_id}
use diyddns.Store.Feed.{bump}
use diyddns.Server.Sweep.{is_due}
use diyddns.Server.Sweep.Keep.{
  Kept, KeptAll, Kept-same, Kept-expire_row, Kept-set_level, KeptAll-same, KeptAll-trans,
}

module _ (w now : ℕ) where
  abbrev pub Quiet : {A : Type 0} → Sql A → Type 0
  Quiet m = Moves (KeptAll w now) (KeptAll-same w now) (KeptAll-trans w now) m

  get_by_id-Quiet : (id : String) → Quiet (get_by_id id)
  unfolding get_by_id
  get_by_id-Quiet id =
      Moves-bind (KeptAll w now) (KeptAll-same w now) (KeptAll-trans w now)
        (statement λ t. (found (find_where (has_id id) t.devices), t))
        (λ row. pure (scan_device row))
        (Moves-statement (KeptAll w now) (KeptAll-same w now) (KeptAll-trans w now)
          (λ t. (found (find_where (has_id id) t.devices), t)) (λ t. KeptAll-same w now t))
        (λ row db. KeptAll-same w now db.tables)

  devices-insert_history : (h : IpHistory) (t : Tables) → (insert_history h t).1.devices ≡ t.devices
  unfolding insert_history
  devices-insert_history h t = ground arith

  append_ip_history-Quiet : (h : IpHistory) → Quiet (append_ip_history h)
  unfolding append_ip_history now_unix
  append_ip_history-Quiet h db =
      let stamped = record h {
        observed_at = if h.observed_at == 0 then db.clock else h.observed_at;
      } in
      Moves-statement (KeptAll w now) (KeptAll-same w now) (KeptAll-trans w now)
        (insert_history stamped)
        (λ t.
          subst (λ ds. All2 (Kept w now) t.devices ds) (sym (devices-insert_history stamped t))
            (KeptAll-same w now t))
        db

  pub get_user_by_id-Quiet : (id : String) → Quiet (get_user_by_id id)
  get_user_by_id-Quiet id db =
      subst ((KeptAll w now) db.tables) (sym (tables-get_user_by_id id db))
        (KeptAll-same w now db.tables)

  pub bump-Quiet : (t : ℕ) → Quiet (bump t)
  unfolding bump
  bump-Quiet t =
      Moves-statement (KeptAll w now) (KeptAll-same w now) (KeptAll-trans w now)
        (λ t'.
          (ok (t'.feed_seq + 1), record t' { feed_seq = t'.feed_seq + 1; feed_changed_at = t }))
        (λ t'. KeptAll-same w now t')

  record_expiry-Quiet : (id : String) (t : ℕ) → Quiet (record_expiry id t)
  unfolding record_expiry
  record_expiry-Quiet id t =
      let entry : Device → IpHistory = λ after. record {
        id = 0;
        device_id = id;
        ipv4 = after.current_ipv4;
        ipv6 = after.current_ipv6;
        observed_at = t;
        client_version = "";
      } in
      Moves-bind (KeptAll w now) (KeptAll-same w now) (KeptAll-trans w now) (get_by_id id)
        (λ after. do row ← append_ip_history (entry after); pure (some row.id)) (get_by_id-Quiet id)
        (λ after.
          Moves-bind (KeptAll w now) (KeptAll-same w now) (KeptAll-trans w now)
            (append_ip_history (entry after)) (λ row. pure (some row.id))
            (append_ip_history-Quiet (entry after)) (λ row db. KeptAll-same w now db.tables))

  pub expire_families-Quiet :
      (c : Device) (t : ℕ)
      → Quiet (
          expire_families c.id
            (is_due c w now 4)
            (is_due c w now 6)
            c.v4_confirmed_at
            c.v6_confirmed_at
            t)
  unfolding expire_families expire_body clear_due
  expire_families-Quiet c t =
      Moves-transaction_unless_none (KeptAll w now) (KeptAll-same w now) (KeptAll-trans w now)
        (expire_body c.id (is_due c w now 4) (is_due c w now 6) c.v4_confirmed_at c.v6_confirmed_at
          t)
        (Moves-bind (KeptAll w now) (KeptAll-same w now) (KeptAll-trans w now)
          (statement (
            clear_due c.id (is_due c w now 4) (is_due c w now 6) c.v4_confirmed_at c.v6_confirmed_at
              t))
          (λ changed. if changed then record_expiry c.id t else pure none)
          (Moves-statement (KeptAll w now) (KeptAll-same w now) (KeptAll-trans w now)
            (clear_due c.id (is_due c w now 4) (is_due c w now 6) c.v4_confirmed_at
              c.v6_confirmed_at t)
            (λ x.
              All2-update_where (Kept w now)
                (expirable c.id (is_due c w now 4) (is_due c w now 6) c.v4_confirmed_at
                  c.v6_confirmed_at)
                (expire_row (is_due c w now 4) (is_due c w now 6) t) (Kept-same w now)
                (Kept-expire_row w now c t) x.devices))
          recorded)
    where
      recorded : (changed : Bool) → Quiet (if changed then record_expiry c.id t else pure none)
      recorded true db = record_expiry-Quiet c.id t db
      recorded false db = KeptAll-same w now db.tables

  pub advance_warn_level-Quiet :
      (id : String) (family level from_level pin_v4 pin_v6 t : ℕ)
      → Quiet (advance_warn_level id family level from_level pin_v4 pin_v6 t)
  unfolding advance_warn_level
  advance_warn_level-Quiet id family level from_level pin_v4 pin_v6 t =
      Moves-statement (KeptAll w now) (KeptAll-same w now) (KeptAll-trans w now)
        (update_counted (warnable id family from_level pin_v4 pin_v6) (set_level family level t))
        (λ x.
          All2-update_where (Kept w now) (warnable id family from_level pin_v4 pin_v6)
            (set_level family level t) (Kept-same w now)
            (λ r _. Kept-set_level w now family level t r) x.devices)

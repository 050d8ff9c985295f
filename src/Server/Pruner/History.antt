-- ===== src/Server/Pruner/History.antt =====
-- A tick of the pruner leaves the newest entry of every device (internal/server/pruner.go).
use diyddns.Prelude.{
  ℕ, zero, String, suc, ◌+◌, ◌-◌, ◌*◌, Bool, true, false, ◌||◌, ◌≡◌, refl, sym, ap, subst, List, [],
  ◌∷◌, ltb, take,
}
use diyddns.Prelude.Int.{ℤ}
use diyddns.Store.Db.{Result, ok, err, Tables, Db, Sql, statement}
use diyddns.Store.Db.Moves.{Moves, Moves-statement}
use diyddns.Store.Devices.Rows.{Device}
use diyddns.Store.Devices.Lists.{list_all}
use diyddns.Store.History.Prune.{pruned_history, prune_history}
use diyddns.Store.History.Prune.Newest.{
  Newest, KeepsNewest, same_newest, newest_trans, pruned_history-KeepsNewest,
}
use diyddns.Store.Notifications.{prune_deliveries}
use diyddns.Store.Nonces.{prune_expired}
use diyddns.Store.Sessions.{prune_sessions}
use diyddns.Store.Codes.{prune_codes}
use diyddns.Store.Recovery.{prune_tokens}
use diyddns.Store.Users.Email.{clear_expired_pending_emails}
use diyddns.Store.Audit.{prune_audit, entry, log}
use diyddns.Store.Audit.Laws.{log_frame}
use diyddns.Server.Pruner.{
  drain_deliveries, drain, RetentionSection, days_before, history_cutoff, drain_devices,
  drain_listed, prune_ip_history, prune_audit_log, pass_if, prune_retention, recorded, prune,
}

abbrev Keeps : {A : Type 0} → Sql A → Type 0
Keeps m = Moves KeepsNewest same_newest newest_trans m

abbrev KeepsDb : Db → Db → Type 0
KeepsDb a b = KeepsNewest a.tables b.tables

same_history : (t t' : Tables) → t'.history ≡ t.history → KeepsNewest t t'
same_history t t' e device_id id h =
    subst (λ rows. Newest device_id id (record t { history = rows })) (sym e) h

-- A statement that leaves the history alone.
statement-Keeps :
    {A : Type 0} (f : Tables → Result A × Tables)
    → ((t : Tables) → (f t).1.history ≡ t.history)
    → Keeps (statement f)
statement-Keeps f h =
    Moves-statement KeepsNewest same_newest newest_trans f (λ t. same_history t (f t).1 (h t))

prune_history-Keeps :
    (device_id : String) (older_than : ℤ) (cap batch : ℕ)
    → Keeps (prune_history device_id older_than cap batch)
unfolding prune_history
prune_history-Keeps device_id older_than cap batch =
    Moves-statement KeepsNewest same_newest newest_trans
      (pruned_history device_id older_than cap batch)
      (pruned_history-KeepsNewest device_id older_than cap batch)

prune_audit-Keeps : (cutoff : ℤ) (batch : ℕ) → Keeps (prune_audit cutoff batch)
unfolding prune_audit
prune_audit-Keeps cutoff batch = statement-Keeps _ (λ t. refl)

prune_deliveries-Keeps : (cutoff batch : ℕ) → Keeps (prune_deliveries cutoff batch)
unfolding prune_deliveries
prune_deliveries-Keeps cutoff batch = statement-Keeps _ (λ t. refl)

drain-Keeps : (fuel : ℕ) (m : Sql ℕ) → Keeps m → (db : Db) → KeepsDb db (drain fuel m db).1
unfolding drain
drain-Keeps zero m k db = same_newest db.tables
drain-Keeps (suc fuel) m k db = went (m db).0 (m db).1 (k db) (λ mid. drain-Keeps fuel m k mid)
  where
    went :
        (r : Result ℕ) (mid : Db)
        → KeepsDb db mid
        → ((d : Db) → KeepsDb d (drain fuel m d).1)
        → let out : ℕ × Db = elim r [
          | err e ↦ (0, mid)
          | ok n ↦ elim n [
            | zero ↦ (0, mid)
            | suc m' ↦ let (rest, end) = drain fuel m mid in (suc m' + rest, end)
          ]
        ] in
          KeepsDb db out.1
    went (err e) mid h ih = h
    went (ok zero) mid h ih = h
    went (ok (suc n)) mid h ih =
        newest_trans db.tables mid.tables (drain fuel m mid).1.tables h (ih mid)

drain_devices-Keeps :
    (fuel batch : ℕ) (older_than : ℤ) (cap : ℕ) (devices : List Device) (db : Db)
    → KeepsDb db (drain_devices fuel batch older_than cap devices db).1
drain_devices-Keeps fuel batch older_than cap [] db = same_newest db.tables
drain_devices-Keeps fuel batch older_than cap (dev ∷ devices) db =
    let mid = (drain fuel (prune_history dev.id older_than cap batch) db).1 in
    newest_trans db.tables mid.tables (drain_devices fuel batch older_than cap devices mid).1.tables
      (drain-Keeps fuel (prune_history dev.id older_than cap batch)
        (prune_history-Keeps dev.id older_than cap batch) db)
      (drain_devices-Keeps fuel batch older_than cap devices mid)

list_all-Keeps : Keeps list_all
unfolding list_all
list_all-Keeps = statement-Keeps _ (λ t. refl)

prune_ip_history-Keeps :
    (fuel batch reached : ℕ) (ret : RetentionSection) (now : ℕ) (db : Db)
    → KeepsDb db (prune_ip_history fuel batch reached ret now db).1
unfolding prune_ip_history
prune_ip_history-Keeps fuel batch reached ret now db =
    listed (list_all db).0 (list_all db).1 (list_all-Keeps db)
  where
    listed :
        (r : Result (List Device)) (mid : Db)
        → KeepsDb db mid
        → KeepsDb db (drain_listed fuel batch reached ret now (r, mid)).1
    listed (err e) mid h = h
    listed (ok devices) mid h =
        let older_than = history_cutoff ret now in
        let cap = ret.ip_history_per_device_max in
        newest_trans db.tables mid.tables
          (drain_devices fuel batch older_than cap (take reached devices) mid).1.tables h
          (drain_devices-Keeps fuel batch older_than cap (take reached devices) mid)

pass_if-Keeps :
    (b : Bool) (f : Db → ℕ × Db)
    → ((db : Db) → KeepsDb db (f db).1)
    → (db : Db) → KeepsDb db (pass_if b f db).1
pass_if-Keeps true f k db = k db
pass_if-Keeps false f k db = same_newest db.tables

prune_retention-Keeps :
    (fuel batch reached : ℕ) (ret : RetentionSection) (db : Db)
    → KeepsDb db (prune_retention fuel batch reached ret db).1
unfolding prune_retention prune_audit_log drain_deliveries
prune_retention-Keeps fuel batch reached ret db =
    let now = db.clock in
    let k1 =
      pass_if-Keeps (ltb 0 ret.ip_history_days || ltb 0 ret.ip_history_per_device_max)
        (prune_ip_history fuel batch reached ret now)
        (prune_ip_history-Keeps fuel batch reached ret now) in
    let k2 =
      pass_if-Keeps (ltb 0 ret.audit_log_days)
        (drain fuel (prune_audit (days_before now ret.audit_log_days) batch))
        (drain-Keeps fuel (prune_audit (days_before now ret.audit_log_days) batch)
          (prune_audit-Keeps (days_before now ret.audit_log_days) batch)) in
    let cutoff = now - ret.notification_deliveries_days * 86400 in
    let k3 =
      pass_if-Keeps (ltb 0 ret.notification_deliveries_days)
        (drain fuel (prune_deliveries cutoff batch))
        (drain-Keeps fuel (prune_deliveries cutoff batch) (prune_deliveries-Keeps cutoff batch)) in
    λ device_id id h. k3 _ device_id id (k2 _ device_id id (k1 db device_id id h))

recorded-Keeps : (run : ℕ × Db) → KeepsDb run.1 (recorded run)
recorded-Keeps (zero, db) = same_newest db.tables
recorded-Keeps (suc n, db) =
    let (_, (_, _, same)) = log_frame (entry "" "retention.prune" "" "") db in
    same_history db.tables (log (entry "" "retention.prune" "" "") db).1.tables
      (ap (λ (t : Tables). t.history) same)

module _ (now : ℕ) where
  expired-Keeps : Keeps (prune_expired now)
  unfolding prune_expired
  expired-Keeps = statement-Keeps _ (λ t. refl)

  sessions-Keeps : Keeps (prune_sessions now)
  unfolding prune_sessions
  sessions-Keeps = statement-Keeps _ (λ t. refl)

  codes-Keeps : Keeps (prune_codes now)
  unfolding prune_codes
  codes-Keeps = statement-Keeps _ (λ t. refl)

  tokens-Keeps : Keeps (prune_tokens now)
  unfolding prune_tokens
  tokens-Keeps = statement-Keeps _ (λ t. refl)

  emails-Keeps : Keeps (clear_expired_pending_emails now)
  unfolding clear_expired_pending_emails
  emails-Keeps = statement-Keeps _ (λ t. refl)

-- Whatever the policy, wherever the tick is stopped and whatever fails in it, the newest entry of the
-- history of a device is there after it, and is still the newest.
pub prune-Newest :
    (fuel batch reached : ℕ) (ret : RetentionSection) (db : Db) (device_id : String) (id : ℕ)
    → Newest device_id id db.tables
    → Newest device_id id (prune fuel batch reached ret db).tables
unfolding prune
prune-Newest fuel batch reached ret db device_id id h =
    let now = db.clock in
    recorded-Keeps _ device_id id (
      prune_retention-Keeps fuel batch reached ret _ device_id id (
        emails-Keeps now _ device_id id (
          tokens-Keeps now _ device_id id (
            codes-Keeps now _ device_id id
              (sessions-Keeps now _ device_id id (expired-Keeps now db device_id id h))))))

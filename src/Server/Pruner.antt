-- ===== src/Server/Pruner.antt =====
-- The background pruner (internal/server/pruner.go). A loop that drains a table is on fuel. The sweep of
-- the OIDC device flows is left out, with their table; `reached` is how many devices the drain of the
-- history begins before the context is cancelled.
pub mod Drain
pub mod History
pub mod Enough
mod Tests
use diyddns.Prelude.{
  ℕ, zero, suc, ◌+◌, ◌*◌, ◌^◌, ◌-◌, Bool, ◌||◌, List, [], ◌∷◌, ltb, if◌then◌else◌, take,
}
use diyddns.Prelude.Int.{ℤ, negsuc, sub_ℕ}
use diyddns.Store.Db.{Result, ok, err, Db, Sql}
use diyddns.Store.Notifications.{prune_deliveries}
use diyddns.Store.Devices.Rows.{Device}
use diyddns.Store.Devices.Lists.{list_all}
use diyddns.Store.History.Prune.{prune_history}
use diyddns.Store.Nonces.{prune_expired}
use diyddns.Store.Sessions.{prune_sessions}
use diyddns.Store.Codes.{prune_codes}
use diyddns.Store.Recovery.{prune_tokens}
use diyddns.Store.Users.Email.{clear_expired_pending_emails}
use diyddns.Store.Audit.{prune_audit, entry, log}

-- The loop of the three drains: batches until one deletes nothing or fails. The number of rows deleted.
unfoldable pub drain : ℕ → Sql ℕ → Db → ℕ × Db
drain zero prune_batch db = (0, db)
drain (suc fuel) prune_batch db =
    let (r, db') = prune_batch db in
    elim r [
      | err e ↦ (0, db')
      | ok n ↦ elim n [
        | zero ↦ (0, db')
        | suc m ↦ let (rest, end) = drain fuel prune_batch db' in (suc m + rest, end)
      ]
    ]

-- `pruneNotificationDeliveries`; `batch` is `pruneBatchSize`.
unfoldable pub drain_deliveries : ℕ → ℕ → ℕ → Db → ℕ × Db
unfolding drain
drain_deliveries fuel batch cutoff db = drain fuel (prune_deliveries cutoff batch) db

-- `RetentionSection`
pub record RetentionSection : Type 0 where
  pub ip_history_days : ℕ
  pub ip_history_per_device_max : ℕ
  pub audit_log_days : ℕ
  pub notification_deliveries_days : ℕ

-- Days before an instant.
abbrev pub days_before : ℕ → ℕ → ℤ
days_before now days = sub_ℕ now (days * 86400)

-- A disabled age window is the least int64.
abbrev pub history_cutoff : RetentionSection → ℕ → ℤ
history_cutoff ret now =
    if ltb 0 ret.ip_history_days then days_before now ret.ip_history_days else negsuc (2 ^ 63 - 1)

abbrev pub drain_devices : ℕ → ℕ → ℤ → ℕ → List Device → Db → ℕ × Db
drain_devices fuel batch older_than cap [] db = (0, db)
drain_devices fuel batch older_than cap (dev ∷ devices) db =
    let (n, mid) = drain fuel (prune_history dev.id older_than cap batch) db in
    let (rest, end) = drain_devices fuel batch older_than cap devices mid in (n + rest, end)

abbrev pub drain_listed : ℕ → ℕ → ℕ → RetentionSection → ℕ → Result (List Device) × Db → ℕ × Db
drain_listed fuel batch reached ret now (err e, db) = (0, db)
drain_listed fuel batch reached ret now (ok devices, db) =
    drain_devices fuel batch (history_cutoff ret now) ret.ip_history_per_device_max
      (take reached devices) db

-- `pruneIPHistory`
unfoldable pub prune_ip_history : ℕ → ℕ → ℕ → RetentionSection → ℕ → Db → ℕ × Db
prune_ip_history fuel batch reached ret now db =
    drain_listed fuel batch reached ret now (list_all db)

-- `pruneAuditLog`
unfoldable pub prune_audit_log : ℕ → ℕ → ℤ → Db → ℕ × Db
unfolding drain
prune_audit_log fuel batch cutoff db = drain fuel (prune_audit cutoff batch) db

-- A pass that is entered only under a condition.
abbrev pub pass_if : Bool → (Db → ℕ × Db) → Db → ℕ × Db
pass_if b f db = let run = f db in if b then run else (0, db)

-- `pruneRetention`; the cutoff of the deliveries is an instant after the epoch.
unfoldable pub prune_retention : ℕ → ℕ → ℕ → RetentionSection → Db → ℕ × Db
unfolding prune_ip_history prune_audit_log drain_deliveries
prune_retention fuel batch reached ret db =
    let now = db.clock in
    let (ips, db1) =
      pass_if (ltb 0 ret.ip_history_days || ltb 0 ret.ip_history_per_device_max)
        (prune_ip_history fuel batch reached ret now) db in
    let (audits, db2) =
      pass_if (ltb 0 ret.audit_log_days)
        (prune_audit_log fuel batch (days_before now ret.audit_log_days)) db1 in
    let (deliveries, db3) =
      pass_if (ltb 0 ret.notification_deliveries_days)
        (drain_deliveries fuel batch (now - ret.notification_deliveries_days * 86400)) db2 in
    (ips + audits + deliveries, db3)

-- A sweep whose error is logged.
abbrev pub swept : Sql ℕ → Db → Db
swept m db = (m db).1

abbrev pub recorded : ℕ × Db → Db
recorded (zero, db) = db
recorded (suc n, db) = (log (entry "" "retention.prune" "" "") db).1

-- `prune`
unfoldable pub prune : ℕ → ℕ → ℕ → RetentionSection → Db → Db
unfolding prune_retention
prune fuel batch reached ret db =
    let now = db.clock in
    let db1 = swept (prune_expired now) db in
    let db2 = swept (prune_sessions now) db1 in
    let db3 = swept (prune_codes now) db2 in
    let db4 = swept (prune_tokens now) db3 in
    let db5 = swept (clear_expired_pending_emails now) db4 in
    recorded (prune_retention fuel batch reached ret db5)

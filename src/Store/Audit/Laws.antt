-- ===== src/Store/Audit/Laws.antt =====
-- What an entry of the audit log writes (internal/store/audit_log.go).
use diyddns.Prelude.{ℕ, ◌≡◌, ◌==◌, List, refl, if◌then◌else◌, arith}
use diyddns.Store.Db.{ok, AuditRow, Tables, Db, now_unix}
use diyddns.Store.Db.Laws.{statement_cases}
use diyddns.Store.Audit.{AuditEntry, insert_audit, append_audit, log}

abbrev pub audited : List AuditRow → ℕ → Tables → Tables
audited rows seq t = record t { audit = rows; audit_seq = seq }

-- An entry touches no table but the log, and never fails its caller.
pub log_frame :
    (e : AuditEntry) (db : Db)
    → ((log e db).0 ≡ ok tt)
      × ((rows : List AuditRow) × (seq : ℕ) × ((log e db).1.tables ≡ audited rows seq db.tables))
unfolding log append_audit now_unix
log_frame e db =
    let at = if e.created_at == 0 then db.clock else e.created_at in
    let f = insert_audit (record e { created_at = at }) in
    (
      refl,
      (
        (log e db).1.tables.audit,
        (log e db).1.tables.audit_seq,
        ground (arith, statement_cases {0} f db),
      ),
    )

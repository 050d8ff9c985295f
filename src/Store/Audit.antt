-- ===== src/Store/Audit.antt =====
-- The audit log (internal/store/audit_log.go).
use diyddns.Prelude.{
  ℕ, suc, String, Bool, List, [], ◌∷◌, ◌++◌, ◌==◌, if◌then◌else◌, length, take, select, drop_first,
}
pub mod Laws
use diyddns.Prelude.Int.{ℤ, pos, ltb_ℤ}
use diyddns.Store.Db.{
  Result, ok, err, AuditRow, Tables, Sql, pure, statement, now_unix, ◌>>=◌, null_if_empty,
  scan_string,
}

pub record AuditEntry : Type 0 where
  pub id : ℕ
  pub actor_user_id : String
  pub event_type : String
  pub target_type : String
  pub target_id : String
  pub details_json : String
  pub ip : String
  pub user_agent : String
  pub created_at : ℕ

abbrev pub scan_audit_entry : AuditRow → AuditEntry
scan_audit_entry r = record {
  id = r.id;
  actor_user_id = scan_string r.actor_user_id;
  event_type = r.event_type;
  target_type = scan_string r.target_type;
  target_id = scan_string r.target_id;
  details_json = scan_string r.details_json;
  ip = scan_string r.ip;
  user_agent = scan_string r.user_agent;
  created_at = r.created_at;
}

-- The entry of an actor, an event and a target; the other fields are zero.
abbrev pub entry : String → String → String → String → AuditEntry
entry actor event target_type target_id = record {
  id = 0;
  actor_user_id = actor;
  event_type = event;
  target_type = target_type;
  target_id = target_id;
  details_json = "";
  ip = "";
  user_agent = "";
  created_at = 0;
}

abbrev pub insert_audit : AuditEntry → Tables → Result AuditEntry × Tables
insert_audit e t =
    let id = suc t.audit_seq in
    let row : AuditRow = record {
      id = id;
      actor_user_id = null_if_empty e.actor_user_id;
      event_type = e.event_type;
      target_type = null_if_empty e.target_type;
      target_id = null_if_empty e.target_id;
      details_json = null_if_empty e.details_json;
      ip = null_if_empty e.ip;
      user_agent = null_if_empty e.user_agent;
      created_at = e.created_at;
    } in
    (ok (record e { id = id }), record t { audit = t.audit ++ row ∷ []; audit_seq = id })

-- `Append`
unfoldable pub append_audit : AuditEntry → Sql AuditEntry
append_audit e = do
  now ← now_unix
  let at = if e.created_at == 0 then now else e.created_at
  statement (insert_audit (record e { created_at = at }))

-- `Log` of the service's `auditWriter`: the error of `Append` is dropped.
unfoldable pub log : AuditEntry → Sql (Unit {0})
log e db = let (_, db') = append_audit e db in (ok tt, db')

abbrev pub audit_prunable : ℤ → AuditRow → Bool
audit_prunable older_than r = ltb_ℤ (pos r.created_at) older_than

-- `Prune`: the number of rows deleted. Which of them the LIMIT takes is not said by the statement; here
-- they are the first.
unfoldable pub prune_audit : ℤ → ℕ → Sql ℕ
prune_audit older_than batch = statement λ t. (
  ok (length (take batch (select (audit_prunable older_than) t.audit))),
  record t { audit = drop_first (audit_prunable older_than) batch t.audit },
)

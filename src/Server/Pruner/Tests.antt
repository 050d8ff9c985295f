-- ===== src/Server/Pruner/Tests.antt =====
-- Instances of what is proved of the pruner.
use diyddns.Prelude.{ℕ, ◌≡◌, refl, [], ◌∷◌, none, some, map, List, length, arith}
use diyddns.Prelude.Int.{pos}
use diyddns.Store.Db.{HistoryRow, Db, statement, now_unix}
use diyddns.Store.Samples.{calm}
use diyddns.Store.Devices.Rows.{scan_device}
use diyddns.Store.Devices.Lists.{list_all}
use diyddns.Store.History.{scan_ip_history}
use diyddns.Store.History.Prune.{prune_history}
use diyddns.Store.History.Prune.Newest.{Newest}
use diyddns.Store.History.Prune.Sorted.{Distinct}
use diyddns.Store.History.Prune.Pages.{follow, follow-newest_first}
use diyddns.Store.Nonces.{prune_expired}
use diyddns.Store.Sessions.{prune_sessions}
use diyddns.Store.Codes.{prune_codes}
use diyddns.Store.Recovery.{prune_tokens}
use diyddns.Store.Users.Email.{clear_expired_pending_emails}
use diyddns.Store.Audit.{log, append_audit, prune_audit}
use diyddns.Server.Pruner.{
  RetentionSection, drain, prune_ip_history, prune_audit_log, drain_deliveries, prune_retention,
  prune,
}
use diyddns.Server.Pruner.Enough.{drain_enough}
use diyddns.Server.Pruner.History.{prune-Newest}

abbrev seen : ℕ → ℕ → HistoryRow
seen id at = record {
  id = id;
  device_id = "d1";
  ipv4 = some "192.0.2.1";
  ipv6 = none;
  observed_at = at;
  client_version = none;
}

abbrev full : Db
full = record calm {
  tables = record (calm.tables) {
    history = seen 1 100 ∷ seen 2 200 ∷ seen 3 300 ∷ seen 4 300 ∷ [];
  };
  clock = 200000;
}

abbrev daily : RetentionSection
daily = record {
  ip_history_days = 1;
  ip_history_per_device_max = 0;
  audit_log_days = 0;
  notification_deliveries_days = 0;
}

abbrev capped : RetentionSection
capped = record daily { ip_history_days = 0; ip_history_per_device_max = 2 }

ids : List HistoryRow → List ℕ
ids rows = map (λ r. r.id) rows

-- Everything is older than a day, and the newest entry stays; the tick is in the audit log.
old_goes :
    (ids (prune 9 2 5 daily full).tables.history ≡ 4 ∷ [])
    × (length (prune 9 2 5 daily full).tables.audit ≡ 1)
unfolding prune prune_retention prune_ip_history prune_audit_log drain_deliveries drain
    prune_history list_all scan_device prune_expired prune_sessions prune_codes prune_tokens
    clear_expired_pending_emails log append_audit statement now_unix ids
old_goes = (refl, refl)

-- A cap of two alone.
cap_stays : ids (prune 9 2 5 capped full).tables.history ≡ 3 ∷ 4 ∷ []
unfolding prune prune_retention prune_ip_history prune_audit_log drain_deliveries drain
    prune_history list_all scan_device prune_expired prune_sessions prune_codes prune_tokens
    clear_expired_pending_emails log append_audit statement now_unix ids
cap_stays = refl

newest : Newest "d1" 4 full.tables
newest = (refl, refl)

prune-Newest_example : Newest "d1" 4 (prune 9 2 5 daily full).tables
prune-Newest_example = prune-Newest 9 2 5 daily full "d1" 4 newest

distinct : Distinct (seen 1 100 ∷ seen 2 200 ∷ seen 3 300 ∷ seen 4 300 ∷ [])
distinct =
    let apart21 : (2 ≡ 1) → ⊥ = λ e. omega (arith, e) in
    let apart31 : (3 ≡ 1) → ⊥ = λ e. omega (arith, e) in
    let apart41 : (4 ≡ 1) → ⊥ = λ e. omega (arith, e) in
    let apart32 : (3 ≡ 2) → ⊥ = λ e. omega (arith, e) in
    let apart42 : (4 ≡ 2) → ⊥ = λ e. omega (arith, e) in
    let apart43 : (4 ≡ 3) → ⊥ = λ e. omega (arith, e) in
    ((apart21, (apart31, (apart41, tt))), ((apart32, (apart42, tt)), ((apart43, tt), (tt, tt))))

-- Pages of three: the second has one row.
follow-newest_first_example :
    follow 9 "d1" 3 none full
    ≡ map scan_ip_history (seen 4 300 ∷ seen 3 300 ∷ seen 2 200 ∷ seen 1 100 ∷ [])
follow-newest_first_example = follow-newest_first 9 "d1" 3 full refl distinct (omega arith)

-- Batches of one row: five rounds do, of a history of four entries, and one round, of no audit entry.
drain_enough_example :
    (drain 40 (prune_history "d1" (pos 1000) 0 1) full
      ≡ drain 5 (prune_history "d1" (pos 1000) 0 1) full)
    × (drain 36 (prune_audit (pos 1000) 1) full ≡ drain 1 (prune_audit (pos 1000) 1) full)
drain_enough_example =
    drain_enough "d1" (pos 1000) (pos 1000) 0 1 5 1 35 full (omega arith) (omega arith)

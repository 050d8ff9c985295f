-- ===== src/Server/Tests.antt =====
-- Ticks of the sweep over one device, and instances of what is proved of them.
use diyddns.Prelude.{select, none, arith, Bool, false, ◌≡◌, refl, [], ◌∷◌, List, length}
use diyddns.Store.Db.{
  DeliveryRow, Db, delivered, Tables, statement, boundary, transaction_unless_none, now_unix,
}
use diyddns.Server.Pruner.{drain_deliveries}
use diyddns.Server.Pruner.Drain.{owed, drain_deliveries-select, select-drain_deliveries}
use diyddns.Store.Samples.{event, nas, calm, tables}
use diyddns.Store.Devices.Rows.{Device, scan_device}
use diyddns.Store.Devices.Writes.{get_by_id}
use diyddns.Store.Devices.Expiry.{clear_due, record_expiry, expire_body, expire_families}
use diyddns.Store.History.{insert_history, append_ip_history}
use diyddns.Store.Users.{get_user_by_id}
use diyddns.Store.Feed.{bump}
use diyddns.Stale.Window.{window, expires_at, recipients_for}
use diyddns.Server.Fanout.{expired_event, expire_addresses}
use diyddns.Server.Notices.{deliver, notify_removed}
use diyddns.Server.Sweep.{scan_candidate, act, run_sweep}
use diyddns.Server.Sweep.Keep.{KeptAll, KeptAll-same}
use diyddns.Server.Sweep.Tick.{act-KeptAll}
use diyddns.Server.Sweep.Outdated.{Idle, act-Outdated}
use diyddns.Server.Sweep.Whole.{run_sweep-KeptAll}

-- A day after its confirmations, with a window of one day: one event, and a mail for each family.
removal_effects : length (act (scan_candidate nas) 1 87400 calm).effects ≡ 3
unfolding act expire_addresses expired_event expire_families expire_body clear_due record_expiry
    get_by_id append_ip_history insert_history get_user_by_id bump statement boundary
    transaction_unless_none now_unix scan_device window expires_at notify_removed deliver
    recipients_for
removal_effects = refl

act-KeptAll_example :
    KeptAll (window 1) 87400 tables (act (scan_candidate nas) 1 87400 calm).end.tables
act-KeptAll_example = act-KeptAll (scan_candidate nas) 1 87400 calm

-- What was read before the last check-in of the device.
abbrev old_candidate : Device
old_candidate = record (scan_candidate nas) { v4_confirmed_at = 500 }

act-Outdated_example : Idle tables (act old_candidate 1 87400 calm)
act-Outdated_example = act-Outdated old_candidate 1 87400 calm refl

abbrev idle_others : List (Bool × (Tables → Tables))
idle_others = (false, λ t. t) ∷ []

run_sweep-KeptAll_example :
    KeptAll (window 1) 87400 tables (run_sweep 1 87400 idle_others calm).2.tables
run_sweep-KeptAll_example =
    run_sweep-KeptAll 1 87400 idle_others calm (λ t. KeptAll-same (window 1) 87400 t, tt)

abbrev done_with : DeliveryRow
done_with = record event { id = 2; status = delivered; next_attempt_at = none; last_failure = none }

abbrev outbox : Db
outbox = record calm { tables = record tables { deliveries = done_with ∷ event ∷ done_with ∷ [] } }

drain_deliveries-select_example :
    let (n, end) = drain_deliveries 3 1 1500 outbox in
    (n ≡ 2) × (end.tables.deliveries ≡ event ∷ [])
drain_deliveries-select_example =
    drain_deliveries-select 1500 1 (omega arith) 3 outbox refl (omega arith)

select-drain_deliveries_example :
    select owed (drain_deliveries 1 1 1500 outbox).1.tables.deliveries ≡ event ∷ []
select-drain_deliveries_example = select-drain_deliveries 1 1 1500 outbox

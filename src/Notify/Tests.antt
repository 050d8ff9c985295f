-- ===== src/Notify/Tests.antt =====
-- One delivery over several attempts, and instances of what is proved of the worker and the outbox.
use diyddns.Notify.Policy.{
  Address, Prefix, contains, denied, unmap, is_global_unicast, match_prefix, contains_addr,
  permitted, http_not_loopback, permit,
}
use diyddns.Notify.Policy.Verdicts.{mapped, plain, permit_public, permit-mapped, permit-append}
use diyddns.Prelude.{
  false, str_eq, exists, ℕ, ◌+◌, ◌*◌, ◌-◌, ◌^◌, ◌≤◌, ◌<◌, ◌≡◌, true, refl, List, [], ◌∷◌, some, All,
  find_where, arith,
}
use diyddns.Store.Db.{DeliveryRow, rejected, gone, Db, statement, now_unix}
use diyddns.Store.Samples.{calm, event}
use diyddns.Store.Notifications.{has_delivery_id, enqueue_delivery, insert_delivery}
use diyddns.Notify.Worker.{
  Exchange, failure, answered, attempt, backoff_for, delay_for, deliver_one, event_delivery,
}
use diyddns.Notify.Worker.Backoff.{Jitter, delay_for-bounds}
use diyddns.Notify.Worker.Safe.{Sound}
use diyddns.Notify.Worker.Outbox.{empty, enqueued, delivered_one, Reachable-Sound}
use diyddns.Notify.Worker.Exhaust.{deliver_until, Concluded, Ended, deliver_until-Ended}

abbrev steady : ℕ → ℕ
steady n = n

abbrev exchange : ℕ → Exchange
exchange code = record {
  parses = true;
  supported = true;
  nonce_drawn = true;
  secret_opens = true;
  request_built = true;
  response = answered code;
}

first_retry : delay_for steady 1 ≡ 15
unfolding backoff_for
first_retry = refl

gone_at_once : attempt (exchange 410) ≡ failure gone
unfolding attempt
gone_at_once = refl

steady-Jitter : Jitter steady
steady-Jitter n = (omega arith, omega arith)

delay_for-bounds_example :
    (15000000000 * 2 ^ (7 + 1 - 2) < 2 ^ 63)
    × (steady (15000000000 * 2 ^ (7 + 1 - 2)) < 2 ^ 63)
    × (13 ≤ delay_for steady 7)
    × (delay_for steady 7 ≤ 960)
delay_for-bounds_example = delay_for-bounds steady 7 steady-Jitter (omega arith) (omega arith)

abbrev exchanges : List Exchange
exchanges = exchange 500 ∷ exchange 503 ∷ exchange 500 ∷ []

refusals-Concluded : All Concluded exchanges
unfolding attempt
refusals-Concluded = ((some rejected, refl), ((some rejected, refl), ((some rejected, refl), tt)))

deliver_until-Ended_example :
    (e : DeliveryRow) × (find_where
        (has_delivery_id 3)
        (deliver_until steady 4 3 exchanges calm).tables.deliveries
      ≡ some e)
    × Ended 4 e
deliver_until-Ended_example =
    deliver_until-Ended steady 4 3 event exchanges calm refl refl refl (omega arith) (omega arith)
      refusals-Concluded

abbrev start : Db
start = record calm { tables = record (calm.tables) { deliveries = [] } }

abbrev queued : Db
queued = (enqueue_delivery (event_delivery "e1" "device.added" 9 "{}") 2000 start).1

clock_kept : 0 < queued.clock
unfolding enqueue_delivery insert_delivery statement now_unix
clock_kept = omega arith

Reachable-Sound_example :
    Sound 4 (omega arith) (deliver_one steady 4 event (exchange 500) queued).tables
Reachable-Sound_example =
    Reachable-Sound 4 (omega arith) steady (deliver_one steady 4 event (exchange 500) queued) (
      delivered_one queued event (exchange 500)
        (enqueued start "e1" "device.added" 9 "{}" (empty start refl) (omega arith)) clock_kept)

abbrev resolver : Address
resolver = plain 134744072

abbrev home : Prefix
home = record { is4 = true; base = 3232235520; bits = 16 }

resolver-permitted : permit "https" resolver [] ≡ permitted
unfolding permit contains_addr match_prefix is_global_unicast denied
resolver-permitted = refl

home_http : permit "http" (plain 3232235777) (home ∷ []) ≡ http_not_loopback
unfolding permit contains_addr match_prefix is_global_unicast denied
home_http = refl

permit_public_example :
    (str_eq resolver.zone "" ≡ true)
    × (is_global_unicast (unmap resolver) ≡ true)
    × (exists (contains (unmap resolver)) denied ≡ false)
    × (str_eq "https" "https" ≡ true)
permit_public_example = permit_public "https" resolver resolver-permitted

permit-mapped_example :
    permit "https" (mapped 3232235777) (home ∷ []) ≡ permit "https" (plain 3232235777) (home ∷ [])
permit-mapped_example = permit-mapped "https" 3232235777 (home ∷ []) (omega arith)

permit-append_example : permit "https" resolver (home ∷ []) ≡ permitted
permit-append_example = permit-append "https" resolver [] (home ∷ []) resolver-permitted

-- ===== src/Notify/Worker.antt =====
-- The delivery worker (internal/server/notify/worker.go). An exchange with an endpoint is what the
-- environment answers; the payloads are texts.
pub mod Backoff
pub mod Owed
pub mod Safe
pub mod Outbox
pub mod Exhaust
use diyddns.Prelude.{
  ℕ, suc, ◌+◌, ◌-◌, ◌*◌, ◌/◌, ◌%◌, ◌^◌, String, Bool, true, false, not, ◌&&◌, ◌||◌, List, [], ◌∷◌,
  Option, none, some, str_eq, ◌==◌, leb, ltb, if◌then◌else◌, find_where,
}
use diyddns.Store.Db.{
  Result, ok, err, DeliveryRow, Status, pending, delivered, failed, Failure, blocked, unreachable,
  tls, rejected, gone, internal, Tables, Db, Sql, statement, now_unix,
}
use diyddns.Store.Notifications.{due_for_attempt, update_after_attempt}

-- What `client.Do` can fail with: `ErrDenied`, a `net.DNSError`, a certificate that does not verify.
pub record SendError : Type 0 where
  pub denied : Bool
  pub dns : Bool
  pub certificate : Bool

pub data Response : Type 0 where
  answered : ℕ → Response
  send_failed : SendError → Response
  interrupted : Response

-- The steps of one attempt: whether the URL parses, its scheme has a client, a nonce is drawn, the
-- secret opens, and the request is built; and the response.
pub record Exchange : Type 0 where
  pub parses : Bool
  pub supported : Bool
  pub nonce_drawn : Bool
  pub secret_opens : Bool
  pub request_built : Bool
  pub response : Response

-- The class of an attempt; `cancelled` is "".
pub data Class : Type 0 where
  cancelled done : Class
  failure : Failure → Class

unfoldable pub classify_send_error : SendError → Failure
classify_send_error e =
    if e.denied
    then blocked
    else if e.dns
    then blocked
    else if e.certificate
    then tls
    else unreachable

abbrev classify_status : ℕ → Class
classify_status code =
    if leb 200 code && ltb code 300
    then done
    else if code == 410
    then failure gone
    else failure rejected

abbrev classify_response : Response → Class
classify_response (answered code) = classify_status code
classify_response (send_failed e) = failure (classify_send_error e)
classify_response interrupted = cancelled

-- `attempt`
unfoldable pub attempt : Exchange → Class
attempt x =
    if not x.parses
    then failure internal
    else if not x.supported
    then failure internal
    else if not x.nonce_drawn
    then failure internal
    else if not x.secret_opens
    then failure internal
    else if not x.request_built
    then failure internal
    else classify_response x.response

-- What is written back.
pub record Settled : Type 0 where
  pub status : Status
  pub next_attempt_at : ℕ
  pub last_failure : Option Failure

abbrev pub is_gone : Failure → Bool
is_gone gone = true
is_gone blocked = false
is_gone unreachable = false
is_gone tls = false
is_gone rejected = false
is_gone internal = false

abbrev pub exhausted_or_gone : ℕ → ℕ → Failure → Bool
exhausted_or_gone max_attempts attempts f = is_gone f || leb max_attempts attempts

-- The `switch` of `deliverOne`, for a class other than "": `delay` is the backoff in seconds.
unfoldable pub settle : ℕ → ℕ → ℕ → ℕ → Option Failure → Settled
settle max_attempts attempts now delay none = record {
  status = delivered;
  next_attempt_at = 0;
  last_failure = none;
}
settle max_attempts attempts now delay (some f) =
    if exhausted_or_gone max_attempts attempts f
    then record { status = failed; next_attempt_at = 0; last_failure = some f }
    else record { status = pending; next_attempt_at = now + delay; last_failure = some f }

abbrev second : ℕ
second = 1000000000

abbrev max_backoff : ℕ
max_backoff = 16 * 60 * second

-- `backoffFor` in nanoseconds, for an attempt of 2 or more: `jittered` is the product with the jitter, a
-- float computation. `max_attempts` is validated to 1..16 (internal/config/config.go), for which no
-- product passes an int64.
unfoldable pub backoff_for : (ℕ → ℕ) → ℕ → ℕ
backoff_for jittered attempt =
    let base = 15 * second * 2 ^ (attempt - 2) in
    if ltb (jittered base) max_backoff then jittered base else max_backoff

abbrev pub limit_for : ℕ → DeliveryRow → ℕ
limit_for max_attempts d = if str_eq d.event_type "endpoint.test" then 1 else max_attempts

abbrev pub delay_for : (ℕ → ℕ) → ℕ → ℕ
delay_for jittered attempts = backoff_for jittered (attempts + 1) / second

-- The result of the write-back is only logged.
abbrev pub write_back : DeliveryRow → ℕ → Settled → Db → Db
write_back d attempts s db =
    (update_after_attempt d.id attempts s.status s.next_attempt_at s.last_failure db).1

abbrev pub settled_at : (ℕ → ℕ) → ℕ → DeliveryRow → Option Failure → Db → Db
settled_at jittered max_attempts d f db =
    let attempts = d.attempts + 1 in
    write_back d attempts
      (settle (limit_for max_attempts d) attempts db.clock (delay_for jittered attempts) f) db

abbrev pub conclude_attempt : (ℕ → ℕ) → ℕ → DeliveryRow → Class → Db → Db
conclude_attempt jittered max_attempts d cancelled db = db
conclude_attempt jittered max_attempts d done db = settled_at jittered max_attempts d none db
conclude_attempt jittered max_attempts d (failure f) db =
    settled_at jittered max_attempts d (some f) db

-- `deliverOne`
unfoldable pub deliver_one : (ℕ → ℕ) → ℕ → DeliveryRow → Exchange → Db → Db
deliver_one jittered max_attempts d x db = conclude_attempt jittered max_attempts d (attempt x) db

-- The loop of `sweep`: whether the context is done before a row, and the exchange for the row; it is
-- done where the list ends.
unfoldable pub deliver_all : (ℕ → ℕ) → ℕ → List DeliveryRow → List (Bool × Exchange) → Db → Db
deliver_all jittered max_attempts [] xs db = db
deliver_all jittered max_attempts (d ∷ ds) [] db = db
deliver_all jittered max_attempts (d ∷ ds) ((stopped, x) ∷ xs) db =
    let rest = deliver_all jittered max_attempts ds xs (deliver_one jittered max_attempts d x db) in
    if stopped then db else rest

abbrev pub delivery_batch_size : ℕ
delivery_batch_size = 20

abbrev deliver_due : (ℕ → ℕ) → ℕ → Result (List DeliveryRow) → List (Bool × Exchange) → Db → Db
deliver_due jittered max_attempts (err e) xs db = db
deliver_due jittered max_attempts (ok ds) xs db = deliver_all jittered max_attempts ds xs db

-- `sweep`
unfoldable pub sweep : (ℕ → ℕ) → ℕ → List (Bool × Exchange) → Db → Db
sweep jittered max_attempts xs db =
    let (due, db') = due_for_attempt db.clock delivery_batch_size db in
    deliver_due jittered max_attempts due xs db'

-- The row that `Enqueuer.Enqueue` inserts (internal/server/notify/enqueue.go).
abbrev pub event_delivery : String → String → ℕ → String → DeliveryRow
event_delivery endpoint_id event_type event_id payload = record {
  id = 0;
  endpoint_id = endpoint_id;
  event_type = event_type;
  event_id = event_id;
  payload = payload;
  attempts = 0;
  next_attempt_at = none;
  status = pending;
  last_failure = none;
  created_at = 0;
  updated_at = 0;
}

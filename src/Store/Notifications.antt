-- ===== src/Store/Notifications.antt =====
-- The webhook endpoints and the outbox of deliveries (internal/store/notifications.go).
use diyddns.Prelude.{
  ℕ, suc, String, Bool, true, false, not, ◌&&◌, ◌||◌, List, [], ◌∷◌, ◌++◌, Option, none, some,
  str_eq, ◌==◌, leb, ltb, if◌then◌else◌, find_where, update_where, exists, select, take, length,
  drop_first,
}
use diyddns.Store.Order.{order_by_number}
use diyddns.Store.Db.{
  not_found, conflict, driver, Result, ok, err, EndpointRow, DeliveryRow, Status, pending,
  delivered, failed, Failure, Tables, Sql, statement, now_unix, null_if_zero, ◌>>=◌,
}
use diyddns.Store.Devices.Writes.{found}

abbrev pub has_endpoint_id : String → EndpointRow → Bool
has_endpoint_id id e = str_eq e.id id

abbrev pub has_delivery_id : ℕ → DeliveryRow → Bool
has_delivery_id id d = d.id == id

-- PRIMARY KEY and UNIQUE (url); a new endpoint is enabled.
insert_endpoint : EndpointRow → Tables → Result (Unit {0}) × Tables
insert_endpoint e t =
    if exists (λ o. str_eq o.id e.id || str_eq o.url e.url) t.endpoints
    then (err conflict, t)
    else (ok tt, record t { endpoints = t.endpoints ++ record e { enabled = true } ∷ [] })

unfoldable pub create_endpoint : EndpointRow → Sql (Unit {0})
unfolding insert_endpoint
create_endpoint e = statement (insert_endpoint e)

unfoldable pub get_endpoint : String → Sql EndpointRow
get_endpoint id = statement λ t. (found (find_where (has_endpoint_id id) t.endpoints), t)

unfoldable pub set_endpoint_enabled : String → Bool → Sql (Unit {0})
set_endpoint_enabled id enabled = do
  now ← now_unix
  statement λ t.
      if exists (has_endpoint_id id) t.endpoints
      then (
        ok tt,
        record t {
          endpoints =
              update_where (has_endpoint_id id)
                (λ e. record e { enabled = enabled; updated_at = now }) t.endpoints;
        },
      )
      else (err not_found, t)

-- `Delete`: the deliveries go by ON DELETE CASCADE.
unfoldable pub delete_endpoint : String → Sql (Unit {0})
delete_endpoint id = statement λ t.
    if exists (has_endpoint_id id) t.endpoints
    then (
      ok tt,
      record t {
        endpoints = select (λ e. not (has_endpoint_id id e)) t.endpoints;
        deliveries = select (λ d. not (str_eq d.endpoint_id id)) t.deliveries;
      },
    )
    else (err not_found, t)

-- The INSERT: the foreign key wants the endpoint, and AUTOINCREMENT gives the id.
unfoldable pub insert_delivery : DeliveryRow → Tables → Result (Unit {0}) × Tables
insert_delivery d t =
    if exists (has_endpoint_id d.endpoint_id) t.endpoints
    then (
      ok tt,
      record t {
        deliveries = t.deliveries ++ record d { id = suc t.delivery_seq } ∷ [];
        delivery_seq = suc t.delivery_seq;
      },
    )
    else (err driver, t)

-- `Enqueue`; `next_attempt_at` is 0 for NULL.
unfoldable pub enqueue_delivery : DeliveryRow → ℕ → Sql (Unit {0})
enqueue_delivery d next_attempt_at = do
  now ← now_unix
  statement (
      insert_delivery (record d {
        next_attempt_at = null_if_zero next_attempt_at;
        created_at = now;
        updated_at = now;
      }))

-- ORDER BY, on a number
abbrev is_scheduled : ℕ → Option ℕ → Bool
is_scheduled before none = false
is_scheduled before (some at) = leb at before

abbrev scheduled_at : DeliveryRow → ℕ
scheduled_at d = elim d.next_attempt_at [ none ↦ 0 | some at ↦ at ]

abbrev pub is_enabled : List EndpointRow → String → Bool
is_enabled endpoints id = exists (λ (e : EndpointRow). has_endpoint_id id e && e.enabled) endpoints

-- `DueForAttempt`; the endpoint's columns are read with `get_endpoint`'s row.
unfoldable pub due_for_attempt : ℕ → ℕ → Sql (List DeliveryRow)
due_for_attempt before limit = statement λ t. (
  ok (
      take limit (
        order_by_number scheduled_at (
          select
            (λ (d : DeliveryRow).
              is_scheduled before d.next_attempt_at && is_enabled t.endpoints d.endpoint_id)
            t.deliveries))),
  t,
)

abbrev pub outcome : ℕ → Status → ℕ → Option Failure → ℕ → DeliveryRow → DeliveryRow
outcome attempts status next_attempt_at last_failure now d = record d {
  attempts = attempts;
  status = status;
  next_attempt_at = null_if_zero next_attempt_at;
  last_failure = last_failure;
  updated_at = now;
}

-- `UpdateAfterAttempt`
unfoldable pub update_after_attempt : ℕ → ℕ → Status → ℕ → Option Failure → Sql (Unit {0})
update_after_attempt id attempts status next_attempt_at last_failure = do
  now ← now_unix
  statement λ t. (
    ok tt,
    record t {
      deliveries =
          update_where (has_delivery_id id)
            (outcome attempts status next_attempt_at last_failure now) t.deliveries;
    },
  )

abbrev pub is_pending : Status → Bool
is_pending pending = true
is_pending delivered = false
is_pending failed = false

abbrev pub fresh : DeliveryRow → ℕ → DeliveryRow
fresh d now = record d {
  attempts = 0;
  next_attempt_at = some now;
  status = pending;
  last_failure = none;
  created_at = now;
  updated_at = now;
}

abbrev pub test_delivery : String → String → DeliveryRow
test_delivery endpoint_id payload = record {
  id = 0;
  endpoint_id = endpoint_id;
  event_type = "endpoint.test";
  event_id = 0;
  payload = payload;
  attempts = 0;
  next_attempt_at = none;
  status = pending;
  last_failure = none;
  created_at = 0;
  updated_at = 0;
}

abbrev pub append_fresh : DeliveryRow → ℕ → Tables → Tables
append_fresh d now t = record t {
  deliveries = t.deliveries ++ record (fresh d now) { id = suc t.delivery_seq } ∷ [];
  delivery_seq = suc t.delivery_seq;
}

-- `InsertUserTest`
unfoldable pub insert_user_test : String → String → ℕ → Sql Bool
insert_user_test endpoint_id payload now = statement λ t.
    if is_enabled t.endpoints endpoint_id
    then (ok true, append_fresh (test_delivery endpoint_id payload) now t)
    else (ok false, t)

abbrev pub redelivered : Option DeliveryRow → ℕ → Tables → Result Bool × Tables
redelivered none now t = (ok false, t)
redelivered (some d) now t = (ok true, append_fresh d now t)

-- `InsertRedelivery`
unfoldable pub insert_redelivery : ℕ → ℕ → Sql Bool
insert_redelivery delivery_id now = statement λ t.
    redelivered
      (find_where
        (λ (d : DeliveryRow).
          has_delivery_id delivery_id d
          && not (is_pending d.status)
          && is_enabled t.endpoints d.endpoint_id)
        t.deliveries)
      now t

abbrev pub is_prunable : ℕ → DeliveryRow → Bool
is_prunable older_than d = ltb d.created_at older_than && not (is_pending d.status)

-- `Prune`: the number of rows removed. Which of them the LIMIT takes is not said by the statement; here
-- they are the first.
unfoldable pub prune_deliveries : ℕ → ℕ → Sql ℕ
prune_deliveries older_than batch = statement λ t. (
  ok (length (take batch (select (is_prunable older_than) t.deliveries))),
  record t { deliveries = drop_first (is_prunable older_than) batch t.deliveries },
)

-- ===== src/Notify/Worker/Outbox.antt =====
-- The outbox owes what is pending and nothing else (internal/store/notifications.go,
-- internal/server/notify/worker.go).
use diyddns.Prelude.{
  ℕ, suc, ◌+◌, ◌≤◌, ◌<◌, String, Bool, true, false, ◌≡◌, inl, refl, sym, subst, [], ◌∷◌, ◌++◌,
  Option, none, some, All, All-append, All-update_where, if◌then◌else◌, update_where, exists, arith,
}
use diyddns.Store.Db.{
  Result, ok, err, DeliveryRow, Failure, Tables, Db, null_if_zero, driver, now_unix,
}
use diyddns.Store.Notifications.{
  has_endpoint_id, has_delivery_id, delete_endpoint, insert_delivery, enqueue_delivery,
  update_after_attempt, outcome, insert_user_test, insert_redelivery, prune_deliveries,
}
use diyddns.Notify.Worker.{
  Class, cancelled, done, failure, Exchange, attempt, settle, limit_for, delay_for, event_delivery,
  settled_at, conclude_attempt, deliver_one,
}
use diyddns.Notify.Worker.Owed.{Owed, null_if_zero_pos, settle-Owed}
use diyddns.Notify.Worker.Safe.{
  Sound, Keeps, statement-Safe, insert_redelivery-Safe, insert_user_test-Safe,
  prune_deliveries-Safe, delete_endpoint-Safe,
}

module _ (max_attempts : ℕ) (p : 0 < max_attempts) where
  -- The outbox as it changes: the worker delivers what it has read, events are enqueued, endpoints come
  -- and go, and old rows are pruned, at instants after the epoch.
  pub data Reachable (jittered : ℕ → ℕ) : Db → Type 0 where
    empty : (db : Db) → db.tables.deliveries ≡ [] → Reachable jittered db
    elsewhere :
        (db db' : Db)
        → Reachable jittered db
        → db'.tables.deliveries ≡ db.tables.deliveries
        → Reachable jittered db'
    delivered_one :
        (db : Db) (d : DeliveryRow) (x : Exchange)
        → Reachable jittered db
        → 0 < db.clock
        → Reachable jittered (deliver_one jittered max_attempts d x db)
    enqueued :
        (db : Db) (endpoint_id event_type : String) (event_id : ℕ) (payload : String)
        → Reachable jittered db
        → 0 < db.clock
        → Reachable jittered
            (enqueue_delivery
              (event_delivery endpoint_id event_type event_id payload)
              db.clock
              db).1
    tested :
        (db : Db) (endpoint_id payload : String)
        → Reachable jittered db
        → Reachable jittered (insert_user_test endpoint_id payload db.clock db).1
    copied :
        (db : Db) (id : ℕ)
        → Reachable jittered db
        → Reachable jittered (insert_redelivery id db.clock db).1
    pruned :
        (db : Db) (older_than batch : ℕ)
        → Reachable jittered db
        → Reachable jittered (prune_deliveries older_than batch db).1
    deleted :
        (db : Db) (id : String)
        → Reachable jittered db
        → Reachable jittered (delete_endpoint id db).1

  limit_for-le : (d : DeliveryRow) → limit_for max_attempts d ≤ max_attempts
  limit_for-le d = ground arith

  write_back-Safe :
      (jittered : ℕ → ℕ) (d : DeliveryRow) (f : Option Failure) (db : Db)
      → 0 < db.clock
      → Sound max_attempts p db.tables
      → Sound max_attempts p (settled_at jittered max_attempts d f db).tables
  unfolding update_after_attempt now_unix
  write_back-Safe jittered d f db q =
      let attempts = d.attempts + 1 in
      let s = settle (limit_for max_attempts d) attempts db.clock (delay_for jittered attempts) f in
      statement-Safe max_attempts p
        (λ t. (
          ok tt,
          record t {
            deliveries =
                update_where (has_delivery_id d.id)
                  (outcome attempts s.status s.next_attempt_at s.last_failure db.clock)
                  t.deliveries;
          },
        ))
        (λ t h.
          All-update_where (Owed max_attempts) (has_delivery_id d.id)
            (outcome attempts s.status s.next_attempt_at s.last_failure db.clock) t.deliveries
            (λ x _.
              settle-Owed max_attempts (limit_for max_attempts d) attempts db.clock
                (delay_for jittered attempts) f db.clock x (limit_for-le d) q)
            h)
        db

  deliver_one-Sound :
      (jittered : ℕ → ℕ) (d : DeliveryRow) (x : Exchange) (db : Db)
      → 0 < db.clock
      → Sound max_attempts p db.tables
      → Sound max_attempts p (deliver_one jittered max_attempts d x db).tables
  unfolding deliver_one
  deliver_one-Sound jittered d x db q h = concluded (attempt x)
    where
      concluded :
          (c : Class) → Sound max_attempts p (conclude_attempt jittered max_attempts d c db).tables
      concluded cancelled = h
      concluded done = write_back-Safe jittered d none db q h
      concluded (failure f) = write_back-Safe jittered d (some f) db q h

  enqueue_delivery-Sound :
      (endpoint_id event_type : String) (event_id : ℕ) (payload : String) (db : Db)
      → 0 < db.clock
      → Sound max_attempts p db.tables
      → Sound max_attempts p
          (enqueue_delivery
            (event_delivery endpoint_id event_type event_id payload)
            db.clock
            db).1.tables
  unfolding enqueue_delivery insert_delivery now_unix
  enqueue_delivery-Sound endpoint_id event_type event_id payload db q =
      let d = record (event_delivery endpoint_id event_type event_id payload) {
        next_attempt_at = null_if_zero db.clock;
        created_at = db.clock;
        updated_at = db.clock;
      } in
      statement-Safe max_attempts p (insert_delivery d)
        (λ t. inserted t (exists (has_endpoint_id endpoint_id) t.endpoints)) db
    where
      inserted :
          (t : Tables) (b : Bool)
          → let d : DeliveryRow = record (event_delivery endpoint_id event_type event_id payload) {
            next_attempt_at = null_if_zero db.clock;
            created_at = db.clock;
            updated_at = db.clock;
          } in
            Keeps max_attempts p t
              (if◌then◌else◌ {A = Result (Unit {0}) × Tables} b
                (
                  ok tt,
                  record t {
                    deliveries = t.deliveries ++ record d { id = suc t.delivery_seq } ∷ [];
                    delivery_seq = suc t.delivery_seq;
                  },
                )
                (err driver, t)).1
      inserted t true h =
          All-append (Owed max_attempts) t.deliveries
            (record (event_delivery endpoint_id event_type event_id payload) {
              id = suc t.delivery_seq;
              next_attempt_at = null_if_zero db.clock;
              created_at = db.clock;
              updated_at = db.clock;
            })
            h (inl (refl, p, (db.clock, null_if_zero_pos db.clock q)))
      inserted t false h = h

  -- Where at least one attempt is allowed: in every state that the outbox reaches from an empty one,
  -- whatever the endpoints answer and whichever statements fail, each row is owed its delivery or is
  -- done with. A pending row has an attempt scheduled and fewer made than allowed; a delivered row has
  -- none scheduled and no failure; a failed row has none scheduled and says why.
  pub Reachable-Sound :
      (jittered : ℕ → ℕ) (db : Db) → Reachable jittered db → Sound max_attempts p db.tables
  Reachable-Sound jittered db (empty db' e) = subst (All (Owed max_attempts)) (sym e) tt
  Reachable-Sound jittered db (elsewhere db0 db1 r e) =
      subst (All (Owed max_attempts)) (sym e) (Reachable-Sound jittered db0 r)
  Reachable-Sound jittered db (delivered_one db0 d x r q) =
      deliver_one-Sound jittered d x db0 q (Reachable-Sound jittered db0 r)
  Reachable-Sound jittered db (enqueued db0 endpoint_id event_type event_id payload r q) =
      enqueue_delivery-Sound endpoint_id event_type event_id payload db0 q
        (Reachable-Sound jittered db0 r)
  Reachable-Sound jittered db (tested db0 endpoint_id payload r) =
      insert_user_test-Safe max_attempts p endpoint_id payload db0.clock db0
        (Reachable-Sound jittered db0 r)
  Reachable-Sound jittered db (copied db0 id r) =
      insert_redelivery-Safe max_attempts p id db0.clock db0 (Reachable-Sound jittered db0 r)
  Reachable-Sound jittered db (pruned db0 older_than batch r) =
      prune_deliveries-Safe max_attempts p older_than batch db0 (Reachable-Sound jittered db0 r)
  Reachable-Sound jittered db (deleted db0 id r) =
      delete_endpoint-Safe max_attempts p id db0 (Reachable-Sound jittered db0 r)

-- ===== src/Notify/Worker/Safe.antt =====
-- The statements of the outbox keep every row owed or done with (internal/store/notifications.go).
use diyddns.Prelude.{
  ℕ, suc, ◌<◌, String, Bool, true, false, not, ◌&&◌, inl, refl, Option, none, some, All, All-append,
  All-select, All-drop_first, drop_first, take, length, str_eq, if◌then◌else◌, find_where, select,
  exists,
}
use diyddns.Store.Db.{Result, ok, err, DeliveryRow, Tables, Sql, statement, not_found}
use diyddns.Store.Db.Moves.{Moves, Moves-statement}
use diyddns.Store.Notifications.{
  has_endpoint_id, has_delivery_id, delete_endpoint, is_pending, is_enabled, insert_user_test,
  insert_redelivery, redelivered, append_fresh, fresh, test_delivery, is_prunable, prune_deliveries,
}
use diyddns.Notify.Worker.Owed.{Owed}

module _ (max_attempts : ℕ) (p : 0 < max_attempts) where
  abbrev pub Sound : Tables → Type 0
  Sound t = All (Owed max_attempts) t.deliveries

  abbrev pub Keeps : Tables → Tables → Type 0
  Keeps a b = Sound a → Sound b

  pub Keeps-same : (t : Tables) → Keeps t t
  Keeps-same t h = h

  pub Keeps-then : (a b c : Tables) → Keeps a b → Keeps b c → Keeps a c
  Keeps-then a b c f g h = g (f h)

  abbrev pub Safe : {A : Type 0} → Sql A → Type 0
  Safe m = Moves Keeps Keeps-same Keeps-then m

  pub statement-Safe :
      {A : Type 0} (f : Tables → Result A × Tables)
      → ((t : Tables) → Keeps t (f t).1)
      → Safe (statement f)
  statement-Safe f h = Moves-statement Keeps Keeps-same Keeps-then f h

  append_fresh-Sound : (d : DeliveryRow) (now : ℕ) (t : Tables) → Keeps t (append_fresh d now t)
  append_fresh-Sound d now t h =
      All-append (Owed max_attempts) t.deliveries (record (fresh d now) { id = suc t.delivery_seq })
        h (inl (refl, p, (now, refl)))

  pub insert_redelivery-Safe : (id now : ℕ) → Safe (insert_redelivery id now)
  unfolding insert_redelivery
  insert_redelivery-Safe id now =
      statement-Safe
        (λ t.
          redelivered
            (find_where
              (λ (d : DeliveryRow).
                has_delivery_id id d
                && not (is_pending d.status)
                && is_enabled t.endpoints d.endpoint_id)
              t.deliveries)
            now t)
        (λ t. copied t (
          find_where
            (λ (d : DeliveryRow).
              has_delivery_id id d
              && not (is_pending d.status)
              && is_enabled t.endpoints d.endpoint_id)
            t.deliveries))
    where
      copied : (t : Tables) (o : Option DeliveryRow) → Keeps t (redelivered o now t).1
      copied t none h = h
      copied t (some d) h = append_fresh-Sound d now t h

  pub insert_user_test-Safe :
      (id payload : String) (now : ℕ) → Safe (insert_user_test id payload now)
  unfolding insert_user_test
  insert_user_test-Safe id payload now =
      statement-Safe
        (λ t.
          if is_enabled t.endpoints id
          then (ok true, append_fresh (test_delivery id payload) now t)
          else (ok false, t))
        (λ t. tested t (is_enabled t.endpoints id))
    where
      tested :
          (t : Tables) (b : Bool)
          → Keeps t
              (if◌then◌else◌ {A = Result Bool × Tables} b
                (ok true, append_fresh (test_delivery id payload) now t)
                (ok false, t)).1
      tested t true h = append_fresh-Sound (test_delivery id payload) now t h
      tested t false h = h

  pub prune_deliveries-Safe : (older_than batch : ℕ) → Safe (prune_deliveries older_than batch)
  unfolding prune_deliveries
  prune_deliveries-Safe older_than batch =
      statement-Safe
        (λ t. (
          ok (length (take batch (select (is_prunable older_than) t.deliveries))),
          record t { deliveries = drop_first (is_prunable older_than) batch t.deliveries },
        ))
        (λ t h. All-drop_first (Owed max_attempts) (is_prunable older_than) batch t.deliveries h)

  pub delete_endpoint-Safe : (id : String) → Safe (delete_endpoint id)
  unfolding delete_endpoint
  delete_endpoint-Safe id =
      statement-Safe
        (λ t.
          if exists (has_endpoint_id id) t.endpoints
          then (
            ok tt,
            record t {
              endpoints = select (λ e. not (has_endpoint_id id e)) t.endpoints;
              deliveries = select (λ d. not (str_eq d.endpoint_id id)) t.deliveries;
            },
          )
          else (err not_found, t))
        (λ t h. dropped t (exists (has_endpoint_id id) t.endpoints) h)
    where
      dropped :
          (t : Tables) (b : Bool)
          → Keeps t
              (if◌then◌else◌ {A = Result (Unit {0}) × Tables} b
                (
                  ok tt,
                  record t {
                    endpoints = select (λ e. not (has_endpoint_id id e)) t.endpoints;
                    deliveries = select (λ d. not (str_eq d.endpoint_id id)) t.deliveries;
                  },
                )
                (err not_found, t)).1
      dropped t true h =
          All-select (Owed max_attempts) (λ d. not (str_eq d.endpoint_id id)) t.deliveries h
      dropped t false h = h

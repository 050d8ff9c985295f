-- ===== src/Notify/Worker/Exhaust.antt =====
-- A delivery comes to an end (internal/server/notify/worker.go).
use diyddns.Prelude.{
  ℕ, ◌+◌, ◌≤◌, ◌<◌, Bool, true, false, ◌≡◌, ◌⊎◌, inl, inr, refl, ap, ◌∙◌, List, [], ◌∷◌, Option,
  none, some, All, if◌then◌else◌, find_where, update_where, length, arith,
}
use diyddns.Store.Db.{DeliveryRow, pending, failed, Failure, Db, statement, now_unix}
use diyddns.Store.Notifications.{has_delivery_id, outcome, is_pending, update_after_attempt}
use diyddns.Notify.Worker.{
  done, failure, Settled, Exchange, attempt, settle, exhausted_or_gone, limit_for, delay_for,
  settled_at, conclude_attempt, deliver_one,
}

-- The worker meets a row again and again, as `sweep` selects it while it is pending: an exchange for
-- each time.
unfoldable pub deliver_until : (ℕ → ℕ) → ℕ → ℕ → List Exchange → Db → Db
deliver_until jittered max_attempts id [] db = db
deliver_until jittered max_attempts id (x ∷ xs) db =
    elim (find_where (has_delivery_id id) db.tables.deliveries) [
      | none ↦ db
      | some d ↦
          let rest =
            deliver_until jittered max_attempts id xs (deliver_one jittered max_attempts d x db) in
          if is_pending d.status then rest else db
    ]

-- An attempt that was not cut off by the end of the context.
abbrev pub Concluded : Exchange → Type 0
Concluded x = (f : Option Failure) × (attempt x ≡ (elim f [ none ↦ done | some c ↦ failure c ]))

find-update :
    (id : ℕ) (f : DeliveryRow → DeliveryRow) (xs : List DeliveryRow) (d : DeliveryRow)
    → ((x : DeliveryRow) → (f x).id ≡ x.id)
    → find_where (has_delivery_id id) xs ≡ some d
    → find_where (has_delivery_id id) (update_where (has_delivery_id id) f xs) ≡ some (f d)
find-update id f [] d h e = absurd (ground arith)
find-update id f (x ∷ xs) d h e = ground (arith, h x, find-update id f xs d h)

found_id :
    (id : ℕ) (xs : List DeliveryRow) (d : DeliveryRow)
    → find_where (has_delivery_id id) xs ≡ some d
    → d.id ≡ id
found_id id [] d e = absurd (ground arith)
found_id id (x ∷ xs) d e = ground (arith, found_id id xs d)

-- The end of a delivery: it is done with, after no more attempts than allowed.
abbrev pub Ended : ℕ → DeliveryRow → Type 0
Ended limit e = (is_pending e.status ≡ false) × (e.attempts ≤ limit) × (e.next_attempt_at ≡ none)

settle_cases :
    (limit attempts now delay : ℕ) (f : Option Failure) (t : ℕ) (d : DeliveryRow)
    → attempts ≤ limit
    → let s = settle limit attempts now delay f in
      let e = outcome attempts s.status s.next_attempt_at s.last_failure t d in
      Ended limit e ⊎ (is_pending e.status ≡ true) × (attempts < limit)
unfolding settle
settle_cases limit attempts now delay none t d h = inl (refl, h, refl)
settle_cases limit attempts now delay (some f) t d h =
    judged (exhausted_or_gone limit attempts f) refl
  where
    judged :
        (b : Bool)
        → exhausted_or_gone limit attempts f ≡ b
        → let s : Settled =
            if b
            then record { status = failed; next_attempt_at = 0; last_failure = some f }
            else record {
              status = pending;
              next_attempt_at = now + delay;
              last_failure = some f;
            } in
          let e = outcome attempts s.status s.next_attempt_at s.last_failure t d in
          Ended limit e ⊎ (is_pending e.status ≡ true) × (attempts < limit)
    judged true e = inl (refl, h, refl)
    judged false e = inr (refl, ground arith)

module _ (jittered : ℕ → ℕ) (max_attempts : ℕ) where
  concluded :
      (d : DeliveryRow) (f : Option Failure) (db : Db)
      → conclude_attempt jittered max_attempts d (elim f [ none ↦ done | some c ↦ failure c ]) db
        ≡ settled_at jittered max_attempts d f db
  concluded d none db = refl
  concluded d (some c) db = refl

  abbrev after_one : DeliveryRow → Option Failure → ℕ → DeliveryRow
  after_one d f now =
      let s =
        settle (limit_for max_attempts d) (d.attempts + 1) now (delay_for jittered (d.attempts + 1))
          f in
      outcome (d.attempts + 1) s.status s.next_attempt_at s.last_failure now d

  settled_calm :
      (d : DeliveryRow) (f : Option Failure) (db : Db)
      → db.weather ≡ []
      → let end = settled_at jittered max_attempts d f db in
        let s =
          settle
            (limit_for max_attempts d)
            (d.attempts + 1)
            db.clock
            (delay_for jittered (d.attempts + 1))
            f in
        (end.weather ≡ [])
        × (end.tables.deliveries
            ≡ update_where
                (has_delivery_id d.id)
                (outcome (d.attempts + 1) s.status s.next_attempt_at s.last_failure db.clock)
                db.tables.deliveries)
  unfolding update_after_attempt statement now_unix
  settled_calm d f db w = ground arith

  -- What one attempt makes of the row, where no statement fails.
  once :
      (id : ℕ) (d : DeliveryRow) (x : Exchange) (f : Option Failure) (db : Db)
      → db.weather ≡ []
      → find_where (has_delivery_id id) db.tables.deliveries ≡ some d
      → attempt x ≡ (elim f [ none ↦ done | some c ↦ failure c ])
      → let end = deliver_one jittered max_attempts d x db in
        (end.weather ≡ [])
        × (find_where (has_delivery_id id) end.tables.deliveries ≡ some (after_one d f db.clock))
  unfolding deliver_one
  once id d x f db w e a =
      let s =
        settle (limit_for max_attempts d) (d.attempts + 1) db.clock
          (delay_for jittered (d.attempts + 1)) f in
      let write = outcome (d.attempts + 1) s.status s.next_attempt_at s.last_failure db.clock in
      let end = settled_at jittered max_attempts d f db in
      let same : deliver_one jittered max_attempts d x db ≡ end =
        ap (λ c. conclude_attempt jittered max_attempts d c db) a ∙ concluded d f db in
      let (quiet, rows) = settled_calm d f db w in
      (
        ap (λ (y : Db). y.weather) same ∙ quiet,
        ap (λ (y : Db). find_where (has_delivery_id id) y.tables.deliveries) same
            ∙ ap (find_where (has_delivery_id id)) rows
            ∙ ap
                (λ i.
                  find_where (has_delivery_id id)
                    (update_where (has_delivery_id i) write db.tables.deliveries))
                (found_id id db.tables.deliveries d e)
            ∙ find-update id write db.tables.deliveries d (λ y. refl) e,
      )

  -- A row that is done with is not delivered again.
  stays :
      (id : ℕ) (e : DeliveryRow) (xs : List Exchange) (db : Db)
      → find_where (has_delivery_id id) db.tables.deliveries ≡ some e
      → is_pending e.status ≡ false
      → deliver_until jittered max_attempts id xs db ≡ db
  unfolding deliver_until
  stays id e [] db h k = refl
  stays id e (x ∷ xs) db h k = ground arith

  goes_on :
      (id : ℕ) (d : DeliveryRow) (x : Exchange) (xs : List Exchange) (db : Db)
      → find_where (has_delivery_id id) db.tables.deliveries ≡ some d
      → is_pending d.status ≡ true
      → deliver_until jittered max_attempts id (x ∷ xs) db
        ≡ deliver_until jittered max_attempts id xs (deliver_one jittered max_attempts d x db)
  unfolding deliver_until
  goes_on id d x xs db h k = ground arith

  -- Where no statement fails: a pending delivery that the worker meets as often as it has attempts left,
  -- none of them cut off, comes to an end whatever the endpoint answers. It is then delivered or
  -- failed, after at most the allowed attempts, with no further one scheduled.
  pub deliver_until-Ended :
      (id : ℕ) (d : DeliveryRow) (xs : List Exchange) (db : Db)
      → db.weather ≡ []
      → find_where (has_delivery_id id) db.tables.deliveries ≡ some d
      → is_pending d.status ≡ true
      → d.attempts < limit_for max_attempts d
      → limit_for max_attempts d ≤ d.attempts + length xs
      → All Concluded xs
      → (e : DeliveryRow) × (find_where
            (has_delivery_id id)
            (deliver_until jittered max_attempts id xs db).tables.deliveries
          ≡ some e)
        × Ended (limit_for max_attempts d) e
  deliver_until-Ended id d [] db w h k a b all = absurd (omega (arith, a, b))
  deliver_until-Ended id d (x ∷ xs) db w h k a b all =
      let (f, class) = all.0 in
      let (quiet, found) = once id d x f db w h class in
      let mid = deliver_one jittered max_attempts d x db in
      let d' = after_one d f db.clock in
      let step = goes_on id d x xs db h k in
      let row : Db → Option DeliveryRow =
        λ y. find_where (has_delivery_id id) y.tables.deliveries in
      elim (settle_cases (limit_for max_attempts d) (d.attempts + 1) db.clock
        (delay_for jittered (d.attempts + 1)) f db.clock d (omega (arith, a))) [
          | inl ended ↦ (d', ap row step ∙ ap row (stays id d' xs mid found ended.0) ∙ found, ended)
          | inr (still, fewer) ↦
              let (e, there, ended) =
                deliver_until-Ended id d' xs mid quiet found still fewer (omega (arith, b)) all.1 in
              (e, ap row step ∙ there, ended)
        ]

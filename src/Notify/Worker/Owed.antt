-- ===== src/Notify/Worker/Owed.antt =====
-- What the outbox owes, and what is written back after an attempt (internal/server/notify/worker.go).
use diyddns.Prelude.{
  ℕ, zero, suc, ◌+◌, ◌≤◌, ◌<◌, Bool, true, false, ◌≡◌, ◌⊎◌, inl, inr, refl, Option, none, some,
  if◌then◌else◌, arith,
}
use diyddns.Store.Db.{DeliveryRow, pending, delivered, failed, Failure, null_if_zero}
use diyddns.Store.Notifications.{outcome}
use diyddns.Notify.Worker.{exhausted_or_gone, Settled, settle}

-- A pending row has an attempt ahead of it and one left; a terminal row has none scheduled, and says
-- why exactly where it failed.
abbrev pub Owed : ℕ → DeliveryRow → Type 0
Owed max_attempts d =
    (d.status ≡ pending) × (d.attempts < max_attempts) × ((at : ℕ) × (d.next_attempt_at ≡ some at))
    ⊎ (d.status ≡ delivered) × (d.next_attempt_at ≡ none) × (d.last_failure ≡ none)
    ⊎ (d.status ≡ failed) × (d.next_attempt_at ≡ none) × ((f : Failure) × (d.last_failure ≡ some f))

-- What `deliverOne` writes back is owed whatever the row said.
pub null_if_zero_pos : (n : ℕ) → 0 < n → null_if_zero n ≡ some n
null_if_zero_pos zero h = absurd (omega (arith, h))
null_if_zero_pos (suc n) h = refl

pub settle-Owed :
    (max_attempts limit attempts now delay : ℕ) (f : Option Failure) (t : ℕ) (d : DeliveryRow)
    → limit ≤ max_attempts
    → 0 < now
    → let s = settle limit attempts now delay f in
      Owed max_attempts (outcome attempts s.status s.next_attempt_at s.last_failure t d)
unfolding settle
settle-Owed max_attempts limit attempts now delay none t d p q = inr (inl (refl, refl, refl))
settle-Owed max_attempts limit attempts now delay (some f) t d p q =
    judged (exhausted_or_gone limit attempts f) refl
  where
    judged :
        (b : Bool)
        → exhausted_or_gone limit attempts f ≡ b
        → let s : Settled =
            if b
            then record { status = failed; next_attempt_at = 0; last_failure = some f }
            else record {
              status = pending;
              next_attempt_at = now + delay;
              last_failure = some f;
            } in
          Owed max_attempts (outcome attempts s.status s.next_attempt_at s.last_failure t d)
    judged true e = inr (inr (refl, refl, (f, refl)))
    judged false e =
        inl (refl, ground arith, (now + delay, null_if_zero_pos (now + delay) (omega (arith, q))))

-- ===== src/Client/Poller/Backoff.antt =====
-- How long the loop of `Run` sleeps (internal/client/poller/poller.go).
use diyddns.Prelude.{
  ℕ, zero, suc, ◌+◌, ◌*◌, ◌^◌, ◌<◌, ◌≡◌, refl, ap, ◌∙◌, ◌⊎◌, List, [], ◌∷◌, some, arith, leb,
  if◌then◌else◌, length, All,
}
use diyddns.Client.Poller.{
  Round, Poller, no_quorum, server_error, looping, second, next_backoff, decide, run_from, run,
}
use native.Mathlib.Nat.{pow-suc}
use native.Mathlib.Numerals.{towards_suc}
use diyddns.Client.Poller.Rejection.{IsLive}

-- The round fails, but not by a 401, and nothing is cancelled.
abbrev pub Fails : Round → Type 0
Fails r = IsLive r × ((r.error ≡ some no_quorum) ⊎ (r.error ≡ some server_error))

abbrev smaller : ℕ → ℕ → ℕ
smaller a b = if leb a b then a else b

-- The sleep after `k + 1` failures in a row: 30 s doubled `k` times, and at most the interval.
abbrev pub delay : ℕ → ℕ → ℕ
delay interval k = smaller (30 * second * 2 ^ k) interval

abbrev pub delays : ℕ → ℕ → ℕ → List ℕ
delays interval k zero = []
delays interval k (suc n) = delay interval k ∷ delays interval (k + 1) n

next_backoff-zero : (interval : ℕ) → interval < 2 ^ 62 → next_backoff 0 interval ≡ delay interval 0
unfolding next_backoff
next_backoff-zero interval h = ground arith

next_backoff-double :
    (interval x : ℕ)
    → 0 < interval
    → interval < 2 ^ 62
    → 0 < x
    → next_backoff (smaller (30 * second * x) interval) interval
      ≡ smaller (30 * second * (2 * x)) interval
unfolding next_backoff
next_backoff-double interval x p h q = ground arith

pow-pos : (k : ℕ) → 0 < 2 ^ k
pow-pos zero = omega arith
pow-pos (suc k) = omega (arith, pow-suc 2 k, pow-pos k)

next_backoff-delay :
    (interval k : ℕ)
    → 0 < interval
    → interval < 2 ^ 62
    → next_backoff (delay interval k) interval ≡ delay interval (k + 1)
next_backoff-delay interval k p h =
    let twice : 2 * 2 ^ k ≡ 2 ^ (k + 1) = simp towards_suc (omega arith) in
    next_backoff-double interval (2 ^ k) p h (pow-pos k)
    ∙ ap (λ x. smaller (30 * second * x) interval) twice

Fails-loop :
    (interval b n k : ℕ) (rs : List Round)
    → 0 < interval
    → interval < 2 ^ 62
    → next_backoff b interval ≡ delay interval k
    → All Fails rs
    → run_from interval (record { backoff = b; unauthorized = n }) rs
      ≡ (delays interval k (length rs), looping)
unfolding run_from decide
Fails-loop interval b n k [] pos h e fs = refl
Fails-loop interval b n k (r ∷ rs) pos h e ((live, failed), fs) = ground (
  arith,
  Fails-loop interval (next_backoff b interval) 0 (k + 1) rs pos h
      (rw e (next_backoff-delay interval k pos h)) fs,
)

-- For a positive interval below 2 ^ 62 ns, where the doubling of the delay stays an int64: as long as
-- every round fails, no round is a 401 and the context is cancelled neither in a cycle nor in a sleep,
-- the loop goes on, and its sleeps are 30 s, doubled each time, with the interval as their limit.
pub run-Fails :
    (p : Poller) (rs : List Round)
    → 0 < p.interval
    → p.interval < 2 ^ 62
    → All Fails rs
    → run p rs ≡ (delays p.interval 0 (length rs), looping)
unfolding run
run-Fails p rs pos h fs = Fails-loop p.interval 0 0 0 rs pos h (next_backoff-zero p.interval h) fs

-- ===== src/Client/Poller/Rejection.antt =====
-- When the loop of `Run` gives the credential up (internal/client/poller/poller.go).
use diyddns.Prelude.{
  ℕ, zero, suc, ◌+◌, ◌-◌, ◌≤◌, false, ◌≡◌, refl, subst, ◌⊎◌, ◌↔◌, inl, inr, List, [], ◌∷◌, some,
  arith,
}
use diyddns.Client.Poller.{
  Round, Loop, Poller, unauthorized, credential_rejected, next_backoff, decide, run_from, run,
}

-- The context outlives the round and its sleep.
abbrev pub IsLive : Round → Type 0
IsLive r = (r.done ≡ false) × (r.interrupted ≡ false)

-- The first `k + 1` rounds are answered 401, and the loop is not cancelled before the last of them.
abbrev pub Starts : ℕ → List Round → Type 0
Starts k [] = ⊥
Starts zero (r ∷ rs) = (r.error ≡ some unauthorized) × (r.done ≡ false)
Starts (suc k) (r ∷ rs) = (r.error ≡ some unauthorized) × IsLive r × Starts k rs

-- Somewhere, with no cancellation before, three consecutive rounds are answered 401.
abbrev pub ThreeInARow : List Round → Type 0
ThreeInARow [] = ⊥
ThreeInARow (r ∷ rs) = Starts 2 (r ∷ rs) ⊎ (IsLive r × ThreeInARow rs)

-- The loop's variables.
abbrev at : ℕ → ℕ → Loop
at b n = record { backoff = b; unauthorized = n }

-- With `2 - k` rejections counted so far, `k + 1` more in a row are enough.
abbrev Doomed : ℕ → List Round → Type 0
Doomed k rs = Starts k rs ⊎ ThreeInARow rs

-- From no rejection counted, three in a row are needed.
Doomed-fresh : (rs : List Round) → Doomed 2 rs → ThreeInARow rs
Doomed-fresh [] h = ground arith
Doomed-fresh (r ∷ rs) h = ground arith

Starts-fewer : (k : ℕ) (rs : List Round) → Starts (suc k) rs → Starts k rs
Starts-fewer k [] h = h
Starts-fewer zero (r ∷ rs) (e, (d, i), h) = (e, d)
Starts-fewer (suc k) (r ∷ rs) (e, live, h) = (e, live, Starts-fewer k rs h)

module _ (interval : ℕ) where
  reject_Doomed :
      (b k n : ℕ) (rs : List Round)
      → k + n ≡ 2
      → (run_from interval (at b n) rs).1 ≡ credential_rejected
      → Doomed k rs
  unfolding run_from decide
  reject_Doomed b k n [] e h = absurd (ground arith)
  reject_Doomed b zero n (r ∷ rs) e h = ground (
    arith,
    reject_Doomed 0 2 0 rs refl,
    reject_Doomed (next_backoff b interval) 2 0 rs refl,
    Doomed-fresh rs,
  )
  reject_Doomed b (suc k) n (r ∷ rs) e h = ground (
    arith,
    reject_Doomed 0 2 0 rs refl,
    reject_Doomed (next_backoff b interval) 2 0 rs refl,
    reject_Doomed (next_backoff b interval) k (n + 1) rs (omega arith),
    Doomed-fresh rs,
  )

  Starts-reject :
      (b k n : ℕ) (rs : List Round)
      → k + n ≡ 2
      → Starts k rs
      → (run_from interval (at b n) rs).1 ≡ credential_rejected
  unfolding run_from decide
  Starts-reject b k n [] e h = absurd h
  Starts-reject b zero n (r ∷ rs) e h = ground arith
  Starts-reject b (suc k) n (r ∷ rs) e h =
      ground (arith, Starts-reject (next_backoff b interval) k (n + 1) rs (omega arith))

  Starts-le : (k j : ℕ) (rs : List Round) → Starts (j + k) rs → Starts k rs
  Starts-le k zero rs h = ground arith
  Starts-le k (suc j) rs h = ground (arith, Starts-fewer (j + k) rs, Starts-le k j rs)

  ThreeInARow-reject :
      (b n : ℕ) (rs : List Round)
      → n ≤ 2
      → ThreeInARow rs
      → (run_from interval (at b n) rs).1 ≡ credential_rejected
  unfolding run_from decide
  ThreeInARow-reject b n [] le h = absurd h
  ThreeInARow-reject b n (r ∷ rs) le (inl h) =
      Starts-reject b (2 - n) n (r ∷ rs) (omega arith)
        (Starts-le (2 - n) n (r ∷ rs) (subst (λ k. Starts k (r ∷ rs)) {x = 2} (omega arith) h))
  ThreeInARow-reject b n (r ∷ rs) le (inr h) = ground (
    arith,
    ThreeInARow-reject 0 0 rs (omega arith),
    ThreeInARow-reject (next_backoff b interval) 0 rs (omega arith),
    ThreeInARow-reject (next_backoff b interval) (n + 1) rs,
  )

-- The loop gives the credential up exactly when three consecutive rounds are answered 401 before any
-- cancellation.
pub run_rejects :
    (p : Poller) (rs : List Round) → ((run p rs).1 ≡ credential_rejected) ↔ ThreeInARow rs
unfolding run
run_rejects p rs = (
  λ h. Doomed-fresh rs (reject_Doomed p.interval 0 2 0 rs refl h),
  ThreeInARow-reject p.interval 0 0 rs (omega arith),
)

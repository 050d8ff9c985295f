-- ===== src/Stale/Window/Ladder.antt =====
-- The warning ladder (internal/server/stale/window.go).
use diyddns.Prelude.{ℕ, ◌+◌, ◌*◌, ◌-◌, ◌≤◌, ◌<◌, ◌^◌, ◌≡◌, List, [], ◌∷◌, arith, leb, if◌then◌else◌}
use diyddns.Prelude.Int.{pos, sub_ℕ}
use diyddns.Stale.Window.{window, rungs, due_rung}

-- How many of the rungs have been reached.
abbrev pub reached : ℕ → List ℕ → ℕ
reached elapsed [] = 0
reached elapsed (at ∷ rest) = (if leb at elapsed then 1 else 0) + reached elapsed rest

-- For a device confirmed before now the due rung is the number of rungs reached: as the rungs rise,
-- the highest index and the count agree.
pub due_rung-reached :
    (w now confirmed : ℕ)
    → confirmed ≤ now
    → due_rung w (sub_ℕ now confirmed) ≡ reached (now - confirmed) (rungs w)
unfolding due_rung
due_rung-reached w now confirmed h = ground arith

-- Each instant of the list comes at least an hour after the one before, the first after `from`, and
-- the end at least an hour after the last.
abbrev pub Spaced : ℕ → ℕ → List ℕ → Type 0
Spaced from end [] = from + 3600 ≤ end
Spaced from end (at ∷ rest) = (from + 3600 ≤ at) × Spaced at end rest

window-Spaced : (days : ℕ) → 0 < days → Spaced 0 (window days) (rungs (window days))
unfolding window
window-Spaced days p = (omega arith, (omega arith, (omega arith, (omega arith, omega arith))))

window-bound : (days : ℕ) → days ≤ 36500 → 20 * window days < 2 ^ 63
unfolding window
window-bound days h = omega arith

due_rung-tick :
    (w earlier later : ℕ)
    → Spaced 0 w (rungs w)
    → later ≤ earlier + 3600
    → due_rung w (pos later) ≤ due_rung w (pos earlier) + 1
unfolding due_rung
due_rung-tick w earlier later (a, (b, (c, (d, e)))) h = ground arith

-- For every window that the configuration accepts, 1 to 36500 days, no product of the computation
-- passes an int64; the first rung comes at least an hour after the confirmation, each other one at
-- least an hour after the one before, and the expiry at least an hour after the last. Between two
-- sweeps that are at most an hour apart the due rung of a device that is confirmed by neither goes up
-- by at most one.
pub rungs-spacing :
    (days earlier later : ℕ)
    → 0 < days
    → days ≤ 36500
    → later ≤ earlier + 3600
    → (20 * window days < 2 ^ 63)
      × Spaced 0 (window days) (rungs (window days))
      × (due_rung (window days) (pos later) ≤ due_rung (window days) (pos earlier) + 1)
rungs-spacing days earlier later p h near = (
  window-bound days h,
  window-Spaced days p,
  due_rung-tick (window days) earlier later (window-Spaced days p) near,
)

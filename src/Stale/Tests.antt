-- ===== src/Stale/Tests.antt =====
-- Instances of what is proved of the staleness policy.
use diyddns.Prelude.{◌+◌, ◌*◌, ◌^◌, ◌≤◌, ◌<◌, ◌≡◌, refl, [], ◌∷◌, arith}
use diyddns.Prelude.Int.{pos, sub_ℕ}
use diyddns.Stale.Window.{window, rungs, due_rung}
use diyddns.Stale.Window.Ladder.{reached, due_rung-reached, Spaced, rungs-spacing}

-- The default window of 21 days has its rungs on days 7, 14, 17 and 20.
default_rungs : rungs (window 21) ≡ (7 * 86400) ∷ (14 * 86400) ∷ (17 * 86400) ∷ (20 * 86400) ∷ []
unfolding window
default_rungs = refl

third_rung : due_rung (21 * 86400) (sub_ℕ (18 * 86400) 0) ≡ 3
unfolding due_rung
third_rung = refl

due_rung-reached_example :
    due_rung (21 * 86400) (sub_ℕ (18 * 86400) 0) ≡ reached (18 * 86400) (rungs (21 * 86400))
due_rung-reached_example = due_rung-reached (21 * 86400) (18 * 86400) 0 (omega arith)

rungs-spacing_example :
    (20 * window 1 < 2 ^ 63)
    × Spaced 0 (window 1) (rungs (window 1))
    × (due_rung (window 1) (pos 30000) ≤ due_rung (window 1) (pos 27000) + 1)
rungs-spacing_example = rungs-spacing 1 27000 30000 (omega arith) (omega arith) (omega arith)

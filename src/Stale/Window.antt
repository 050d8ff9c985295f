-- ===== src/Stale/Window.antt =====
-- The window, the warning rungs and the recipients (internal/server/stale/window.go, notice.go).
-- Instants and windows are unix seconds, natural numbers below 2 ^ 63; an elapsed time is signed.
pub mod Ladder
use diyddns.Prelude.{
  ℕ, suc, ◌+◌, ◌*◌, ◌/◌, Bool, true, false, List, [], ◌∷◌, leb, if◌then◌else◌, ◌||◌,
}
use diyddns.Prelude.Int.{ℤ, pos, sub_ℕ, leb_ℤ}

abbrev pub seconds_per_day : ℕ
seconds_per_day = 86400

-- `Window`, of `cfg.ExpireAfterDays`
unfoldable pub window : ℕ → ℕ
window expire_after_days = expire_after_days * seconds_per_day

unfoldable pub expires_at : ℕ → ℕ → ℕ
expires_at confirmed_at w = confirmed_at + w

-- `Rungs`: the array of four.
abbrev pub rungs : ℕ → List ℕ
rungs w = (w / 3) ∷ (2 * w / 3) ∷ (17 * w / 21) ∷ (20 * w / 21) ∷ []

-- `FirstRung`, element 0 of the array
unfoldable pub first_rung : ℕ → ℕ
unfolding window
first_rung expire_after_days = window expire_after_days / 3

-- The loop of `DueRung` from index `i` on.
unfoldable pub due_loop : ℤ → ℕ → ℕ → List ℕ → ℕ
due_loop elapsed i due [] = due
due_loop elapsed i due (at ∷ rest) =
    due_loop elapsed (i + 1) (if leb_ℤ (pos at) elapsed then i + 1 else due) rest

unfoldable pub due_rung : ℕ → ℤ → ℕ
unfolding due_loop
due_rung w elapsed = due_loop elapsed 0 0 (rungs w)

pub data Kind : Type 0 where
  warning removed : Kind

pub data Audience : Type 0 where
  owner admin : Audience

abbrev pub is_removed : Kind → Bool
is_removed removed = true
is_removed warning = false

unfoldable pub recipients_for : Kind → ℕ → List Audience
recipients_for kind rung = if is_removed kind || leb 3 rung then owner ∷ admin ∷ [] else owner ∷ []

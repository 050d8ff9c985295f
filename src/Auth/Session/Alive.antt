-- ===== src/Auth/Session/Alive.antt =====
-- A session in use stays alive (internal/auth/session.go).
use diyddns.Prelude.{ℕ, ◌+◌, ◌≤◌, ◌<◌, String, false, ◌≡◌, ◌⊎◌, List, [], ◌∷◌, some, find_where}
use diyddns.Store.Db.{UserRow, SessionRow, Tables}
use diyddns.Store.Users.{has_user_id}
use diyddns.Store.Sessions.{is_session}
use diyddns.Auth.Timestamp.{seconds}
use diyddns.Auth.Session.{SessionManager, Login, admitted, denied, authenticate}

-- Uses of one session, each so many seconds after the one before, where no statement fails.
unfoldable pub use_after : SessionManager → String → List ℕ → Tables → ℕ → List Login
use_after m id [] t clock = []
use_after m id (gap ∷ gaps) t clock =
    let (verdict, end) =
      authenticate m false false id (record { tables = t; clock = clock + gap; weather = [] }) in
    verdict ∷ use_after m id gaps end.tables (clock + gap)

abbrev pub IsAdmitted : Login → Type 0
IsAdmitted (admitted usr s) = Unit
IsAdmitted (denied r) = ⊥

-- The session was seen less than a slide ago, and expires a TTL after it was seen, or later.
pub record Alive (m : SessionManager) (id : String) (t : Tables) (clock : ℕ) : Type 0 where
  pub row : SessionRow
  pub found_row : find_where (is_session id) t.sessions ≡ some row
  pub owner : UserRow
  pub found_owner : find_where (has_user_id row.user_id) t.users ≡ some owner
  pub enabled : owner.disabled ≡ false
  pub seen : (row.last_seen_at ≡ clock) ⊎ (clock < row.last_seen_at + seconds m.slide)
  pub lasts : row.last_seen_at + seconds m.ttl ≤ row.expires_at

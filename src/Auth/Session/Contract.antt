-- ===== src/Auth/Session/Contract.antt =====
-- What it takes to be admitted or denied (internal/auth/session.go).
use diyddns.Prelude.{ℕ, ◌+◌, ◌≤◌, ◌<◌, String, Bool, true, false, ◌≡◌, ◌⊎◌, none, some, find_where}
use diyddns.Store.Db.{UserRow, SessionRow, Tables, Db}
use diyddns.Store.Db.Instants.{clock_after, IsFailed}
use diyddns.Store.Users.{User, scan_user, has_user_id}
use diyddns.Store.Sessions.{Session, scan_session, is_session}
use diyddns.Store.Sessions.Laws.{slid_to}
use diyddns.Auth.Timestamp.{seconds}
use diyddns.Auth.Session.{
  SessionManager, Login, admitted, denied, Refusal, no_cookie, unknown_session,
  session_lookup_cancelled, session_store_error, session_expired, unknown_user,
  user_lookup_cancelled, user_store_error, user_disabled,
}

-- The clock after the read of the session, against which it is judged.
abbrev pub judged : Db → ℕ
judged db = clock_after 1 db.weather db.clock

-- Less than a slide after the session was last seen nothing is written. From then on it is recorded as
-- seen, after the read of the account, and as expiring a TTL after it was judged, unless the driver
-- fails that third statement.
abbrev pub Slides : SessionManager → Db → SessionRow → ℕ → Tables → Type 0
Slides m db row expires_at new =
    (judged db < row.last_seen_at + seconds m.slide)
      × (new ≡ db.tables)
      × (expires_at ≡ row.expires_at)
    ⊎ (row.last_seen_at + seconds m.slide ≤ judged db)
      × ((new
              ≡ slid_to row.id (clock_after 2 db.weather db.clock) (judged db + seconds m.ttl)
                  db.tables)
            × (expires_at ≡ judged db + seconds m.ttl)
          ⊎ IsFailed 2 db.weather × (new ≡ db.tables) × (expires_at ≡ row.expires_at))

-- The session of the cookie is stored and has not expired, and its owner is stored and enabled.
pub record Admitted (m : SessionManager) (id : String) (db : Db) (usr : User) (s : Session)
    (new : Tables) : Type 0 where
  pub row : SessionRow
  pub found_row : find_where (is_session id) db.tables.sessions ≡ some row
  pub owner : UserRow
  pub found_owner : find_where (has_user_id row.user_id) db.tables.users ≡ some owner
  pub returned : usr ≡ scan_user owner
  pub enabled : owner.disabled ≡ false
  pub live : judged db < row.expires_at
  pub same_session : s ≡ record (scan_session row) { expires_at = s.expires_at }
  pub written : Slides m db row s.expires_at new

-- What makes each refusal the answer; the two Booleans say whether the request's context is done.
abbrev pub Refused : String → Bool → Bool → Db → Refusal → Type 0
Refused id done_at_session done_at_user db no_cookie = ⊥
Refused id done_at_session done_at_user db unknown_session =
    find_where (is_session id) db.tables.sessions ≡ none
Refused id done_at_session done_at_user db session_lookup_cancelled =
    IsFailed 0 db.weather × (done_at_session ≡ true)
Refused id done_at_session done_at_user db session_store_error =
    IsFailed 0 db.weather × (done_at_session ≡ false)
Refused id done_at_session done_at_user db session_expired =
    (row : SessionRow) × (find_where (is_session id) db.tables.sessions ≡ some row)
    × (row.expires_at ≤ judged db)
Refused id done_at_session done_at_user db unknown_user =
    (row : SessionRow) × (find_where (is_session id) db.tables.sessions ≡ some row)
    × (judged db < row.expires_at)
    × (find_where (has_user_id row.user_id) db.tables.users ≡ none)
Refused id done_at_session done_at_user db user_lookup_cancelled =
    IsFailed 1 db.weather × (done_at_user ≡ true)
Refused id done_at_session done_at_user db user_store_error =
    IsFailed 1 db.weather × (done_at_user ≡ false)
Refused id done_at_session done_at_user db user_disabled =
    (row : SessionRow) × (owner : UserRow) × (find_where (is_session id) db.tables.sessions
      ≡ some row)
    × (judged db < row.expires_at)
    × (find_where (has_user_id row.user_id) db.tables.users ≡ some owner)
    × (owner.disabled ≡ true)

abbrev pub Decided : SessionManager → String → Bool → Bool → Db → Login × Db → Type 0
Decided m id done_at_session done_at_user db (admitted usr s, end) =
    Admitted m id db usr s end.tables
Decided m id done_at_session done_at_user db (denied r, end) =
    Refused id done_at_session done_at_user db r × (end.tables ≡ db.tables)

-- ===== src/Auth/Session.antt =====
-- The browser sessions (internal/auth/session.go, csrf.go). The random id and token of a new session
-- are arguments, and the clock is the database's.
pub mod Contract
pub mod Branches
pub mod Valid
pub mod Alive
pub mod Created
mod Tests
use diyddns.Prelude.{
  ℕ, ◌+◌, String, Bool, true, not, ◌&&◌, Option, none, some, str_eq, leb, if◌then◌else◌,
}
use diyddns.Prelude.Int.{pos, leb_ℤ, sub_ℕ}
use diyddns.Store.Db.{
  Error, not_found, conflict, driver, Result, ok, err, Db, Sql, pure, throw, now_unix, ◌>>=◌,
}
use diyddns.Store.Users.{User, get_user_by_id}
use diyddns.Store.Sessions.{Session, create_session, get_session, touch_session, delete_session}
use diyddns.Auth.Timestamp.{seconds}

-- The reasons of a `rejection`, for the log only.
pub data Refusal : Type 0 where
  no_cookie unknown_session session_lookup_cancelled session_store_error session_expired
        unknown_user user_lookup_cancelled user_store_error user_disabled :
      Refusal

pub data Login : Type 0 where
  admitted : User → Session → Login
  denied : Refusal → Login

-- `ctx.Err() != nil`, the error, and the three reasons.
abbrev pub session_rejection : Bool → Error → Refusal → Refusal → Refusal → Refusal
session_rejection done not_found missing cancelled broken = missing
session_rejection done conflict missing cancelled broken = if done then cancelled else broken
session_rejection done driver missing cancelled broken = if done then cancelled else broken

-- `SessionManager`: the durations in nanoseconds.
pub record SessionManager : Type 0 where
  pub ttl : ℕ
  pub slide : ℕ

-- `Create`, with the two random tokens.
unfoldable pub create_for :
    SessionManager → String → String → String → String → String → Sql Session
create_for m id csrf user_id ip user_agent = do
  now ← now_unix
  create_session "" (record {
    id = id;
    user_id = user_id;
    csrf_token = csrf;
    ip = ip;
    user_agent = user_agent;
    created_at = now;
    last_seen_at = now;
    expires_at = now + seconds m.ttl;
  })

-- The session that is returned once `Touch` was tried.
abbrev pub touched : ℕ → Session → Result (Unit {0}) → Session
touched expires_at s (ok _) = record s { expires_at = expires_at }
touched expires_at s (err e) = s

abbrev pub slid : SessionManager → ℕ → Session → User → Db → Login × Db
slid m now s usr db =
    let expires_at = now + seconds m.ttl in
    let (r, db') = touch_session s.id expires_at db in (admitted usr (touched expires_at s r), db')

-- `now - sess.LastSeenAt >= int64(m.slide.Seconds())`
abbrev pub idle : SessionManager → ℕ → Session → Bool
idle m now s = leb_ℤ (pos (seconds m.slide)) (sub_ℕ now s.last_seen_at)

abbrev pub check_owner : SessionManager → Bool → ℕ → Session → Result User → Db → Login × Db
check_owner m done now s (err e) db =
    (denied (session_rejection done e unknown_user user_lookup_cancelled user_store_error), db)
check_owner m done now s (ok usr) db =
    if usr.disabled
    then (denied user_disabled, db)
    else if idle m now s
    then slid m now s usr db
    else (admitted usr s, db)

abbrev pub check_session : SessionManager → Bool → Bool → Result Session → Db → Login × Db
check_session m done_at_session done_at_user (err e) db = (
  denied (
      session_rejection done_at_session e unknown_session session_lookup_cancelled
        session_store_error),
  db,
)
check_session m done_at_session done_at_user (ok s) db =
    if leb s.expires_at db.clock
    then (denied session_expired, db)
    else let (usr, db') = get_user_by_id s.user_id db in
      check_owner m done_at_user db.clock s usr db'

-- `Authenticate`; the two Booleans say whether the request's context is done at the two lookups.
unfoldable pub authenticate : SessionManager → Bool → Bool → String → Db → Login × Db
authenticate m done_at_session done_at_user id db =
    let (s, db') = get_session id db in check_session m done_at_session done_at_user s db'

-- `AuthenticateRequest`, of the cookie's value where the request has the cookie.
unfoldable pub authenticate_request : SessionManager → Bool → Bool → Option String → Db → Login × Db
authenticate_request m done_at_session done_at_user none db = (denied no_cookie, db)
authenticate_request m done_at_session done_at_user (some id) db =
    let run = authenticate m done_at_session done_at_user id db in
    if str_eq id "" then (denied no_cookie, db) else run

abbrev pub absent_passes : Result (Unit {0}) → Result (Unit {0})
absent_passes (ok u) = ok u
absent_passes (err not_found) = ok tt
absent_passes (err conflict) = err conflict
absent_passes (err driver) = err driver

-- `Destroy`
unfoldable pub destroy : String → Sql (Unit {0})
destroy id db = let (r, db') = delete_session id db in (absent_passes r, db')

-- `ValidCSRF`
unfoldable pub valid_csrf : Session → String → Bool
valid_csrf s token = not (str_eq s.csrf_token "") && str_eq token s.csrf_token

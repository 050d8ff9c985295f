-- ===== src/Store/Sessions.antt =====
-- The browser sessions (internal/store/sessions.go).
pub mod Laws
use diyddns.Prelude.{
  ℕ, String, Bool, not, List, [], ◌∷◌, ◌++◌, ◌==◌, str_eq, ltb, if◌then◌else◌, find_where,
  update_where, exists, select, length,
}
use diyddns.Store.Db.{
  not_found, driver, Result, ok, err, SessionRow, Tables, Sql, pure, statement, now_unix, ◌>>=◌,
  null_if_empty, scan_string,
}
use diyddns.Store.Devices.Writes.{found}
use diyddns.Store.Users.{has_user_id}

pub record Session : Type 0 where
  pub id : String
  pub user_id : String
  pub csrf_token : String
  pub ip : String
  pub user_agent : String
  pub created_at : ℕ
  pub last_seen_at : ℕ
  pub expires_at : ℕ

abbrev pub scan_session : SessionRow → Session
scan_session r = record {
  id = r.id;
  user_id = r.user_id;
  csrf_token = r.csrf_token;
  ip = scan_string r.ip;
  user_agent = scan_string r.user_agent;
  created_at = r.created_at;
  last_seen_at = r.last_seen_at;
  expires_at = r.expires_at;
}

abbrev pub session_row : Session → SessionRow
session_row s = record {
  id = s.id;
  user_id = s.user_id;
  csrf_token = s.csrf_token;
  ip = null_if_empty s.ip;
  user_agent = null_if_empty s.user_agent;
  created_at = s.created_at;
  last_seen_at = s.last_seen_at;
  expires_at = s.expires_at;
}

abbrev pub is_session : String → SessionRow → Bool
is_session id s = str_eq s.id id

-- The INSERT: PRIMARY KEY (id), and the foreign key on users.
abbrev pub insert_session : Session → Tables → Result Session × Tables
insert_session s t =
    if exists (is_session s.id) t.sessions
    then (err driver, t)
    else if exists (has_user_id s.user_id) t.users
    then (ok s, record t { sessions = t.sessions ++ session_row s ∷ [] })
    else (err driver, t)

-- `Create`; `new_id` is what `NewID()` returns.
unfoldable pub create_session : String → Session → Sql Session
create_session new_id s = do
  now ← now_unix
  let id = if str_eq s.id "" then new_id else s.id
  let seen = if s.last_seen_at == 0 then now else s.last_seen_at
  statement (insert_session (record s { id = id; created_at = now; last_seen_at = seen }))

abbrev pub read_session : String → Tables → Result SessionRow × Tables
read_session id t = (found (find_where (is_session id) t.sessions), t)

-- `GetByID`
unfoldable pub get_session : String → Sql Session
get_session id = do row ← statement (read_session id); pure (scan_session row)

abbrev pub seen_until : ℕ → ℕ → SessionRow → SessionRow
seen_until now expires_at s = record s { last_seen_at = now; expires_at = expires_at }

abbrev pub update_session : String → (SessionRow → SessionRow) → Tables → Result (Unit {0}) × Tables
update_session id f t =
    if exists (is_session id) t.sessions
    then (ok tt, record t { sessions = update_where (is_session id) f t.sessions })
    else (err not_found, t)

-- `Touch`
unfoldable pub touch_session : String → ℕ → Sql (Unit {0})
touch_session id expires_at = do
  now ← now_unix
  statement (update_session id (seen_until now expires_at))

-- `Delete`
unfoldable pub delete_session : String → Sql (Unit {0})
delete_session id = statement λ t.
    if exists (is_session id) t.sessions
    then (ok tt, record t { sessions = select (λ s. not (is_session id s)) t.sessions })
    else (err not_found, t)

abbrev pub session_of : String → SessionRow → Bool
session_of user_id s = str_eq s.user_id user_id

-- `DeleteByUser`: the number of rows deleted.
unfoldable pub delete_sessions_by_user : String → Sql ℕ
delete_sessions_by_user user_id = statement λ t. (
  ok (length (select (session_of user_id) t.sessions)),
  record t { sessions = select (λ s. not (session_of user_id s)) t.sessions },
)

abbrev pub session_expired : ℕ → SessionRow → Bool
session_expired now s = ltb s.expires_at now

-- `PruneExpired`: the number of rows deleted.
unfoldable pub prune_sessions : ℕ → Sql ℕ
prune_sessions now = statement λ t. (
  ok (length (select (session_expired now) t.sessions)),
  record t { sessions = select (λ s. not (session_expired now s)) t.sessions },
)

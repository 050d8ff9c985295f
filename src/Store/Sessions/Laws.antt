-- ===== src/Store/Sessions/Laws.antt =====
-- What the reads and the UPDATE of a session do (internal/store/sessions.go).
use diyddns.Prelude.{
  ℕ, ◌≤◌, String, true, ◌≡◌, ◌⊎◌, refl, sym, subst, Option, none, some, find_where, exists,
  update_where, arith,
}
use diyddns.Store.Db.{
  Error, not_found, driver, ok, err, SessionRow, Tables, Db, pure, statement, now_unix,
}
use diyddns.Store.Db.Instants.{
  clock_after, weather_after, IsFailed, statement_end, statement-IsFailed,
}
use diyddns.Store.Db.Laws.{statement_cases, statement_ok, statement_clock, bind_ok}
use diyddns.Store.Devices.Writes.{found}
use diyddns.Store.Sessions.{
  Session, scan_session, is_session, read_session, get_session, seen_until, update_session,
  touch_session,
}

found_session : (o : Option SessionRow) (r : SessionRow) → found o ≡ ok r → o ≡ some r
found_session none r h = absurd (ground arith)
found_session (some x) r h = ground arith

-- Reading a session changes no table.
pub tables-get_session : (id : String) (db : Db) → (get_session id db).1.tables ≡ db.tables
unfolding get_session
tables-get_session id db = ground (arith, statement_cases {0} (read_session id) db)

pub get_session_ok :
    (id : String) (db : Db) (s : Session)
    → (get_session id db).0 ≡ ok s
    → (row : SessionRow) × (find_where (is_session id) db.tables.sessions ≡ some row)
      × (s ≡ scan_session row)
      × (db.clock ≤ (get_session id db).1.clock)
unfolding get_session
get_session_ok id db s h =
    let (row, e, h1, end) =
      bind_ok (statement (read_session id)) (λ row. pure (scan_session row)) db s h in
    let done = statement_ok (read_session id) db row e in
    (
      row,
      found_session (find_where (is_session id) db.tables.sessions) row done.0,
      ground arith,
      subst (λ (d : Db). db.clock ≤ d.clock) (sym end) (statement_clock (read_session id) db),
    )

no_session : (o : Option SessionRow) (e : Error) → found o ≡ err e → (e ≡ not_found) × (o ≡ none)
no_session none e h = (ground arith, refl)
no_session (some x) e h = absurd (ground arith)

-- A read that returns an error was failed by the driver, or found no such session.
pub get_session_err :
    (id : String) (db : Db) (e : Error)
    → (get_session id db).0 ≡ err e
    → (e ≡ driver) × IsFailed 0 db.weather
      ⊎ (e ≡ not_found) × (find_where (is_session id) db.tables.sessions ≡ none)
unfolding get_session
get_session_err id db e h = ground (
  arith,
  statement-IsFailed (read_session id) db,
  no_session (find_where (is_session id) db.tables.sessions) e,
)

pub get_session_end :
    (id : String) (db : Db)
    → ((get_session id db).1.clock ≡ clock_after 1 db.weather db.clock)
      × ((get_session id db).1.weather ≡ weather_after db.weather)
unfolding get_session
get_session_end id db = ground (arith, statement_end (read_session id) db)

abbrev pub slid_to : String → ℕ → ℕ → Tables → Tables
slid_to id now expires_at t = record t {
  sessions = update_where (is_session id) (seen_until now expires_at) t.sessions;
}

-- The UPDATE changes the session of that id and no other, or nothing.
pub touch_session_cases :
    (id : String) (expires_at : ℕ) (db : Db)
    → ((touch_session id expires_at db).0 ≡ ok tt)
        × (exists (is_session id) db.tables.sessions ≡ true)
        × ((touch_session id expires_at db).1.tables ≡ slid_to id db.clock expires_at db.tables)
      ⊎ (e : Error) × ((touch_session id expires_at db).0 ≡ err e)
        × ((touch_session id expires_at db).1.tables ≡ db.tables)
unfolding touch_session now_unix
touch_session_cases id expires_at db =
    ground (arith, statement_cases {0} (update_session id (seen_until db.clock expires_at)) db)

-- An UPDATE of a session that is stored fails by the driver alone.
pub touch_session-IsFailed :
    (id : String) (expires_at : ℕ) (db : Db) (e : Error)
    → exists (is_session id) db.tables.sessions ≡ true
    → (touch_session id expires_at db).0 ≡ err e
    → IsFailed 0 db.weather
unfolding touch_session now_unix
touch_session-IsFailed id expires_at db e there h =
    ground (arith, statement-IsFailed (update_session id (seen_until db.clock expires_at)) db)

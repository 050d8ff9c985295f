-- ===== src/Store/Users/Laws.antt =====
-- What a read of an account returns and leaves behind (internal/store/users.go).
use diyddns.Prelude.{◌≡◌, ◌⊎◌, refl, ◌≤◌, String, Option, none, some, find_where, arith}
use diyddns.Store.Db.{Error, not_found, driver, err, ok, UserRow, Db, pure, statement}
use diyddns.Store.Db.Instants.{
  clock_after, weather_after, IsFailed, statement_end, statement-IsFailed,
}
use diyddns.Store.Db.Laws.{statement_cases, statement_ok, statement_clock, bind_ok}
use diyddns.Store.Devices.Writes.{found}
use diyddns.Store.Users.{User, scan_user, has_user_id, read_user, get_user_by_id}

found_row : (o : Option UserRow) (r : UserRow) → found o ≡ ok r → o ≡ some r
found_row none r h = absurd (ground arith)
found_row (some x) r h = ground arith

-- An account that was read is the row of its id.
pub get_user_by_id_ok :
    (id : String) (db : Db) (u : User)
    → (get_user_by_id id db).0 ≡ ok u
    → (row : UserRow) × (find_where (has_user_id id) db.tables.users ≡ some row)
      × (u ≡ scan_user row)
unfolding get_user_by_id
get_user_by_id_ok id db u h =
    let (row, e, h1, end) =
      bind_ok (statement (read_user (has_user_id id))) (λ row. pure (scan_user row)) db u h in
    (
      row,
      found_row (find_where (has_user_id id) db.tables.users) row
          (statement_ok (read_user (has_user_id id)) db row e).0,
      ground arith,
    )

-- Reading an account changes no table.
pub tables-get_user_by_id : (id : String) (db : Db) → (get_user_by_id id db).1.tables ≡ db.tables
unfolding get_user_by_id
tables-get_user_by_id id db = ground (arith, statement_cases {0} (read_user (has_user_id id)) db)

pub get_user_by_id_clock : (id : String) (db : Db) → db.clock ≤ (get_user_by_id id db).1.clock
unfolding get_user_by_id
get_user_by_id_clock id db = ground (arith, statement_clock (read_user (has_user_id id)) db)

no_row : (o : Option UserRow) (e : Error) → found o ≡ err e → (e ≡ not_found) × (o ≡ none)
no_row none e h = (ground arith, refl)
no_row (some x) e h = absurd (ground arith)

-- A read that returns an error was failed by the driver, or found no such account.
pub get_user_by_id_err :
    (id : String) (db : Db) (e : Error)
    → (get_user_by_id id db).0 ≡ err e
    → (e ≡ driver) × IsFailed 0 db.weather
      ⊎ (e ≡ not_found) × (find_where (has_user_id id) db.tables.users ≡ none)
unfolding get_user_by_id
get_user_by_id_err id db e h = ground (
  arith,
  statement-IsFailed (read_user (has_user_id id)) db,
  no_row (find_where (has_user_id id) db.tables.users) e,
)

pub get_user_by_id_end :
    (id : String) (db : Db)
    → ((get_user_by_id id db).1.clock ≡ clock_after 1 db.weather db.clock)
      × ((get_user_by_id id db).1.weather ≡ weather_after db.weather)
unfolding get_user_by_id
get_user_by_id_end id db = ground (arith, statement_end (read_user (has_user_id id)) db)

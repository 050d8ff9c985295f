-- ===== src/Store/Keys/Laws.antt =====
-- What the statements on the API keys do (internal/store/api_keys.go).
use diyddns.Prelude.{
  ℕ, String, not, ◌≡◌, ap, ◌∙◌, ◌⊎◌, List, [], ◌∷◌, ◌++◌, Option, none, some, find_where,
  find_where-exists, update_where, select, eq_iff, arith,
}
use diyddns.Store.Db.{Error, ok, err, ApiKeyRow, Tables, Db, pure, statement}
use diyddns.Store.Db.Laws.{statement_ok, statement_cases, bind_ok}
use diyddns.Store.Devices.Writes.{found}
use diyddns.Store.Keys.{
  ApiKey, scan_api_key, api_key_row, is_key, has_key_hash, insert_api_key, create_api_key,
  read_api_key, get_key_by_hash, get_key_by_id, remove_api_key, delete_api_key, touch_api_key,
}

-- The tables with other API keys.
abbrev pub with_keys : List ApiKeyRow → Tables → Tables
with_keys rows t = record t { api_keys = rows }

-- An INSERT appends the row of the key, or changes nothing.
pub create_api_key_cases :
    (k : ApiKey) (db : Db)
    → ((create_api_key k db).1.tables
        ≡ with_keys (db.tables.api_keys ++ api_key_row k ∷ []) db.tables)
      ⊎ ((create_api_key k db).1.tables ≡ db.tables)
unfolding create_api_key
create_api_key_cases k db = ground (arith, statement_cases {0} (insert_api_key k) db)

pub tables-get_key_by_hash :
    (hash : String) (db : Db) → (get_key_by_hash hash db).1.tables ≡ db.tables
unfolding get_key_by_hash
tables-get_key_by_hash hash db =
    ground (arith, statement_cases {0} (read_api_key (has_key_hash hash)) db)

pub tables-get_key_by_id : (id : String) (db : Db) → (get_key_by_id id db).1.tables ≡ db.tables
unfolding get_key_by_id
tables-get_key_by_id id db = ground (arith, statement_cases {0} (read_api_key (is_key id)) db)

found_key : (o : Option ApiKeyRow) (r : ApiKeyRow) → found o ≡ ok r → o ≡ some r
found_key none r h = absurd (ground arith)
found_key (some x) r h = ground arith

pub get_key_by_hash_ok :
    (hash : String) (db : Db) (key : ApiKey)
    → (get_key_by_hash hash db).0 ≡ ok key
    → (row : ApiKeyRow) × (find_where (has_key_hash hash) db.tables.api_keys ≡ some row)
      × (key ≡ scan_api_key row)
unfolding get_key_by_hash
get_key_by_hash_ok hash db key h =
    let (row, e, h1, end) =
      bind_ok (statement (read_api_key (has_key_hash hash))) (λ row. pure (scan_api_key row)) db key
        h in
    let done = statement_ok (read_api_key (has_key_hash hash)) db row e in
    (row, found_key (find_where (has_key_hash hash) db.tables.api_keys) row done.0, ground arith)

-- A key that was read is the row of its id.
pub get_key_by_id_ok :
    (id : String) (db : Db) (key : ApiKey)
    → (get_key_by_id id db).0 ≡ ok key
    → (row : ApiKeyRow) × (find_where (is_key id) db.tables.api_keys ≡ some row)
      × (key ≡ scan_api_key row)
      × (key.id ≡ id)
unfolding get_key_by_id
get_key_by_id_ok id db key h =
    let (row, e, h1, end) =
      bind_ok (statement (read_api_key (is_key id))) (λ row. pure (scan_api_key row)) db key h in
    let done = statement_ok (read_api_key (is_key id)) db row e in
    let at = found_key (find_where (is_key id) db.tables.api_keys) row done.0 in
    let (is, _) = find_where-exists (is_key id) db.tables.api_keys row at in
    let scanned : key ≡ scan_api_key row = ground arith in
    (row, at, scanned, ap (λ (k : ApiKey). k.id) scanned ∙ (eq_iff row.id id).0 is)

pub delete_api_key_ok :
    (id : String) (db : Db)
    → (delete_api_key id db).0 ≡ ok tt
    → (delete_api_key id db).1.tables
      ≡ with_keys (select (λ r. not (is_key id r)) db.tables.api_keys) db.tables
unfolding delete_api_key
delete_api_key_ok id db h = ground (arith, statement_ok (remove_api_key id) db tt h)

pub delete_api_key_err :
    (id : String) (db : Db) (e : Error)
    → (delete_api_key id db).0 ≡ err e
    → (delete_api_key id db).1.tables ≡ db.tables
unfolding delete_api_key
delete_api_key_err id db e h = ground (arith, statement_cases {0} (remove_api_key id) db)

-- The row with the instant of its last use.
abbrev pub key_used_at : ℕ → ApiKeyRow → ApiKeyRow
key_used_at now r = record r { last_used_at = some now }

-- A stamp is on the row of its key, or on none.
pub touch_api_key_cases :
    (id : String) (now : ℕ) (db : Db)
    → ((touch_api_key id now db).1.tables
        ≡ with_keys (update_where (is_key id) (key_used_at now) db.tables.api_keys) db.tables)
      ⊎ ((touch_api_key id now db).1.tables ≡ db.tables)
unfolding touch_api_key
touch_api_key_cases id now db = ground (
  arith,
  statement_cases {0}
      (λ t. (ok tt, with_keys (update_where (is_key id) (key_used_at now) t.api_keys) t)) db,
)

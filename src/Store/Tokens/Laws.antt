-- ===== src/Store/Tokens/Laws.antt =====
-- What the statements on the feed tokens do (internal/store/feed_tokens.go).
use diyddns.Prelude.{
  ℕ, String, false, true, ◌≡◌, ◌⊎◌, List, [], ◌∷◌, ◌++◌, Option, none, some, find_where,
  find_where-exists, find_where-append_last, exists, exists-stronger, update_where, eq_self, arith,
}
use diyddns.Store.Db.{Error, ok, err, FeedTokenRow, Tables, Db, pure, statement}
use diyddns.Store.Db.Laws.{statement_ok, statement_cases, bind_ok}
use diyddns.Store.Devices.Writes.{found}
use diyddns.Store.Tokens.{
  FeedToken, scan_feed_token, feed_token_row, is_token, has_hash, token_clashes, insert_feed_token,
  create_feed_token, read_feed_token, get_token_by_hash, get_token_by_id, without_token,
  remove_feed_token, delete_feed_token, used_at, touch_feed_token,
}

-- The tables with other feed tokens.
abbrev pub with_tokens : List FeedTokenRow → Tables → Tables
with_tokens rows t = record t { feed_tokens = rows }

inserted :
    (k : FeedToken) (t : Tables)
    → (insert_feed_token k t).0 ≡ ok tt
    → (exists (token_clashes k) t.feed_tokens ≡ false)
      × ((insert_feed_token k t).1 ≡ with_tokens (t.feed_tokens ++ feed_token_row k ∷ []) t)
inserted k t h = ground arith

not_inserted :
    (k : FeedToken) (t : Tables) (e : Error)
    → (insert_feed_token k t).0 ≡ err e
    → (insert_feed_token k t).1 ≡ t
not_inserted k t e h = ground arith

pub create_feed_token_ok :
    (k : FeedToken) (db : Db)
    → (create_feed_token k db).0 ≡ ok tt
    → (exists (token_clashes k) db.tables.feed_tokens ≡ false)
      × ((create_feed_token k db).1.tables
          ≡ with_tokens (db.tables.feed_tokens ++ feed_token_row k ∷ []) db.tables)
unfolding create_feed_token
create_feed_token_ok k db h =
    let done = statement_ok (insert_feed_token k) db tt h in
    ground (arith, inserted k db.tables done.0)

pub create_feed_token_err :
    (k : FeedToken) (db : Db) (e : Error)
    → (create_feed_token k db).0 ≡ err e
    → (create_feed_token k db).1.tables ≡ db.tables
unfolding create_feed_token
create_feed_token_err k db e h =
    ground (arith, statement_cases {0} (insert_feed_token k) db, not_inserted k db.tables e)

-- A token that was created is the one that its hash finds.
pub create_feed_token-found :
    (k : FeedToken) (db : Db)
    → (create_feed_token k db).0 ≡ ok tt
    → find_where (has_hash k.token_hash) (create_feed_token k db).1.tables.feed_tokens
      ≡ some (feed_token_row k)
create_feed_token-found k db h =
    let (free, new) = create_feed_token_ok k db h in
    let none_has =
      exists-stronger (has_hash k.token_hash) (token_clashes k) db.tables.feed_tokens
        (λ r e. ground arith) free in
    let is =
      find_where-append_last (has_hash k.token_hash) db.tables.feed_tokens (feed_token_row k)
        none_has (eq_self k.token_hash) in
    ground arith

found_token : (o : Option FeedTokenRow) (r : FeedTokenRow) → found o ≡ ok r → o ≡ some r
found_token none r h = absurd (ground arith)
found_token (some x) r h = ground arith

-- A lookup changes no table.
pub tables-get_token_by_hash :
    (hash : String) (db : Db) → (get_token_by_hash hash db).1.tables ≡ db.tables
unfolding get_token_by_hash
tables-get_token_by_hash hash db =
    ground (arith, statement_cases {0} (read_feed_token (has_hash hash)) db)

pub get_token_by_hash_ok :
    (hash : String) (db : Db) (tok : FeedToken)
    → (get_token_by_hash hash db).0 ≡ ok tok
    → (row : FeedTokenRow) × (find_where (has_hash hash) db.tables.feed_tokens ≡ some row)
      × (tok ≡ scan_feed_token row)
unfolding get_token_by_hash
get_token_by_hash_ok hash db tok h =
    let (row, e, h1, end) =
      bind_ok (statement (read_feed_token (has_hash hash))) (λ row. pure (scan_feed_token row)) db
        tok h in
    let done = statement_ok (read_feed_token (has_hash hash)) db row e in
    (row, found_token (find_where (has_hash hash) db.tables.feed_tokens) row done.0, ground arith)

-- A token that was read by its id is one of the rows.
pub get_token_by_id_ok :
    (id : String) (db : Db) (tok : FeedToken)
    → (get_token_by_id id db).0 ≡ ok tok
    → exists (is_token id) db.tables.feed_tokens ≡ true
unfolding get_token_by_id
get_token_by_id_ok id db tok h =
    let (row, e, _, _) =
      bind_ok (statement (read_feed_token (is_token id))) (λ row. pure (scan_feed_token row)) db tok
        h in
    let done = statement_ok (read_feed_token (is_token id)) db row e in
    let at = found_token (find_where (is_token id) db.tables.feed_tokens) row done.0 in
    (find_where-exists (is_token id) db.tables.feed_tokens row at).1

pub delete_feed_token_ok :
    (id : String) (db : Db)
    → (delete_feed_token id db).0 ≡ ok tt
    → (delete_feed_token id db).1.tables
      ≡ with_tokens (without_token id db.tables.feed_tokens) db.tables
unfolding delete_feed_token
delete_feed_token_ok id db h = ground (arith, statement_ok (remove_feed_token id) db tt h)

pub delete_feed_token_err :
    (id : String) (db : Db) (e : Error)
    → (delete_feed_token id db).0 ≡ err e
    → (delete_feed_token id db).1.tables ≡ db.tables
unfolding delete_feed_token
delete_feed_token_err id db e h = ground (arith, statement_cases {0} (remove_feed_token id) db)

-- A stamp is on the row of its token, or on none.
pub touch_feed_token_cases :
    (id : String) (now : ℕ) (db : Db)
    → ((touch_feed_token id now db).1.tables
        ≡ with_tokens (update_where (is_token id) (used_at now) db.tables.feed_tokens) db.tables)
      ⊎ ((touch_feed_token id now db).1.tables ≡ db.tables)
unfolding touch_feed_token
touch_feed_token_cases id now db = ground (
  arith,
  statement_cases {0}
      (λ t.
        (ok tt, record t { feed_tokens = update_where (is_token id) (used_at now) t.feed_tokens }))
      db,
)

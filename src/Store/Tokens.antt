-- ===== src/Store/Tokens.antt =====
-- The feed tokens (internal/store/feed_tokens.go).
pub mod Laws
use diyddns.Prelude.{
  ℕ, String, Bool, true, not, ◌||◌, List, [], ◌∷◌, ◌++◌, Option, none, some, str_eq, if◌then◌else◌,
  find_where, update_where, exists, select, map,
}
use diyddns.Store.Db.{
  not_found, conflict, driver, Result, ok, err, FeedTokenRow, Tables, Sql, pure, statement, ◌>>=◌,
  null_if_empty, scan_string, scan_int64,
}
use diyddns.Store.Devices.Writes.{found}
use diyddns.Store.Users.{has_user_id}
use diyddns.Store.Order.{order_with, older}

pub record FeedToken : Type 0 where
  pub id : String
  pub label : String
  pub token_hash : String
  pub created_by : String
  pub created_at : ℕ
  pub last_used_at : ℕ

-- `FeedTokenPrefix`
abbrev pub feed_token_prefix : String
feed_token_prefix = "ddf_"

abbrev pub scan_feed_token : FeedTokenRow → FeedToken
scan_feed_token r = record {
  id = r.id;
  label = r.label;
  token_hash = r.token_hash;
  created_by = scan_string r.created_by;
  created_at = r.created_at;
  last_used_at = scan_int64 r.last_used_at;
}

-- The row that `Create` inserts: never used.
abbrev pub feed_token_row : FeedToken → FeedTokenRow
feed_token_row k = record {
  id = k.id;
  label = k.label;
  token_hash = k.token_hash;
  created_by = null_if_empty k.created_by;
  created_at = k.created_at;
  last_used_at = none;
}

abbrev pub is_token : String → FeedTokenRow → Bool
is_token id r = str_eq r.id id

abbrev pub has_hash : String → FeedTokenRow → Bool
has_hash hash r = str_eq r.token_hash hash

-- PRIMARY KEY (id), UNIQUE (label) and UNIQUE (token_hash)
abbrev pub token_clashes : FeedToken → FeedTokenRow → Bool
token_clashes k r = is_token k.id r || str_eq r.label k.label || has_hash k.token_hash r

-- The foreign key on users, which a NULL satisfies.
abbrev pub minter_exists : Option String → Tables → Bool
minter_exists none t = true
minter_exists (some id) t = exists (has_user_id id) t.users

abbrev pub insert_feed_token : FeedToken → Tables → Result (Unit {0}) × Tables
insert_feed_token k t =
    if exists (token_clashes k) t.feed_tokens
    then (err conflict, t)
    else if minter_exists (null_if_empty k.created_by) t
    then (ok tt, record t { feed_tokens = t.feed_tokens ++ feed_token_row k ∷ [] })
    else (err driver, t)

-- `Create`
unfoldable pub create_feed_token : FeedToken → Sql (Unit {0})
create_feed_token k = statement (insert_feed_token k)

-- SELECT ... WHERE, for one row
abbrev pub read_feed_token : (FeedTokenRow → Bool) → Tables → Result FeedTokenRow × Tables
read_feed_token p t = (found (find_where p t.feed_tokens), t)

-- `GetByHash`
unfoldable pub get_token_by_hash : String → Sql FeedToken
get_token_by_hash hash = do
  row ← statement (read_feed_token (has_hash hash))
  pure (scan_feed_token row)

-- `GetByID`
unfoldable pub get_token_by_id : String → Sql FeedToken
get_token_by_id id = do row ← statement (read_feed_token (is_token id)); pure (scan_feed_token row)

-- `List`
unfoldable pub list_feed_tokens : Sql (List FeedToken)
list_feed_tokens = statement λ t. (
  ok (
      map scan_feed_token
        (order_with (older (λ (r : FeedTokenRow). r.created_at) (λ r. r.id)) t.feed_tokens)),
  t,
)

abbrev pub without_token : String → List FeedTokenRow → List FeedTokenRow
without_token id rows = select (λ r. not (is_token id r)) rows

abbrev pub remove_feed_token : String → Tables → Result (Unit {0}) × Tables
remove_feed_token id t =
    if exists (is_token id) t.feed_tokens
    then (ok tt, record t { feed_tokens = without_token id t.feed_tokens })
    else (err not_found, t)

-- `Delete`
unfoldable pub delete_feed_token : String → Sql (Unit {0})
delete_feed_token id = statement (remove_feed_token id)

abbrev pub used_at : ℕ → FeedTokenRow → FeedTokenRow
used_at now r = record r { last_used_at = some now }

-- `TouchLastUsed`; no affected row is no error.
unfoldable pub touch_feed_token : String → ℕ → Sql (Unit {0})
touch_feed_token id now =
    statement λ t.
      (ok tt, record t { feed_tokens = update_where (is_token id) (used_at now) t.feed_tokens })

-- ===== src/Store/Keys.antt =====
-- The API keys (internal/store/api_keys.go).
pub mod Laws
use diyddns.Prelude.{
  ℕ, String, Bool, not, ◌&&◌, ◌||◌, List, [], ◌∷◌, ◌++◌, Option, none, some, str_eq, if◌then◌else◌,
  find_where, update_where, exists, select, map,
}
use diyddns.Store.Db.{
  not_found, conflict, driver, Result, ok, err, ApiKeyRow, Tables, Sql, pure, statement, ◌>>=◌,
  scan_int64,
}
use diyddns.Store.Devices.Writes.{found}
use diyddns.Store.Users.{has_user_id}
use diyddns.Store.Order.{order_with, older}

pub record ApiKey : Type 0 where
  pub id : String
  pub user_id : String
  pub label : String
  pub key_hash : String
  pub admin_scope : Bool
  pub created_at : ℕ
  pub last_used_at : ℕ

-- `APIKeyPrefix`
abbrev pub api_key_prefix : String
api_key_prefix = "dak_"

abbrev pub scan_api_key : ApiKeyRow → ApiKey
scan_api_key r = record {
  id = r.id;
  user_id = r.user_id;
  label = r.label;
  key_hash = r.key_hash;
  admin_scope = r.admin_scope;
  created_at = r.created_at;
  last_used_at = scan_int64 r.last_used_at;
}

-- The row that `Create` inserts: never used.
abbrev pub api_key_row : ApiKey → ApiKeyRow
api_key_row k = record {
  id = k.id;
  user_id = k.user_id;
  label = k.label;
  key_hash = k.key_hash;
  admin_scope = k.admin_scope;
  created_at = k.created_at;
  last_used_at = none;
}

abbrev pub is_key : String → ApiKeyRow → Bool
is_key id r = str_eq r.id id

abbrev pub has_key_hash : String → ApiKeyRow → Bool
has_key_hash hash r = str_eq r.key_hash hash

-- PRIMARY KEY (id), UNIQUE (key_hash) and UNIQUE (user_id, label)
abbrev pub key_clashes : ApiKey → ApiKeyRow → Bool
key_clashes k r =
    is_key k.id r
    || has_key_hash k.key_hash r
    || str_eq r.user_id k.user_id && str_eq r.label k.label

abbrev pub insert_api_key : ApiKey → Tables → Result (Unit {0}) × Tables
insert_api_key k t =
    if exists (key_clashes k) t.api_keys
    then (err conflict, t)
    else if exists (has_user_id k.user_id) t.users
    then (ok tt, record t { api_keys = t.api_keys ++ api_key_row k ∷ [] })
    else (err driver, t)

-- `Create`
unfoldable pub create_api_key : ApiKey → Sql (Unit {0})
create_api_key k = statement (insert_api_key k)

-- SELECT ... WHERE, for one row
abbrev pub read_api_key : (ApiKeyRow → Bool) → Tables → Result ApiKeyRow × Tables
read_api_key p t = (found (find_where p t.api_keys), t)

-- `GetByHash`
unfoldable pub get_key_by_hash : String → Sql ApiKey
get_key_by_hash hash = do
  row ← statement (read_api_key (has_key_hash hash))
  pure (scan_api_key row)

-- `GetByID`
unfoldable pub get_key_by_id : String → Sql ApiKey
get_key_by_id id = do row ← statement (read_api_key (is_key id)); pure (scan_api_key row)

-- `List`
unfoldable pub list_api_keys : String → Sql (List ApiKey)
list_api_keys user_id = statement λ t. (
  ok (
      map scan_api_key (
        order_with (older (λ (r : ApiKeyRow). r.created_at) (λ r. r.id))
          (select (λ r. str_eq r.user_id user_id) t.api_keys))),
  t,
)

abbrev pub remove_api_key : String → Tables → Result (Unit {0}) × Tables
remove_api_key id t =
    if exists (is_key id) t.api_keys
    then (ok tt, record t { api_keys = select (λ r. not (is_key id r)) t.api_keys })
    else (err not_found, t)

-- `Delete`
unfoldable pub delete_api_key : String → Sql (Unit {0})
delete_api_key id = statement (remove_api_key id)

-- `TouchLastUsed`; no affected row is no error.
unfoldable pub touch_api_key : String → ℕ → Sql (Unit {0})
touch_api_key id now = statement λ t. (
  ok tt,
  record t {
    api_keys = update_where (is_key id) (λ r. record r { last_used_at = some now }) t.api_keys;
  },
)

-- ===== src/Store/Users.antt =====
-- The accounts (internal/store/users.go).
pub mod Laws
pub mod Email
use diyddns.Prelude.{
  ℕ, String, Bool, true, false, not, ◌&&◌, ◌||◌, List, [], ◌∷◌, ◌++◌, Option, none, some, str_eq,
  ltb, if◌then◌else◌, find_where, update_where, exists, select, length, map,
}
use diyddns.Store.Db.{
  not_found, conflict, driver, Result, ok, err, UserRow, DeviceRow, CodeRow, FeedTokenRow,
  ApiKeyRow, Tables, Sql, pure, throw, statement, now_unix, ◌>>=◌, null_if_empty, scan_string,
  scan_int64, is_null,
}
use diyddns.Store.Devices.Writes.{found}
use diyddns.Store.Order.{order_by}

pub record User : Type 0 where
  pub id : String
  pub email : String
  pub role : String
  pub oidc_provider : String
  pub oidc_subject : String
  pub disabled : Bool
  pub created_at : ℕ
  pub updated_at : ℕ
  pub pending_email : String
  pub pending_email_expires_at : ℕ

-- `IsEnabledAdmin`
abbrev pub is_enabled_admin : User → Bool
is_enabled_admin u = str_eq u.role "admin" && not u.disabled

abbrev pub scan_user : UserRow → User
scan_user r = record {
  id = r.id;
  email = r.email;
  role = r.role;
  oidc_provider = scan_string r.oidc_provider;
  oidc_subject = scan_string r.oidc_subject;
  disabled = r.disabled;
  created_at = r.created_at;
  updated_at = r.updated_at;
  pending_email = scan_string r.pending_email;
  pending_email_expires_at = scan_int64 r.pending_email_expires_at;
}

-- column = ?, which NULL never satisfies
abbrev pub holds : String → Option String → Bool
holds s none = false
holds s (some x) = str_eq x s

abbrev pub has_user_id : String → UserRow → Bool
has_user_id id r = str_eq r.id id

abbrev pub has_email : String → UserRow → Bool
has_email email r = str_eq r.email email

-- CHECK (role IN ('admin', 'user'))
abbrev pub checked_role : String → Bool
checked_role role = str_eq role "admin" || str_eq role "user"

-- UNIQUE (oidc_provider, oidc_subject), where NULLs are distinct
abbrev pub has_identity : Option String → Option String → UserRow → Bool
has_identity none subject r = false
has_identity (some p) none r = false
has_identity (some p) (some s) r = holds p r.oidc_provider && holds s r.oidc_subject

-- The row that `Create` inserts: nothing is pending.
abbrev pub user_row : User → UserRow
user_row u = record {
  id = u.id;
  email = u.email;
  role = u.role;
  oidc_provider = null_if_empty u.oidc_provider;
  oidc_subject = null_if_empty u.oidc_subject;
  disabled = u.disabled;
  created_at = u.created_at;
  updated_at = u.updated_at;
  pending_email = none;
  pending_email_token_hash = none;
  pending_email_expires_at = none;
}

-- Whether an inserted row would collide with this one.
abbrev pub clashes : UserRow → UserRow → Bool
clashes new r =
    has_user_id new.id r
    || has_email new.email r
    || has_identity new.oidc_provider new.oidc_subject r

abbrev pub insert_user : User → Tables → Result User × Tables
insert_user u t =
    if not (checked_role u.role)
    then (err driver, t)
    else if exists (clashes (user_row u)) t.users
    then (err conflict, t)
    else (ok u, record t { users = t.users ++ user_row u ∷ [] })

-- `Create`; `new_id` is what `NewID()` returns.
unfoldable pub create_user : String → User → Sql User
create_user new_id u = do
  now ← now_unix
  let id = if str_eq u.id "" then new_id else u.id
  statement (insert_user (record u { id = id; created_at = now; updated_at = now }))

-- codes.device_id, ON DELETE SET NULL
abbrev pub forget_devices : List DeviceRow → CodeRow → CodeRow
forget_devices gone c =
    if exists (λ d. holds d.id c.device_id) gone then record c { device_id = none } else c

-- SELECT ... WHERE, for one row
abbrev pub read_user : (UserRow → Bool) → Tables → Result UserRow × Tables
read_user p t = (found (find_where p t.users), t)

unfoldable pub get_user_by_id : String → Sql User
get_user_by_id id = do row ← statement (read_user (has_user_id id)); pure (scan_user row)

unfoldable pub get_by_email : String → Sql User
get_by_email email = do row ← statement (read_user (has_email email)); pure (scan_user row)

unfoldable pub get_by_oidc : String → String → Sql User
get_by_oidc provider subject = do
  row ← statement (read_user (has_identity (some provider) (some subject)))
  pure (scan_user row)

-- `List`, ordered by email
unfoldable pub list_users : Sql (List User)
list_users = statement (λ t. (ok (map scan_user (order_by (λ (u : UserRow). u.email) t.users)), t))

-- An UPDATE of the rows that pass a test, of which there is at most one; `missing` is the error for
-- no affected row.
abbrev pub update_user :
    (UserRow → Bool) → (UserRow → UserRow) → Tables → Result (Unit {0}) × Tables
update_user p f t =
    if exists p t.users
    then (ok tt, record t { users = update_where p f t.users })
    else (err not_found, t)

-- `SetRole`
abbrev pub write_role : String → String → ℕ → Tables → Result (Unit {0}) × Tables
write_role id role now t =
    if exists (has_user_id id) t.users && not (checked_role role)
    then (err driver, t)
    else update_user (has_user_id id) (λ r. record r { role = role; updated_at = now }) t

unfoldable pub set_role : String → String → Sql (Unit {0})
set_role id role = do now ← now_unix; statement (write_role id role now)

-- `SetDisabled`
unfoldable pub set_user_disabled : String → Bool → Sql (Unit {0})
set_user_disabled id disabled = do
  now ← now_unix
  statement (update_user (has_user_id id) (λ r. record r { disabled = disabled; updated_at = now }))

-- Whether another row than the one of this id passes a test.
abbrev pub another : String → (UserRow → Bool) → List UserRow → Bool
another id p rows = exists (λ r. not (has_user_id id r) && p r) rows

-- An UPDATE by id that may violate a UNIQUE constraint.
abbrev pub update_unique :
    String
    → (UserRow → Bool)
    → (UserRow → UserRow → Bool)
    → (UserRow → UserRow)
    → Tables
    → Result (Unit {0}) × Tables
update_unique id p clash f t =
    if exists (λ r. p r && another id (clash r) t.users) t.users
    then (err conflict, t)
    else update_user p f t

abbrev pub linkable : User → UserRow → Bool
linkable matched r =
    has_user_id matched.id r
    && has_email matched.email r
    && str_eq r.role matched.role
    && is_null r.oidc_subject

-- no affected row is a conflict here
abbrev pub no_row_conflicts : Result (Unit {0}) × Tables → Result (Unit {0}) × Tables
no_row_conflicts (ok u, t) = (ok u, t)
no_row_conflicts (err not_found, t) = (err conflict, t)
no_row_conflicts (err conflict, t) = (err conflict, t)
no_row_conflicts (err driver, t) = (err driver, t)

-- `LinkOIDC`
unfoldable pub link_oidc : User → String → String → String → Sql (Unit {0})
link_oidc matched canonical provider subject = do
  now ← now_unix
  statement λ t. no_row_conflicts (
      update_unique matched.id (linkable matched)
        (λ _ o. has_email canonical o || has_identity (some provider) (some subject) o)
        (λ r. record r {
          email = canonical;
          oidc_provider = some provider;
          oidc_subject = some subject;
          updated_at = now;
        })
        t)

-- feed_tokens.created_by, ON DELETE SET NULL
abbrev pub forget_user : String → FeedTokenRow → FeedTokenRow
forget_user id k = if holds id k.created_by then record k { created_by = none } else k

-- The rows that ON DELETE CASCADE removes with an account, in the tables that are modelled.
abbrev pub cascade_user : String → Tables → Tables
cascade_user id t =
    let owned : List DeviceRow = select (λ (d : DeviceRow). str_eq d.user_id id) t.devices in
    record t {
      users = select (λ r. not (has_user_id id r)) t.users;
      sessions = select (λ s. not (str_eq s.user_id id)) t.sessions;
      devices = select (λ d. not (str_eq d.user_id id)) t.devices;
      history = select (λ h. not (exists (λ d. str_eq d.id h.device_id) owned)) t.history;
      codes = map (forget_devices owned) (select (λ c. not (str_eq c.user_id id)) t.codes);
      recoveries = select (λ g. not (str_eq g.user_id id)) t.recoveries;
      feed_tokens = map (forget_user id) t.feed_tokens;
      api_keys = select (λ k. not (str_eq k.user_id id)) t.api_keys;
    }

abbrev pub remove_user : String → Tables → Result (Unit {0}) × Tables
remove_user id t =
    if exists (has_user_id id) t.users then (ok tt, cascade_user id t) else (err not_found, t)

-- `Delete`
unfoldable pub delete_user : String → Sql (Unit {0})
delete_user id = statement (remove_user id)

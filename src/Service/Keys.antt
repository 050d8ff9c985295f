-- ===== src/Service/Keys.antt =====
-- The API keys (internal/server/service/apikeys.go). The hash of a plaintext and the JSON of the details
-- are parameters; what `RandToken` and `NewID` return are arguments.
pub mod Revoked
pub mod Unscoped
mod Tests
use Prim.Native.String
use diyddns.Prelude.{ℕ, String, false, List, Option, none, some, str_eq, if◌then◌else◌}
use diyddns.Store.Db.{not_found, Result, ok, err, Db, Sql}
use diyddns.Store.Users.{User, get_user_by_id}
use diyddns.Store.Keys.{
  ApiKey, api_key_prefix, create_api_key, get_key_by_hash, get_key_by_id, list_api_keys,
  delete_api_key, touch_api_key,
}
use diyddns.Store.Audit.{entry, log}
use diyddns.Service.Credentials.{
  has_prefix, trim_space, invalid_label, malformed, no_randomness, stored, Answer, good, bad,
  LastTouch, is_stamp_due, mark, evict,
}

-- `APIKeyService`, and the database.
pub record ApiKeyService : Type 0 where
  pub last_touch : LastTouch
  pub db : Db

-- `ListKeys`
unfoldable pub list_keys : String → Sql (List ApiKey)
list_keys user_id = list_api_keys user_id

abbrev pub owned_by_user : String → Result ApiKey × Db → Result ApiKey × Db
owned_by_user user_id (err e, db) = (err e, db)
owned_by_user user_id (ok key, db) =
    if str_eq key.user_id user_id then (ok key, db) else (err not_found, db)

-- `ownedKey`: the key of another user is not found.
unfoldable pub owned_key : String → String → Sql ApiKey
owned_key user_id id db = owned_by_user user_id (get_key_by_id id db)

abbrev pub deleted_key :
    String → String → ApiKeyService → Result (Unit {0}) × Db → Answer (Unit {0}) × ApiKeyService
deleted_key user_id id s (err e, db) = (bad (stored e), record s { db = db })
deleted_key user_id id s (ok _, db) =
    let (_, db') = log (entry user_id "api_key.revoked" "api_key" id) db in
    (good tt, record { last_touch = evict id s.last_touch; db = db' })

abbrev pub revoke_owned :
    String → ApiKeyService → Result ApiKey × Db → Answer (Unit {0}) × ApiKeyService
revoke_owned user_id s (err e, db) = (bad (stored e), record s { db = db })
revoke_owned user_id s (ok key, db) = deleted_key user_id key.id s (delete_api_key key.id db)

-- `RevokeKey`
unfoldable pub revoke_key : String → String → ApiKeyService → Answer (Unit {0}) × ApiKeyService
revoke_key user_id id s = revoke_owned user_id s (owned_key user_id id s.db)

-- `UserForKey`
unfoldable pub user_for_key : ApiKey → Sql User
user_for_key key = get_user_by_id key.user_id

module _ (hash_token json_label : String → String) where
  abbrev pub new_key : String → String → String → String → ℕ → ApiKey
  new_key id plaintext user_id label now = record {
    id = id;
    user_id = user_id;
    label = label;
    key_hash = hash_token plaintext;
    admin_scope = false;
    created_at = now;
    last_used_at = 0;
  }

  abbrev pub minted_key :
      ApiKey
      → String
      → ApiKeyService
      → Result (Unit {0}) × Db
      → Answer (ApiKey × String) × ApiKeyService
  minted_key key plaintext s (err e, db) = (bad (stored e), record s { db = db })
  minted_key key plaintext s (ok _, db) =
      let event = entry key.user_id "api_key.created" "api_key" key.id in
      let (_, db') = log (record event { details_json = json_label key.label }) db in
      (good (key, plaintext), record s { db = db' })

  abbrev pub mint_random_key :
      String
      → String
      → String
      → Option String
      → ApiKeyService
      → Answer (ApiKey × String) × ApiKeyService
  mint_random_key id user_id label none s = (bad no_randomness, s)
  mint_random_key id user_id label (some rnd) s =
      let plaintext = String.◌++◌ api_key_prefix rnd in
      let key = new_key id plaintext user_id label s.db.clock in
      minted_key key plaintext s (create_api_key key s.db)

  -- `MintKey`
  unfoldable pub mint_key :
      String
      → Option String
      → String
      → String
      → ApiKeyService
      → Answer (ApiKey × String) × ApiKeyService
  mint_key id rnd user_id label s =
      let trimmed = trim_space label in
      let run = mint_random_key id user_id trimmed rnd s in
      if str_eq trimmed "" then (bad invalid_label, s) else run

  -- The stamp, whose error is dropped.
  abbrev pub stamp_key : ApiKey → ApiKeyService → Answer ApiKey × ApiKeyService
  stamp_key key s =
      let now = s.db.clock in
      let (_, db) = touch_api_key key.id now s.db in
      (
        good (record key { last_used_at = now }),
        record { last_touch = mark key.id now s.last_touch; db = db },
      )

  abbrev pub resolved_key : ApiKeyService → Result ApiKey × Db → Answer ApiKey × ApiKeyService
  resolved_key s (err e, db) = (bad (stored e), record s { db = db })
  resolved_key s (ok key, db) =
      let found : ApiKeyService = record s { db = db } in
      if is_stamp_due s.last_touch key.id db.clock then stamp_key key found else (good key, found)

  -- `Authenticate`
  unfoldable pub authenticate_key : String → ApiKeyService → Answer ApiKey × ApiKeyService
  authenticate_key plaintext s =
      let run = resolved_key s (get_key_by_hash (hash_token plaintext) s.db) in
      if has_prefix plaintext api_key_prefix then run else (bad malformed, s)

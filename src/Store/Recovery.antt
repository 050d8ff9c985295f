-- ===== src/Store/Recovery.antt =====
-- The registration grants (internal/store/account_recovery.go) and the bootstrap row
-- (internal/store/bootstrap.go).
use diyddns.Prelude.{
  ℕ, String, Bool, not, ◌&&◌, [], ◌∷◌, ◌++◌, Option, none, some, str_eq, ltb, if◌then◌else◌,
  find_where, update_where, exists, select, length,
}
use diyddns.Store.Db.{
  not_found, conflict, driver, Result, ok, err, RecoveryRow, BootstrapRow, Tables, Sql, pure,
  statement, now_unix, ◌>>=◌, ◌>>◌, null_if_empty, null_if_zero, scan_string, scan_int64, is_null,
}
use diyddns.Store.Devices.Writes.{found}
use diyddns.Store.Users.{has_user_id}

pub record RecoveryToken : Type 0 where
  pub token_hash : String
  pub user_id : String
  pub reason : String
  pub expires_at : ℕ
  pub used_at : ℕ

abbrev pub scan_recovery_token : RecoveryRow → RecoveryToken
scan_recovery_token r = record {
  token_hash = r.token_hash;
  user_id = r.user_id;
  reason = r.reason;
  expires_at = r.expires_at;
  used_at = scan_int64 r.used_at;
}

abbrev pub is_token : String → RecoveryRow → Bool
is_token token_hash r = str_eq r.token_hash token_hash

abbrev pub insert_token : RecoveryToken → Tables → Result (Unit {0}) × Tables
insert_token g t =
    if exists (is_token g.token_hash) t.recoveries
    then (err conflict, t)
    else if exists (has_user_id g.user_id) t.users
    then (
      ok tt,
      record t {
        recoveries =
            t.recoveries
            ++ record {
              token_hash = g.token_hash;
              user_id = g.user_id;
              reason = g.reason;
              expires_at = g.expires_at;
              used_at = null_if_zero g.used_at;
            }
              ∷ [];
      },
    )
    else (err driver, t)

-- `Create`
unfoldable pub create_token : RecoveryToken → Sql (Unit {0})
create_token g = statement (insert_token g)

abbrev pub read_token : String → Tables → Result RecoveryRow × Tables
read_token token_hash t = (found (find_where (is_token token_hash) t.recoveries), t)

-- `Get`
unfoldable pub get_token : String → Sql RecoveryToken
get_token token_hash = do row ← statement (read_token token_hash); pure (scan_recovery_token row)

-- WHERE token_hash = ? AND used_at IS NULL AND expires_at > ?
abbrev pub token_redeemable : String → ℕ → RecoveryRow → Bool
token_redeemable token_hash now r =
    is_token token_hash r && is_null r.used_at && ltb now r.expires_at

abbrev pub mark_token_used : String → ℕ → Tables → Result (Unit {0}) × Tables
mark_token_used token_hash now t =
    if exists (token_redeemable token_hash now) t.recoveries
    then (
      ok tt,
      record t {
        recoveries =
            update_where (token_redeemable token_hash now) (λ r. record r { used_at = some now })
              t.recoveries;
      },
    )
    else (err not_found, t)

-- `Consume`
unfoldable pub consume_token : String → ℕ → Sql RecoveryToken
consume_token token_hash now = do statement (mark_token_used token_hash now); get_token token_hash

abbrev pub token_expired : ℕ → RecoveryRow → Bool
token_expired now r = ltb r.expires_at now

-- `PruneExpired`: the number of rows deleted.
unfoldable pub prune_tokens : ℕ → Sql ℕ
prune_tokens now = statement λ t. (
  ok (length (select (token_expired now) t.recoveries)),
  record t { recoveries = select (λ r. not (token_expired now r)) t.recoveries },
)

abbrev pub unused_of : String → RecoveryRow → Bool
unused_of user_id r = str_eq r.user_id user_id && is_null r.used_at

-- `DeleteUnusedByUser`: the number of rows deleted.
unfoldable pub delete_unused_by_user : String → Sql ℕ
delete_unused_by_user user_id = statement λ t. (
  ok (length (select (unused_of user_id) t.recoveries)),
  record t { recoveries = select (λ r. not (unused_of user_id r)) t.recoveries },
)

pub record BootstrapState : Type 0 where
  pub token_hash : String
  pub created_at : ℕ
  pub consumed_at : ℕ

abbrev pub scan_bootstrap : BootstrapRow → BootstrapState
scan_bootstrap r = record {
  token_hash = scan_string r.token_hash;
  created_at = r.created_at;
  consumed_at = scan_int64 r.consumed_at;
}

-- `BootstrapRepo.Get`
unfoldable pub get_bootstrap : Sql BootstrapState
get_bootstrap = do row ← statement (λ t. (found t.bootstrap, t)); pure (scan_bootstrap row)

-- `SetTokenHash`
unfoldable pub set_token_hash : String → Sql (Unit {0})
set_token_hash token_hash = do
  now ← now_unix
  statement λ t. (
    ok tt,
    record t {
      bootstrap =
          some (record {
            token_hash = null_if_empty token_hash;
            created_at = now;
            consumed_at = none;
          });
    },
  )

abbrev pub consumed : ℕ → Option BootstrapRow → Result (Unit {0}) × Option BootstrapRow
consumed now none = (err not_found, none)
consumed now (some r) =
    if is_null r.consumed_at
    then (ok tt, some (record r { token_hash = none; consumed_at = some now }))
    else (err not_found, some r)

-- `BootstrapRepo.Consume`
unfoldable pub consume_bootstrap : Sql (Unit {0})
consume_bootstrap = do
  now ← now_unix
  statement (λ t. let (r, b) = consumed now t.bootstrap in (r, record t { bootstrap = b }))

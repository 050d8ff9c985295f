-- ===== src/Store/Users/Email.antt =====
-- The change of an account's address, staged and confirmed (internal/store/users.go).
use diyddns.Prelude.{
  ℕ, String, Bool, false, not, ◌&&◌, Option, none, some, str_eq, ltb, if◌then◌else◌, update_where,
  select, length,
}
use diyddns.Store.Db.{driver, ok, UserRow, Sql, throw, statement, scan_string, is_null}
use diyddns.Store.Users.{holds, has_user_id, has_email, update_user, update_unique}

-- SET pending_email = NULL, ...
abbrev pub unstaged : UserRow → UserRow
unstaged r = record r {
  pending_email = none;
  pending_email_token_hash = none;
  pending_email_expires_at = none;
}

-- `SetPendingEmail`; the error for an empty address is no sentinel.
unfoldable pub set_pending_email : String → String → String → ℕ → Sql (Unit {0})
set_pending_email user_id new_email token_hash expires_at =
    if str_eq new_email ""
    then throw driver
    else statement (
        update_user (has_user_id user_id) (λ r. record r {
          pending_email = some new_email;
          pending_email_token_hash = some token_hash;
          pending_email_expires_at = some expires_at;
        }))

-- `ClearPendingEmail`
unfoldable pub clear_pending_email : String → Sql (Unit {0})
clear_pending_email user_id = statement (update_user (has_user_id user_id) unstaged)

-- column > ?, which NULL never satisfies
abbrev pub after : ℕ → Option ℕ → Bool
after now none = false
after now (some at) = ltb now at

abbrev pub confirmable : String → String → ℕ → UserRow → Bool
confirmable user_id token_hash now r =
    has_user_id user_id r
    && not (is_null r.pending_email)
    && holds token_hash r.pending_email_token_hash
    && after now r.pending_email_expires_at

-- SET email = pending_email, ...
abbrev pub confirmed : ℕ → UserRow → UserRow
confirmed now r =
    let r' = unstaged r in record r' { email = scan_string r.pending_email; updated_at = now }

-- `ConfirmPendingEmail`
unfoldable pub confirm_pending_email : String → String → ℕ → Sql (Unit {0})
confirm_pending_email user_id token_hash now = statement (
    update_unique user_id (confirmable user_id token_hash now)
      (λ r. has_email (scan_string r.pending_email)) (confirmed now))

-- `SetEmail`
unfoldable pub set_email : String → String → ℕ → Sql (Unit {0})
set_email user_id email now =
    if str_eq email ""
    then throw driver
    else statement (
        update_unique user_id (has_user_id user_id) (λ _. has_email email)
          (λ r. let r' = unstaged r in record r' { email = email; updated_at = now }))

-- column < ?, which NULL never satisfies
abbrev pub before : ℕ → Option ℕ → Bool
before now none = false
before now (some at) = ltb at now

-- `ClearExpiredPendingEmails`: the number of rows cleared.
unfoldable pub clear_expired_pending_emails : ℕ → Sql ℕ
clear_expired_pending_emails now = statement λ t.
    let p : UserRow → Bool = λ r. before now r.pending_email_expires_at in
    (ok (length (select p t.users)), record t { users = update_where p unstaged t.users })

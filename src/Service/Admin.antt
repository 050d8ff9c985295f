-- ===== src/Service/Admin.antt =====
-- The administration of accounts and devices (internal/server/service/admin.go).
pub mod Accounts
pub mod LastAdmin
pub mod Safe
mod Tests
pub mod Writes
pub mod Count
use diyddns.Prelude.{
  ℕ, suc, ◌+◌, String, Bool, true, false, not, ◌&&◌, ◌||◌, List, [], ◌∷◌, Option, none, some,
  str_eq, leb, if◌then◌else◌, select, length, exists,
}
use diyddns.Store.Db.{
  Error, not_found, conflict, driver, Result, ok, err, Db, Sql, pure, ◌>>=◌, ◌>>◌,
}
use diyddns.Store.Users.{
  User, is_enabled_admin, get_user_by_id, list_users, set_role, set_user_disabled, delete_user,
}
use diyddns.Store.Sessions.{delete_sessions_by_user}
use diyddns.Store.Devices.Rows.{Device}
use diyddns.Store.Devices.Writes.{get_by_id}
use diyddns.Store.Devices.Lists.{list_by_user}
use diyddns.Store.Audit.{AuditEntry, entry, log}

-- The sentinels of the guards.
pub data Guard : Type 0 where
  last_admin self_lockout invalid_role owner_missing : Guard

-- What a service answers once every statement has passed: a guard's sentinel, or a value.
pub data Answer (A : Type 0) : Type 0 where
  refused : Guard → Answer A
  done : A → Answer A

pub record UpdateUserParams : Type 0 where
  pub role : Option String
  pub disabled : Option Bool

-- `validRole`
abbrev pub valid_role : String → Bool
valid_role r = str_eq r "admin" || str_eq r "user"

-- The loop of `enabledAdminCount`.
abbrev pub count_admins : String → List User → ℕ × Bool
count_admins target [] = (0, false)
count_admins target (u ∷ us) =
    let (count, is_target) = count_admins target us in
    if is_enabled_admin u then (suc count, is_target || str_eq u.id target) else (count, is_target)

-- `enabledAdminCount`
unfoldable pub enabled_admin_count : String → Sql (ℕ × Bool)
enabled_admin_count target = do users ← list_users; pure (count_admins target users)

-- `guardLastAdmin`
unfoldable pub guard_last_admin : String → Sql (Option Guard)
guard_last_admin target = do
  counted ← enabled_admin_count target
  pure (if counted.1 && leb counted.0 1 then some last_admin else none)

-- The two halves of `guardUpdateUser`.
abbrev pub guard_self : String → String → Sql (Option Guard)
guard_self actor target db =
    let guarded = guard_last_admin target db in
    if str_eq target actor then (ok (some self_lockout), db) else guarded

abbrev pub guard_role : String → String → Option String → Sql (Option Guard)
guard_role actor target none db = (ok none, db)
guard_role actor target (some role) db =
    let guarded = guard_self actor target db in
    if not (valid_role role)
    then (ok (some invalid_role), db)
    else if str_eq role "admin"
    then (ok none, db)
    else guarded

abbrev pub guard_disabled : String → String → Option Bool → Sql (Option Guard)
guard_disabled actor target none db = (ok none, db)
guard_disabled actor target (some false) db = (ok none, db)
guard_disabled actor target (some true) db = guard_self actor target db

abbrev pub otherwise : Sql (Option Guard) → Option Guard → Sql (Option Guard)
otherwise next (some g) db = (ok (some g), db)
otherwise next none db = next db

-- `guardUpdateUser`
unfoldable pub guard_update_user : String → String → UpdateUserParams → Sql (Option Guard)
guard_update_user actor target p = do
  g ← guard_role actor target p.role
  otherwise (guard_disabled actor target p.disabled) g

-- `applyRole`
unfoldable pub apply_role : String → String → Option String → Sql (Unit {0})
apply_role actor target none = pure tt
apply_role actor target (some role) = do
  set_role target role
  log (entry actor "user.role_change" "user" target)

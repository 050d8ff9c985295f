-- ===== src/Service/Admin/Accounts.antt =====
-- The administrator's writes of accounts (internal/server/service/admin.go).
use diyddns.Prelude.{
  String, Bool, true, false, List, [], ◌∷◌, Option, none, some, str_eq, ltb, if◌then◌else◌,
}
use diyddns.Store.Db.{ok, Db}
use diyddns.Store.Users.{User, get_user_by_id, set_user_disabled, delete_user}
use diyddns.Store.Sessions.{delete_sessions_by_user}
use diyddns.Store.Devices.Rows.{Device}
use diyddns.Store.Devices.Lists.{list_by_user}
use diyddns.Store.Audit.{entry, log}
use diyddns.Service.Membership.{Membership, in_feed, Fires, lift, give, ◌>>=◌, emit_membership}
use diyddns.Service.Admin.{
  Guard, self_lockout, Answer, refused, done, UpdateUserParams, guard_last_admin, guard_update_user,
  apply_role,
}

-- A guard's sentinel ends the call.
abbrev pub unless : {A : Type 0} → Option Guard → Fires A → Fires (Answer A)
unless (some g) m = give (refused g)
unless none m = m >>= λ a. give (done a)

module _ (notify : Membership → Db → Db) where
  -- The loop over the devices, with the owner before and after.
  abbrev pub emit_all : (Device → Bool) → (Device → Bool) → List Device → Fires (Unit {0})
  emit_all before after [] = give tt
  emit_all before after (d ∷ ds) =
      emit_membership notify d (before d) (after d) >>= λ _. emit_all before after ds

  -- Disabling revokes the sessions, and audits that if there were any.
  abbrev pub revoke_sessions : String → String → Bool → Fires (Unit {0})
  revoke_sessions actor target false = give tt
  revoke_sessions actor target true = do
    n ← lift (delete_sessions_by_user target)
    if ltb 0 n then lift (log (entry actor "session.revoked" "user" target)) else give tt

  -- `applyDisabled`
  unfoldable pub apply_disabled : String → String → User → Option Bool → Fires (Unit {0})
  apply_disabled actor target u none = give tt
  apply_disabled actor target u (some disabled) = do
    devices ← lift (list_by_user target)
    _ ← lift (set_user_disabled target disabled)
    _ ← revoke_sessions actor target disabled
    let event = if disabled then "user.disabled" else "user.enabled"
    _ ← lift (log (entry actor event "user" target))
    let after = record u { disabled = disabled }
    emit_all (λ d. in_feed d u) (λ d. in_feed d after) devices

  -- `UpdateUser`
  unfoldable pub update_user_account : String → String → UpdateUserParams → Fires (Answer User)
  update_user_account actor target p = do
    u ← lift (get_user_by_id target)
    g ← lift (guard_update_user actor target p)
    unless g (do
      _ ← lift (apply_role actor target p.role)
      _ ← apply_disabled actor target u p.disabled
      lift (get_user_by_id target))

  -- `DeleteUser`, once the actor is not the target.
  abbrev pub delete_other : String → String → Fires (Answer (Unit {0}))
  delete_other actor target = do
    g ← lift (guard_last_admin target)
    unless g (do
      u ← lift (get_user_by_id target)
      devices ← lift (list_by_user target)
      _ ← lift (delete_user target)
      _ ← lift (log (entry actor "user.deleted" "user" target))
      emit_all (λ d. in_feed d u) (λ _. false) devices)

  unfoldable pub delete_user_account : String → String → Fires (Answer (Unit {0}))
  delete_user_account actor target db =
      let run = delete_other actor target db in
      if str_eq target actor
      then record { result = ok (refused self_lockout); events = []; end = db }
      else run

-- ===== src/Service/Admin/Writes.antt =====
-- What the writes of an account leave of the administrators (internal/server/service/admin.go).
use diyddns.Prelude.{
  ℕ, ◌&&◌, String, Bool, true, false, not, ◌≡◌, refl, sym, ap, subst, List, [], ◌∷◌, Option, none,
  some, ltb, if◌then◌else◌, if-both, exists, exists-update_where, exists-select,
}
use diyddns.Store.Db.{Result, UserRow, Tables, Db, Sql, now_unix}
use diyddns.Store.Db.Moves.{Moves, Moves-statement, Moves-bind}
use diyddns.Store.Users.{
  User, has_user_id, get_user_by_id, set_role, set_user_disabled, delete_user, remove_user,
  update_user, write_role, checked_role,
}
use diyddns.Store.Users.Laws.{tables-get_user_by_id}
use diyddns.Store.Sessions.{delete_sessions_by_user}
use diyddns.Store.Devices.Rows.{Device}
use diyddns.Store.Devices.Lists.{list_by_user}
use diyddns.Store.Audit.{AuditEntry, entry, log}
use diyddns.Store.Audit.Laws.{log_frame}
use diyddns.Service.Membership.{Membership, in_feed, Fires, lift, give, ◌>>=◌, emit_membership}
use diyddns.Service.Membership.Moves.{MovesFired, MovesFired-bind, MovesFired-emit}
use diyddns.Service.Admin.{apply_role}
use diyddns.Service.Admin.Accounts.{emit_all, revoke_sessions, apply_disabled}

-- The notifier writes no account.
abbrev pub SparesUsers : (Membership → Db → Db) → Type 0
SparesUsers notify = (e : Membership) (db : Db) → (notify e db).tables.users ≡ db.tables.users

module _ (target : String) (p : UserRow → Bool) where
  -- Some row passes the test, and goes on doing so.
  abbrev pub Some : Tables → Type 0
  Some t = exists p t.users ≡ true

  abbrev Kept : Tables → Tables → Type 0
  Kept t t' = Some t → Some t'

  abbrev kept_same : (t : Tables) → Kept t t
  kept_same t h = h

  abbrev kept_then : (a b c : Tables) → Kept a b → Kept b c → Kept a c
  kept_then a b c f g h = g (f h)

  abbrev pub Keeps : {A : Type 0} → Sql A → Type 0
  Keeps m = Moves Kept kept_same kept_then m

  abbrev pub KeepsFired : {A : Type 0} → Fires A → Type 0
  KeepsFired m = MovesFired Kept kept_same kept_then m

  same_users : (t t' : Tables) → t'.users ≡ t.users → Kept t t'
  same_users t t' e h = subst (λ rows. exists p rows ≡ true) (sym e) h

  -- A write of the target's row under which it goes on passing the test.
  abbrev pub Harmless : (UserRow → UserRow) → Type 0
  Harmless f = (r : UserRow) → has_user_id target r ≡ true → p r ≡ true → p (f r) ≡ true

  updated-Kept :
      (f : UserRow → UserRow)
      → Harmless f
      → (t : Tables) → Kept t (update_user (has_user_id target) f t).1
  updated-Kept f h t e =
      let P : Result (Unit {0}) × Tables → Type 0 = λ r. Some r.1 in
      if-both P (exists (has_user_id target) t.users) _ _
        (exists-update_where p (has_user_id target) f t.users h e) e

  abbrev pub HarmlessRole : String → Type 0
  HarmlessRole role = (now : ℕ) → Harmless (λ r. record r { role = role; updated_at = now })

  abbrev pub HarmlessDisabled : Bool → Type 0
  HarmlessDisabled disabled =
      (now : ℕ) → Harmless (λ r. record r { disabled = disabled; updated_at = now })

  set_role-Keeps : (role : String) → HarmlessRole role → Keeps (set_role target role)
  unfolding set_role now_unix
  set_role-Keeps role h db =
      Moves-statement Kept kept_same kept_then (write_role target role db.clock) written db
    where
      written : (t : Tables) → Kept t (write_role target role db.clock t).1
      written t e =
          let P : Result (Unit {0}) × Tables → Type 0 = λ r. Some r.1 in
          if-both P (exists (has_user_id target) t.users && not (checked_role role)) _ _ e
            (updated-Kept (λ r. record r { role = role; updated_at = db.clock }) (h db.clock) t e)

  set_user_disabled-Keeps :
      (disabled : Bool) → HarmlessDisabled disabled → Keeps (set_user_disabled target disabled)
  unfolding set_user_disabled now_unix
  set_user_disabled-Keeps disabled h db =
      Moves-statement Kept kept_same kept_then
        (update_user (has_user_id target)
          (λ r. record r { disabled = disabled; updated_at = db.clock }))
        (updated-Kept (λ r. record r { disabled = disabled; updated_at = db.clock }) (h db.clock))
        db

  log-Keeps : (e : AuditEntry) → Keeps (log e)
  log-Keeps e db =
      let (_, (_, _, same)) = log_frame e db in
      same_users db.tables (log e db).1.tables (ap (λ (t : Tables). t.users) same)

  sessions-Keeps : (user_id : String) → Keeps (delete_sessions_by_user user_id)
  unfolding delete_sessions_by_user
  sessions-Keeps user_id = Moves-statement Kept kept_same kept_then _ (λ t h. h)

  pub list_by_user-Keeps : (user_id : String) → Keeps (list_by_user user_id)
  unfolding list_by_user
  list_by_user-Keeps user_id = Moves-statement Kept kept_same kept_then _ (λ t h. h)

  pub get_user_by_id-Keeps : (id : String) → Keeps (get_user_by_id id)
  get_user_by_id-Keeps id db =
      same_users db.tables (get_user_by_id id db).1.tables
        (ap (λ (t : Tables). t.users) (tables-get_user_by_id id db))

  pub apply_role-Keeps :
      (actor : String) (role : Option String)
      → ((r : String) → role ≡ some r → HarmlessRole r)
      → Keeps (apply_role actor target role)
  unfolding apply_role
  apply_role-Keeps actor none h = λ db e. e
  apply_role-Keeps actor (some role) h =
      Moves-bind Kept kept_same kept_then (set_role target role)
        (λ _. log (entry actor "user.role_change" "user" target))
        (set_role-Keeps role (h role refl))
        (λ _. log-Keeps (entry actor "user.role_change" "user" target))

  module _ (notify : Membership → Db → Db) (spares : SparesUsers notify) where
    abbrev pub bind_Keeps :
        {A B : Type 0} (m : Fires A) (f : A → Fires B)
        → KeepsFired m
        → ((a : A) → KeepsFired (f a))
        → KeepsFired (m >>= f)
    bind_Keeps m f = MovesFired-bind Kept kept_same kept_then m f

    emit_all-Keeps :
        (before after : Device → Bool) (ds : List Device)
        → KeepsFired (emit_all notify before after ds)
    emit_all-Keeps before after [] = λ db e. e
    emit_all-Keeps before after (d ∷ ds) =
        bind_Keeps (emit_membership notify d (before d) (after d))
          (λ _. emit_all notify before after ds)
          (MovesFired-emit Kept kept_same kept_then notify
            (λ e db. same_users db.tables (notify e db).tables (spares e db)) d (before d)
            (after d))
          (λ _. emit_all-Keeps before after ds)

    revoke_sessions-Keeps :
        (actor : String) (disabled : Bool)
        → KeepsFired (revoke_sessions notify actor target disabled)
    revoke_sessions-Keeps actor false = λ db e. e
    revoke_sessions-Keeps actor true =
        bind_Keeps (lift (delete_sessions_by_user target))
          (λ n.
            if ltb 0 n then lift (log (entry actor "session.revoked" "user" target)) else give tt)
          (sessions-Keeps target)
          (λ n.
            if-both KeepsFired (ltb 0 n) _ _
              (log-Keeps (entry actor "session.revoked" "user" target)) (λ db e. e))

    pub apply_disabled-Keeps :
        (actor : String) (u : User) (disabled : Option Bool)
        → ((b : Bool) → disabled ≡ some b → HarmlessDisabled b)
        → KeepsFired (apply_disabled notify actor target u disabled)
    unfolding apply_disabled
    apply_disabled-Keeps actor u none h = λ db e. e
    apply_disabled-Keeps actor u (some disabled) h =
        bind_Keeps (lift (list_by_user target)) _ (list_by_user-Keeps target) λ devices.
          bind_Keeps (lift (set_user_disabled target disabled)) _
            (set_user_disabled-Keeps disabled (h disabled refl))
            λ _.
              bind_Keeps (revoke_sessions notify actor target disabled) _
                (revoke_sessions-Keeps actor disabled)
                λ _.
                  bind_Keeps (lift (log (entry actor event "user" target))) _
                    (log-Keeps (entry actor event "user" target))
                    λ _.
                      emit_all-Keeps (λ d. in_feed d u)
                        (λ d. in_feed d (record u { disabled = disabled })) devices
      where
        event : String
        event = if disabled then "user.disabled" else "user.enabled"

    -- Deleting an account keeps every row but its own.
    pub deleted-Keeps :
        (actor : String) (u : User) (devices : List Device)
        → ((r : UserRow) → p r ≡ true → not (has_user_id target r) ≡ true)
        → KeepsFired (
            lift (delete_user target) >>= λ _.
            lift (log (entry actor "user.deleted" "user" target)) >>= λ _.
            emit_all notify (λ d. in_feed d u) (λ _. false) devices)
    unfolding delete_user
    deleted-Keeps actor u devices h =
        bind_Keeps (lift (delete_user target)) _
          (Moves-statement Kept kept_same kept_then (remove_user target) gone)
          λ _.
            bind_Keeps (lift (log (entry actor "user.deleted" "user" target))) _
              (log-Keeps (entry actor "user.deleted" "user" target))
              λ _. emit_all-Keeps (λ d. in_feed d u) (λ _. false) devices
      where
        gone : (t : Tables) → Kept t (remove_user target t).1
        gone t e =
            let P : Result (Unit {0}) × Tables → Type 0 = λ r. Some r.1 in
            if-both P (exists (has_user_id target) t.users) _ _
              (exists-select p (λ r. not (has_user_id target r)) t.users h e) e

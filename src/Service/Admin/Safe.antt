-- ===== src/Service/Admin/Safe.antt =====
-- No call of an administrator leaves the server without an enabled administrator
-- (internal/server/service/admin.go).
use diyddns.Prelude.{
  ◌≤◌, String, Bool, true, false, ◌≡◌, refl, sym, ◌∙◌, subst, Option, none, some, str_eq, if-both,
  exists, exists-weaken, inl, inr, arith,
}
use diyddns.Store.Db.{Result, ok, err, UserRow, Tables, Db}
use diyddns.Store.Users.{User, has_user_id, get_user_by_id, delete_user}
use diyddns.Store.Users.Laws.{tables-get_user_by_id}
use diyddns.Store.Devices.Lists.{list_by_user}
use diyddns.Store.Audit.{entry, log}
use diyddns.Service.Membership.{Membership, in_feed, Fired, Fires, lift, give, proceed, ◌>>=◌}
use diyddns.Service.Admin.{
  Guard, Answer, done, UpdateUserParams, guard_last_admin, guard_update_user, apply_role,
}
use diyddns.Service.Admin.Accounts.{
  unless, emit_all, apply_disabled, update_user_account, delete_other, delete_user_account,
}
use diyddns.Service.Admin.Count.{is_admin, is_other, tally, guard_last_admin_ok}
use diyddns.Service.Admin.Writes.{
  SparesUsers, KeepsFired, HarmlessRole, HarmlessDisabled, bind_Keeps, apply_role-Keeps,
  apply_disabled-Keeps, deleted-Keeps, get_user_by_id-Keeps, list_by_user-Keeps,
}
use diyddns.Service.Admin.LastAdmin.{
  other-Harmless, guard_update_user_ok, tables-guard_update_user, tables-guard_last_admin,
}

-- An enabled administrator is there.
abbrev pub HasAdmin : Tables → Type 0
HasAdmin t = exists is_admin t.users ≡ true

module _ (notify : Membership → Db → Db) (spares : SparesUsers notify) (actor target : String) where
  other_is_one : (t : Tables) → exists (is_other target) t.users ≡ true → HasAdmin t
  other_is_one t h = exists-weaken (is_other target) is_admin t.users (λ r k. ground arith) h

  -- The writes of `UpdateUser`, once the guards have let it pass.
  abbrev writes : User → UpdateUserParams → Fires User
  writes u p = lift (apply_role actor target p.role) >>= λ _.
      apply_disabled notify actor target u p.disabled >>= λ _. lift (get_user_by_id target)

  writes-Keeps :
      (test : UserRow → Bool) (u : User) (p : UpdateUserParams)
      → ((r : String) → p.role ≡ some r → HarmlessRole target test r)
      → ((b : Bool) → p.disabled ≡ some b → HarmlessDisabled target test b)
      → KeepsFired target test (unless none (writes u p))
  writes-Keeps test u p roles disables =
      bind_Keeps target test notify spares (writes u p) (λ a. give (done a))
        (bind_Keeps target test notify spares (lift (apply_role actor target p.role)) _
          (apply_role-Keeps target test actor p.role roles)
          λ _.
            bind_Keeps target test notify spares (apply_disabled notify actor target u p.disabled) _
              (apply_disabled-Keeps target test notify spares actor u p.disabled disables)
              λ _. get_user_by_id-Keeps target test target)
        (λ a db h. h)

  -- What is left once the guard has answered, in a state with the tables of the first one.
  guarded-HasAdmin :
      (u : User) (p : UpdateUserParams) (db mid : Db) (g : Result (Option Guard)) (end : Db)
      → (guard_update_user actor target p mid).0 ≡ g
      → end.tables ≡ mid.tables
      → mid.tables ≡ db.tables
      → tally (has_user_id target) db.tables.users ≤ 1
      → HasAdmin db.tables
      → HasAdmin (proceed g (λ g. unless g (writes u p)) end).end.tables
  guarded-HasAdmin u p db mid (err e) end h same same' single admin =
      subst HasAdmin (sym (same ∙ same')) admin
  guarded-HasAdmin u p db mid (ok (some g)) end h same same' single admin =
      subst HasAdmin (sym (same ∙ same')) admin
  guarded-HasAdmin u p db mid (ok none) end h same same' single admin =
      let here : HasAdmin mid.tables = subst HasAdmin (sym same') admin in
      let keyed : tally (has_user_id target) mid.tables.users ≤ 1 =
        subst (λ (t : Tables). tally (has_user_id target) t.users ≤ 1) (sym same') single in
      elim (guard_update_user_ok actor target p mid keyed here h) [
        | inl (roles, disables) ↦
            writes-Keeps is_admin u p roles disables end (subst HasAdmin (sym same) here)
        | inr other ↦ other_is_one (unless none (writes u p) end).end.tables (
            writes-Keeps (is_other target) u p
              (λ r _ now. other-Harmless target (λ x. record x { role = r; updated_at = now }))
              (λ b _ now. other-Harmless target (λ x. record x { disabled = b; updated_at = now }))
              end
              (subst (λ (t : Tables). exists (is_other target) t.users ≡ true) (sym same) other))
      ]

  -- Where an enabled administrator is there, an update of an account leaves one, whatever it asks for,
  -- whichever statement fails, and whoever asks; the target's id is the key of at most one row, and
  -- the notifier writes no account.
  pub update_user_account-HasAdmin :
      (p : UpdateUserParams) (db : Db)
      → tally (has_user_id target) db.tables.users ≤ 1
      → HasAdmin db.tables
      → HasAdmin (update_user_account notify actor target p db).end.tables
  unfolding update_user_account
  update_user_account-HasAdmin p db single admin = read (get_user_by_id target db).0
    where
      mid : Db
      mid = (get_user_by_id target db).1

      same : mid.tables ≡ db.tables
      same = tables-get_user_by_id target db

      rest : User → Fires (Answer User)
      rest u = lift (guard_update_user actor target p) >>= λ g. unless g (writes u p)

      read : (r : Result User) → HasAdmin (proceed r rest mid).end.tables
      read (err e) = subst HasAdmin (sym same) admin
      read (ok u) =
          let run = guard_update_user actor target p mid in
          guarded-HasAdmin u p db mid run.0 run.1 refl (tables-guard_update_user actor target p mid)
            same single admin

  -- The rest of `DeleteUser`, once the guard has let it pass.
  abbrev removal : Fires (Unit {0})
  removal = lift (get_user_by_id target) >>= λ u. lift (list_by_user target) >>= λ devices.
      lift (delete_user target) >>= λ _.
      lift (log (entry actor "user.deleted" "user" target)) >>= λ _.
      emit_all notify (λ d. in_feed d u) (λ _. false) devices

  removal-Keeps : KeepsFired target (is_other target) (unless none removal)
  removal-Keeps =
      bind_Keeps target (is_other target) notify spares removal (λ a. give (done a))
        (bind_Keeps target (is_other target) notify spares (lift (get_user_by_id target)) _
          (get_user_by_id-Keeps target (is_other target) target)
          λ u.
            bind_Keeps target (is_other target) notify spares (lift (list_by_user target)) _
              (list_by_user-Keeps target (is_other target) target)
              λ devices.
                deleted-Keeps target (is_other target) notify spares actor u devices
                  (λ r h. ground arith))
        (λ a db h. h)

  delete_other-HasAdmin :
      (db : Db)
      → tally (has_user_id target) db.tables.users ≤ 1
      → HasAdmin db.tables
      → HasAdmin (delete_other notify actor target db).end.tables
  delete_other-HasAdmin db single admin = guarded (guard_last_admin target db).0 refl
    where
      mid : Db
      mid = (guard_last_admin target db).1

      same : mid.tables ≡ db.tables
      same = tables-guard_last_admin target db

      guarded :
          (g : Result (Option Guard))
          → (guard_last_admin target db).0 ≡ g
          → HasAdmin (proceed g (λ g. unless g removal) mid).end.tables
      guarded (err e) h = subst HasAdmin (sym same) admin
      guarded (ok (some g)) h = subst HasAdmin (sym same) admin
      guarded (ok none) h = other_is_one (unless none removal mid).end.tables (
          removal-Keeps mid (
            subst (λ (t : Tables). exists (is_other target) t.users ≡ true) (sym same)
              (guard_last_admin_ok target db single admin h)))

  -- The same of the deletion of an account.
  pub delete_user_account-HasAdmin :
      (db : Db)
      → tally (has_user_id target) db.tables.users ≤ 1
      → HasAdmin db.tables
      → HasAdmin (delete_user_account notify actor target db).end.tables
  unfolding delete_user_account
  delete_user_account-HasAdmin db single admin =
      let P : Fired (Answer (Unit {0})) → Type 0 = λ r. HasAdmin r.end.tables in
      if-both P (str_eq target actor) _ _ admin (delete_other-HasAdmin db single admin)

-- ===== src/Service/Admin/LastAdmin.antt =====
-- An enabled administrator is always left (internal/server/service/admin.go).
use diyddns.Prelude.{
  ◌≤◌, String, Bool, true, false, ◌≡◌, ◌⊎◌, inl, inr, refl, sym, ◌∙◌, subst, List, Option, none,
  some, str_eq, exists, Bool-cases, map, arith,
}
use diyddns.Store.Db.{Result, ok, err, UserRow, Tables, Db, continue}
use diyddns.Store.Db.Laws.{bind_ok, tables-statement}
use diyddns.Store.Order.{order_by}
use diyddns.Store.Users.{User, scan_user, has_user_id, list_users}
use diyddns.Service.Admin.{
  Guard, UpdateUserParams, enabled_admin_count, guard_last_admin, guard_self, guard_role,
  guard_disabled, otherwise, guard_update_user,
}
use diyddns.Service.Admin.Count.{is_admin, is_other, tally, guard_last_admin_ok}
use diyddns.Service.Admin.Writes.{Harmless, HarmlessRole, HarmlessDisabled}

pub tables-guard_last_admin :
    (target : String) (db : Db) → (guard_last_admin target db).1.tables ≡ db.tables
unfolding guard_last_admin enabled_admin_count list_users
tables-guard_last_admin target db =
    let read : Tables → Result (List User) =
      λ t. ok (map scan_user (order_by (λ (u : UserRow). u.email) t.users)) in
    ground (arith, tables-statement read db)

-- A write of the target's row does not touch the others.
pub other-Harmless : (target : String) (f : UserRow → UserRow) → Harmless target (is_other target) f
other-Harmless target f x hx ho = absurd (ground arith)

module _ (actor target : String) where
  tables-guard_self : (db : Db) → (guard_self actor target db).1.tables ≡ db.tables
  tables-guard_self db = ground (arith, tables-guard_last_admin target db)

  tables-guard_role :
      (role : Option String) (db : Db) → (guard_role actor target role db).1.tables ≡ db.tables
  tables-guard_role none db = refl
  tables-guard_role (some role) db = ground (arith, tables-guard_self db)

  tables-guard_disabled :
      (disabled : Option Bool) (db : Db)
      → (guard_disabled actor target disabled db).1.tables ≡ db.tables
  tables-guard_disabled none db = refl
  tables-guard_disabled (some false) db = refl
  tables-guard_disabled (some true) db = tables-guard_self db

  -- Whether another enabled administrator is there.
  abbrev Other : Tables → Type 0
  Other t = exists (is_other target) t.users ≡ true

  module _ (db : Db) (single : tally (has_user_id target) db.tables.users ≤ 1)
      (some_admin : exists is_admin db.tables.users ≡ true) where
    guard_self_ok : (guard_self actor target db).0 ≡ ok none → Other db.tables
    guard_self_ok h =
        let passed : (guard_last_admin target db).0 ≡ ok none = ground arith in
        guard_last_admin_ok target db single some_admin passed

    guard_role_ok :
        (role : Option String)
        → (guard_role actor target role db).0 ≡ ok none
        → ((r : String) → role ≡ some r → HarmlessRole target is_admin r) ⊎ Other db.tables
    guard_role_ok none h = inl (λ r e. absurd (ground arith))
    guard_role_ok (some role) h = elim (Bool-cases (str_eq role "admin")) [
      | inl e ↦ inl (λ r is now x hx ha.
          let same : role ≡ r = ground arith in
          let admin : str_eq r "admin" ≡ true = subst (λ s. str_eq s "admin" ≡ true) same e in
          ground arith)
      | inr e ↦
          let passed : (guard_self actor target db).0 ≡ ok none = ground arith in
          inr (guard_self_ok passed)
    ]

    guard_disabled_ok :
        (disabled : Option Bool)
        → (guard_disabled actor target disabled db).0 ≡ ok none
        → ((b : Bool) → disabled ≡ some b → HarmlessDisabled target is_admin b) ⊎ Other db.tables
    guard_disabled_ok none h = inl (λ r e. absurd (ground arith))
    guard_disabled_ok (some false) h = inl (λ b is now x hx ha. ground arith)
    guard_disabled_ok (some true) h = inr (guard_self_ok h)

  -- What a guard that lets the update pass says: neither write takes the role of an enabled
  -- administrator away, or another one is there.
  pub guard_update_user_ok :
      (p : UpdateUserParams) (db : Db)
      → tally (has_user_id target) db.tables.users ≤ 1
      → exists is_admin db.tables.users ≡ true
      → (guard_update_user actor target p db).0 ≡ ok none
      → ((r : String) → p.role ≡ some r → HarmlessRole target is_admin r)
          × ((b : Bool) → p.disabled ≡ some b → HarmlessDisabled target is_admin b)
        ⊎ Other db.tables
  unfolding guard_update_user
  guard_update_user_ok p db single some_admin h =
      let (g, first, second, _) =
        bind_ok (guard_role actor target p.role)
          (otherwise (guard_disabled actor target p.disabled)) db none h in
      both g first second
    where
      mid : Db
      mid = (guard_role actor target p.role db).1

      same : mid.tables ≡ db.tables
      same = tables-guard_role p.role db

      both :
          (g : Option Guard)
          → (guard_role actor target p.role db).0 ≡ ok g
          → (otherwise (guard_disabled actor target p.disabled) g mid).0 ≡ ok none
          → ((r : String) → p.role ≡ some r → HarmlessRole target is_admin r)
              × ((b : Bool) → p.disabled ≡ some b → HarmlessDisabled target is_admin b)
            ⊎ Other db.tables
      both (some g) first second = absurd (ground arith)
      both none first second = elim (guard_role_ok db single some_admin p.role first) [
        | inr other ↦ inr other
        | inl roles ↦
            elim (guard_disabled_ok mid
              (subst (λ (t : Tables). tally (has_user_id target) t.users ≤ 1) (sym same) single)
              (subst (λ (t : Tables). exists is_admin t.users ≡ true) (sym same) some_admin)
              p.disabled second) [
                | inl disables ↦ inl (roles, disables)
                | inr other ↦ inr (subst Other same other)
              ]
      ]

  pub tables-guard_update_user :
      (p : UpdateUserParams) (db : Db) → (guard_update_user actor target p db).1.tables ≡ db.tables
  unfolding guard_update_user
  tables-guard_update_user p db = ends (guard_role actor target p.role db).0
    where
      mid : Db
      mid = (guard_role actor target p.role db).1

      ends :
          (r : Result (Option Guard))
          → (continue r (otherwise (guard_disabled actor target p.disabled)) mid).1.tables
            ≡ db.tables
      ends (err e) = tables-guard_role p.role db
      ends (ok (some g)) = tables-guard_role p.role db
      ends (ok none) = tables-guard_disabled p.disabled mid ∙ tables-guard_role p.role db

-- ===== src/Service/Admin/Count.antt =====
-- What the count of the enabled administrators says of the table (internal/server/service/admin.go).
use diyddns.Prelude.{
  ℕ, ◌+◌, ◌≤◌, ◌<◌, String, Bool, true, false, not, ◌&&◌, ◌≡◌, refl, sym, ◌∙◌, List, [], ◌∷◌, none,
  str_eq, leb, if◌then◌else◌, select, length, exists, map, Bool-cases, inl, inr, leb→lt, some, ap,
  subst, arith,
}
use diyddns.Store.Db.{Result, ok, UserRow, Tables, Db, pure}
use diyddns.Store.Db.Laws.{ok-injective, bind_ok, statement_ok}
use diyddns.Store.Order.{order_by}
use diyddns.Store.Order.Laws.{length-select_order}
use diyddns.Store.Users.{User, scan_user, has_user_id, list_users}
use diyddns.Service.Admin.{last_admin, count_admins, enabled_admin_count, guard_last_admin}

abbrev pub is_admin : UserRow → Bool
is_admin r = str_eq r.role "admin" && not r.disabled

-- An enabled administrator other than the target.
abbrev pub is_other : String → UserRow → Bool
is_other target r = is_admin r && not (has_user_id target r)

abbrev is_self : String → UserRow → Bool
is_self target r = is_admin r && has_user_id target r

-- How many rows pass a test.
abbrev pub tally : {A : Type 0} → (A → Bool) → List A → ℕ
tally p xs = length (select p xs)

counted :
    (target : String) (rows : List UserRow)
    → let (count, is_target) = count_admins target (map scan_user rows) in
      (count ≡ tally (is_other target) rows + tally (is_self target) rows)
      × (is_target ≡ exists (is_self target) rows)
counted target [] = (refl, refl)
counted target (r ∷ rows) = ground (arith, counted target rows)

pub exists-tally : {A : Type 0} (p : A → Bool) (xs : List A) → exists p xs ≡ true → 0 < tally p xs
exists-tally p [] h = absurd (ground arith)
exists-tally p (x ∷ xs) h = ground (arith, exists-tally p xs)

pub tally-exists : {A : Type 0} (p : A → Bool) (xs : List A) → 0 < tally p xs → exists p xs ≡ true
tally-exists p [] h = absurd (ground arith)
tally-exists p (x ∷ xs) h = ground (arith, tally-exists p xs)

self_le :
    (target : String) (rows : List UserRow)
    → tally (is_self target) rows ≤ tally (has_user_id target) rows
self_le target [] = omega arith
self_le target (r ∷ rows) = ground (arith, self_le target rows)

admins_split :
    (target : String) (rows : List UserRow)
    → tally is_admin rows ≡ tally (is_other target) rows + tally (is_self target) rows
admins_split target [] = refl
admins_split target (r ∷ rows) = ground (arith, admins_split target rows)

tally-none : {A : Type 0} (p : A → Bool) (xs : List A) → exists p xs ≡ false → tally p xs ≡ 0
tally-none p [] h = refl
tally-none p (x ∷ xs) h = ground (arith, tally-none p xs)

-- Of several administrators, or of some that the target is none of, one is another.
others_left :
    (target : String) (rows : List UserRow)
    → tally (has_user_id target) rows ≤ 1
    → 0 < tally is_admin rows
    → let (count, is_target) = count_admins target (map scan_user rows) in
      (is_target && leb count 1) ≡ false → 0 < tally (is_other target) rows
others_left target rows single some_admin guard =
    let (total, is_target) = counted target rows in
    let split = admins_split target rows in
    let le = self_le target rows in
    elim (Bool-cases (exists (is_self target) rows)) [
      | inl e ↦
          let many : leb (count_admins target (map scan_user rows)).0 1 ≡ false = ground arith in
          let more = leb→lt (count_admins target (map scan_user rows)).0 1 many in omega arith
      | inr e ↦ let none_self = tally-none (is_self target) rows e in omega arith
    ]

abbrev sorted : List UserRow → List UserRow
sorted = order_by (λ (u : UserRow). u.email)

-- A guard that lets the call pass leaves another enabled administrator, where there was one at all and
-- the target's id is the key of at most one row.
pub guard_last_admin_ok :
    (target : String) (db : Db)
    → tally (has_user_id target) db.tables.users ≤ 1
    → exists is_admin db.tables.users ≡ true
    → (guard_last_admin target db).0 ≡ ok none
    → exists (is_other target) db.tables.users ≡ true
unfolding guard_last_admin enabled_admin_count list_users
guard_last_admin_ok target db single some_admin h =
    let (counts, c, passed, _) =
      bind_ok (enabled_admin_count target)
        (λ counted. pure (if counted.1 && leb counted.0 1 then some last_admin else none)) db none
        h in
    let (users, u, counted_them, _) =
      bind_ok list_users (λ users. pure (count_admins target users)) db counts c in
    let read : Tables → Result (List User) × Tables =
      λ t. (ok (map scan_user (sorted t.users)), t) in
    let listed : map scan_user (sorted db.tables.users) ≡ users =
      ok-injective (statement_ok read db users u).0 in
    let is : count_admins target (map scan_user (sorted db.tables.users)) ≡ counts =
      ap (count_admins target) listed ∙ ok-injective counted_them in
    let open_guard : (counts.1 && leb counts.0 1) ≡ false = ground arith in
    let in_order : (p : UserRow → Bool)
        → tally p (sorted db.tables.users) ≡ tally p db.tables.users =
      λ p. length-select_order p (λ (u : UserRow). u.email) db.tables.users in
    tally-exists (is_other target) db.tables.users (
      subst (λ n. 0 < n) (in_order (is_other target))
        (others_left target (sorted db.tables.users)
          (subst (λ n. n ≤ 1) (sym (in_order (has_user_id target))) single)
          (subst (λ n. 0 < n) (sym (in_order is_admin))
            (exists-tally is_admin db.tables.users some_admin))
          (subst (λ (c : ℕ × Bool). (c.1 && leb c.0 1) ≡ false) (sym is) open_guard)))

-- ===== src/Service/Admin/Tests.antt =====
-- Two administrators, and instances of what is proved of their calls.
use diyddns.Prelude.{◌≡◌, refl, [], ◌∷◌, false, some, none, exists, arith}
use diyddns.Store.Db.{ok, UserRow, Db, statement, now_unix}
use diyddns.Store.Samples.{calm, tables, ann}
use diyddns.Store.Users.{list_users, get_user_by_id, set_role}
use diyddns.Store.Audit.{log, append_audit}
use diyddns.Service.Membership.{Membership}
use diyddns.Service.Admin.{
  UpdateUserParams, guard_last_admin, enabled_admin_count, guard_update_user, apply_role, refused,
  last_admin,
}
use diyddns.Service.Admin.Accounts.{update_user_account, delete_user_account}
use diyddns.Service.Admin.Count.{is_admin}
use diyddns.Service.Admin.Safe.{
  HasAdmin, update_user_account-HasAdmin, delete_user_account-HasAdmin,
}

abbrev quiet : Membership → Db → Db
quiet e db = db

abbrev root : UserRow
root = record ann { id = "a1"; email = "root@example.com"; role = "admin" }

abbrev deputy : UserRow
deputy = record ann { id = "a2"; email = "deputy@example.com"; role = "admin" }

abbrev governed : Db
governed = record calm { tables = record tables { users = root ∷ deputy ∷ ann ∷ [] } }

abbrev lone : Db
lone = record calm { tables = record tables { users = root ∷ ann ∷ [] } }

abbrev demotion : UpdateUserParams
demotion = record { role = some "user"; disabled = none }

last_one_stays :
    (update_user_account quiet "a2" "a1" demotion lone).result ≡ ok (refused last_admin)
unfolding update_user_account get_user_by_id guard_update_user guard_last_admin enabled_admin_count
    list_users statement
last_one_stays = refl

-- Two administrators who demote each other at once: both guards pass before either writes.
first_passes : (guard_update_user "a1" "a2" demotion governed).0 ≡ ok none
unfolding guard_update_user guard_last_admin enabled_admin_count list_users statement
first_passes = refl

second_passes : (guard_update_user "a2" "a1" demotion governed).0 ≡ ok none
unfolding guard_update_user guard_last_admin enabled_admin_count list_users statement
second_passes = refl

abbrev after_both : Db
after_both = (apply_role "a2" "a1" (some "user") (apply_role "a1" "a2" (some "user") governed).1).1

none_left : exists is_admin after_both.tables.users ≡ false
unfolding apply_role set_role log append_audit statement now_unix
none_left = refl

update_user_account-HasAdmin_example :
    HasAdmin (update_user_account quiet "a1" "a2" demotion governed).end.tables
update_user_account-HasAdmin_example =
    update_user_account-HasAdmin quiet (λ e db. refl) "a1" "a2" demotion governed (omega arith) refl

delete_user_account-HasAdmin_example :
    HasAdmin (delete_user_account quiet "a1" "a2" governed).end.tables
delete_user_account-HasAdmin_example =
    delete_user_account-HasAdmin quiet (λ e db. refl) "a1" "a2" governed (omega arith) refl

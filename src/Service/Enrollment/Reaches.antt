-- ===== src/Service/Enrollment/Reaches.antt =====
-- A code enrolls one device at most, whatever happens afterwards
-- (internal/server/service/enrollment.go).
use diyddns.Prelude.{
  ℕ, ◌≤◌, String, ◌≡◌, ◌≢◌, refl, sym, ap, ◌∙◌, subst, List, Option, none, some, select, length,
  arith,
}
use diyddns.Store.Db.{Error, Result, ok, err, CodeRow, Tables, Db}
use diyddns.Store.Db.Laws.{statement_cases, not_ok}
use diyddns.Store.Devices.Rows.{Device}
use diyddns.Store.Devices.Writes.{create}
use diyddns.Store.Devices.Writes.Laws.{create_ok, create_err}
use diyddns.Store.Devices.Expiry.{delete}
use diyddns.Store.Users.{delete_user}
use diyddns.Store.Codes.{is_code, read_code, get_code, consume_enrollment_code, prune_codes}
use diyddns.Store.Codes.Once.{
  Spent, Single, prune_codes-Quiet, delete-Quiet, delete_user-Quiet, consume-Spent, consumed-Spent,
}
use diyddns.Store.Audit.{entry}
use diyddns.Service.Enrollment.{
  ClientMeta, EnrollResult, create_enrollment_code, create_sealed_device, new_device, consume_code,
  enroll_for_user,
}
use diyddns.Service.Enrollment.Once.{
  same_codes, log-Quiet, create_enrollment_code-Quiet, enroll_for_user-Quiet, consume_code-Spent,
}
use diyddns.Service.Enrollment.Redeemed.{consume_code_ok}

-- Reading a code changes no table.
pub tables-get_code : (code : String) (db : Db) → (get_code code db).1.tables ≡ db.tables
unfolding get_code
tables-get_code code db = ground (arith, statement_cases {0} (read_code code) db)

module _ {Secret : Type 0} where
  -- Creating a sealed device changes no code.
  codes-create_sealed_device :
      (minted : Option (Secret × String)) (new_id user_id label : String) (meta : ClientMeta)
      (db : Db)
      → (create_sealed_device minted new_id user_id label meta db).1.tables.codes ≡ db.tables.codes
  unfolding create_sealed_device
  codes-create_sealed_device none new_id user_id label meta db = refl
  codes-create_sealed_device (some (secret, sealed)) new_id user_id label meta db =
      made (create new_id d db).0 refl
    where
      d : Device
      d = new_device user_id label sealed meta

      made :
          (r : Result Device)
          → (create new_id d db).0 ≡ r
          → (create_sealed_device
              (some (secret, sealed))
              new_id
              user_id
              label
              meta
              db).1.tables.codes
            ≡ db.tables.codes
      made (ok dev) e = let (_, _, new) = create_ok new_id d db dev e in ground arith
      made (err x) e = let same = create_err new_id d db x e in ground arith

module _ (Secret : Type 0) where
  -- What may happen between two redemptions: new codes of another text, the redemption of any
  -- code, enrollments, the pruner, deletions, and writes of other tables.
  pub data Step (code : String) : Db → Db → Type 0 where
    minting :
        (db : Db) (code_ttl : ℕ) (c user_id label : String)
        → c ≢ code
        → Step code db (create_enrollment_code code_ttl c user_id label db).1
    redeeming :
        (db : Db) (minted : Option (Secret × String)) (new_id c : String) (meta : ClientMeta)
        → Step code db (consume_code minted new_id c meta db).1
    enrolling :
        (db : Db) (minted : Option (Secret × String)) (new_id user_id event_type : String)
        (meta : ClientMeta)
        → Step code db (enroll_for_user minted new_id user_id event_type meta db).1
    pruning : (db : Db) (now : ℕ) → Step code db (prune_codes now db).1
    deleting : (db : Db) (id : String) → Step code db (delete id db).1
    leaving : (db : Db) (id : String) → Step code db (delete_user id db).1
    elsewhere : (db db' : Db) → db'.tables.codes ≡ db.tables.codes → Step code db db'

  pub data Reaches (code : String) : Db → Db → Type 0 where
    here : (db : Db) → Reaches code db db
    then_step : (a b c : Db) → Reaches code a b → Step code b c → Reaches code a c

  Step-Spent :
      (code : String) (a b : Db) → Step code a b → Spent code a.tables → Spent code b.tables
  Step-Spent code a b (minting _ code_ttl c user_id label other) h =
      create_enrollment_code-Quiet code code_ttl c user_id label other a h
  Step-Spent code a b (redeeming _ minted new_id c meta) h =
      consume_code-Spent code Secret minted new_id c meta a h
  Step-Spent code a b (enrolling _ minted new_id user_id event_type meta) h =
      enroll_for_user-Quiet code minted new_id user_id event_type meta a h
  Step-Spent code a b (pruning _ now) h = prune_codes-Quiet code now a h
  Step-Spent code a b (deleting _ id) h = delete-Quiet code id a h
  Step-Spent code a b (leaving _ id) h = delete_user-Quiet code id a h
  Step-Spent code a b (elsewhere _ _ same) h = same_codes code a.tables b.tables same h

  Reaches-Spent :
      (code : String) (a b : Db) → Reaches code a b → Spent code a.tables → Spent code b.tables
  Reaches-Spent code a b (here _) h = h
  Reaches-Spent code a b (then_step _ mid _ before step) h =
      Step-Spent code mid b step (Reaches-Spent code a mid before h)

  -- A code that was redeemed is spent.
  redeemed-Spent :
      (minted : Option (Secret × String)) (new_id code : String) (meta : ClientMeta) (db : Db)
      (r : EnrollResult Secret)
      → Single code db.tables
      → (consume_code minted new_id code meta db).0.result ≡ ok r
      → Spent code (consume_code minted new_id code meta db).1.tables
  redeemed-Spent minted new_id code meta db r single h =
      let did = consume_code_ok minted new_id code meta db r h in
      let db1 = (get_code code db).1 in
      let made = create_sealed_device minted new_id did.held.user_id did.held.label meta db1 in
      let codes : made.1.tables.codes ≡ db.tables.codes =
        codes-create_sealed_device minted new_id did.held.user_id did.held.label meta db1
        ∙ ap (λ (t : Tables). t.codes) (tables-get_code code db) in
      let spent =
        consumed-Spent code did.dev.id db1.clock made.1 did.spent
          (subst (λ (rows : List CodeRow). length (select (is_code code) rows) ≤ 1) (sym codes)
            single)
          did.consumed in
      subst (λ (d : Db). Spent code d.tables) (sym did.ended)
        (log-Quiet code (entry did.held.user_id "device.enroll.code" "device" did.dev.id)
          (consume_enrollment_code code did.dev.id db1.clock made.1).1 spent)

  -- Once a code was redeemed, no later redemption of it succeeds, whatever is done in between by the
  -- steps of `Reaches`; the table has at most one row of that code at first, as its primary key says.
  pub consume_code-Reaches :
      (minted again : Option (Secret × String)) (new_id other_id code : String)
      (meta later_meta : ClientMeta) (db later : Db) (r : EnrollResult Secret)
      → Single code db.tables
      → (consume_code minted new_id code meta db).0.result ≡ ok r
      → Reaches code (consume_code minted new_id code meta db).1 later
      → (e : Error) × ((consume_code again other_id code later_meta later).0.result ≡ err e)
  consume_code-Reaches minted again new_id other_id code meta later_meta db later r single h reach =
      not_ok (consume_code again other_id code later_meta later).0.result λ r' h'.
        let spent =
          Reaches-Spent code (consume_code minted new_id code meta db).1 later reach
            (redeemed-Spent minted new_id code meta db r single h) in
        let did = consume_code_ok again other_id code later_meta later r' h' in
        let db1 = (get_code code later).1 in
        let made =
          create_sealed_device again other_id did.held.user_id did.held.label later_meta db1 in
        let codes : made.1.tables.codes ≡ later.tables.codes =
          codes-create_sealed_device again other_id did.held.user_id did.held.label later_meta db1
          ∙ ap (λ (t : Tables). t.codes) (tables-get_code code later) in
        let (e, failed) =
          consume-Spent code did.dev.id db1.clock made.1
            (same_codes code later.tables made.1.tables codes spent) in
        let same : ok did.spent ≡ err e = sym did.consumed ∙ failed in ground arith

-- ===== src/Service/Enrollment/Accounts.antt =====
-- A redemption adds the device that it returns, or none (internal/server/service/enrollment.go).
use diyddns.Prelude.{
  ℕ, ◌⊎◌, inl, inr, String, ◌≡◌, refl, ap, ◌∙◌, subst, List, [], ◌∷◌, ◌++◌, Option, none, some,
  false, not, leb, ◌==◌, exists, select, select-append_last, eq_iff, if-both, arith,
}
use diyddns.Store.Db.{
  Error, not_found, conflict, driver, Result, ok, err, DeviceRow, Tables, Db, Sql, pure, statement,
  continue, has_id,
}
use diyddns.Store.Db.Laws.{statement_cases}
use diyddns.Store.Db.Moves.{Moves-statement, Moves-bind}
use diyddns.Store.Devices.Rows.{Device, device_row}
use diyddns.Store.Devices.Writes.{create}
use diyddns.Store.Devices.Writes.Laws.{create_ok, create_err}
use diyddns.Store.Devices.Expiry.{delete, remove_device}
use diyddns.Store.Codes.{EnrollmentCode, get_code, mark_used, consume_enrollment_code}
use diyddns.Store.Audit.{entry}
use diyddns.Store.Audit.Laws.{log_frame}
use diyddns.Service.Enrollment.{
  ClientMeta, EnrollResult, Outcome, orphaned, new_device, create_sealed_device, conflict_rejection,
  settled, created, looked_up, consume_code, fresh_used,
}
use diyddns.Service.Enrollment.Reaches.{tables-get_code}

abbrev SameDevices : Tables → Tables → Type 0
SameDevices t t' = t'.devices ≡ t.devices

devices-consume :
    (code device_id : String) (now : ℕ) (db : Db)
    → (consume_enrollment_code code device_id now db).1.tables.devices ≡ db.tables.devices
unfolding consume_enrollment_code
devices-consume code device_id now db =
    Moves-bind SameDevices (λ _. refl) (λ _ _ _ f g. g ∙ f)
      (statement (mark_used code device_id now)) (λ _. get_code code)
      (Moves-statement SameDevices (λ _. refl) (λ _ _ _ f g. g ∙ f) (mark_used code device_id now)
        (λ t. ground arith))
      (λ _ db'. ap (λ (t : Tables). t.devices) (tables-get_code code db')) db

delete_cases :
    (id : String) (db : Db)
    → ((delete id db).0 ≡ ok tt)
        × ((delete id db).1.tables.devices ≡ select (λ r. not (has_id id r)) db.tables.devices)
      ⊎ (e : Error) × ((delete id db).0 ≡ err e)
        × ((delete id db).1.tables.devices ≡ db.tables.devices)
unfolding delete
delete_cases id db = ground (arith, statement_cases {0} (remove_device id) db)

-- One row more than before, of that id, which no row had.
abbrev pub Added : String → List DeviceRow → List DeviceRow → Type 0
Added id old new =
    (row : DeviceRow) × (row.id ≡ id) × (exists (has_id id) old ≡ false) × (new ≡ old ++ row ∷ [])

module _ (Secret : Type 0) where
  -- A redemption that succeeds adds the device that it returns and no other; one that fails adds none,
  -- but for the device that it reports as an orphan.
  abbrev pub Accounted :
      List DeviceRow → Result (EnrollResult Secret) → Option String → List DeviceRow → Type 0
  Accounted old (ok r) orphan new = (orphan ≡ none) × Added r.device_id old new
  Accounted old (err e) none new = new ≡ old
  Accounted old (err e) (some id) new = Added id old new

  abbrev Accounts : List DeviceRow → Outcome Secret × Db → Type 0
  Accounts old (out, end) = Accounted old out.result out.orphan end.tables.devices

  module _ (old : List DeviceRow) (dev : Device) (fresh : exists (has_id dev.id) old ≡ false) where
    -- The compensating delete removes the new row and no other.
    undone_all :
        (rows : List DeviceRow)
        → rows ≡ old ++ device_row dev ∷ []
        → select (λ r. not (has_id dev.id r)) rows ≡ old
    unfolding device_row
    undone_all rows new =
        ap (select (λ r. not (has_id dev.id r))) new
        ∙ select-append_last (λ r. not (has_id dev.id r)) (has_id dev.id) old (device_row dev)
            (λ r h. ground arith) fresh (ground (arith, (eq_iff dev.id dev.id).1 refl))

    row-Added : (rows : List DeviceRow) → rows ≡ old ++ device_row dev ∷ [] → Added dev.id old rows
    unfolding device_row
    row-Added rows new = (device_row dev, refl, fresh, new)

    deleted-Accounted :
        (e : Error) (undone : Result (Unit {0})) (rows rows' : List DeviceRow)
        → rows ≡ old ++ device_row dev ∷ []
        → (undone ≡ ok tt) × (rows' ≡ select (λ r. not (has_id dev.id r)) rows)
          ⊎ (x : Error) × (undone ≡ err x) × (rows' ≡ rows)
        → Accounted old (err e) (orphaned dev.id undone) rows'
    deleted-Accounted e (ok _) rows rows' new (inl (_, kept)) = kept ∙ undone_all rows new
    deleted-Accounted e (ok _) rows rows' new (inr (x, h, _)) = absurd (ground arith)
    deleted-Accounted e (err y) rows rows' new (inl (h, _)) = absurd (ground arith)
    deleted-Accounted e (err y) rows rows' new (inr (x, h, same)) = row-Added rows' (same ∙ new)

    settled-Accounts :
        (secret : Secret) (user_id : String) (c : Result EnrollmentCode) (db : Db)
        → db.tables.devices ≡ old ++ device_row dev ∷ []
        → Accounts old (settled dev secret user_id c db)
    settled-Accounts secret user_id (ok _) db new =
        let (_, (_, _, same)) = log_frame (entry user_id "device.enroll.code" "device" dev.id) db in
        (refl, row-Added _ (ap (λ (t : Tables). t.devices) same ∙ new))
    settled-Accounts secret user_id (err e) db new =
        deleted-Accounted e (delete dev.id db).0 db.tables.devices
          (delete dev.id db).1.tables.devices new (delete_cases dev.id db)

  conflict_rejection-Accounts :
      (code : String) (db : Db) → Accounts db.tables.devices (conflict_rejection code db)
  unfolding conflict_rejection
  conflict_rejection-Accounts code db =
      let same = ap (λ (t : Tables). t.devices) (tables-get_code code db) in
      if-both (Accounts db.tables.devices) (fresh_used (get_code code db).0) _ _ same same

  module _ (code : String) (meta : ClientMeta) (held : EnrollmentCode) where
    created-Accounts :
        (minted : Option (Secret × String)) (new_id : String) (now : ℕ) (old : List DeviceRow)
        (db : Db)
        → db.tables.devices ≡ old
        → let made = create_sealed_device minted new_id held.user_id held.label meta db in
          Accounts old (created code now held made.0 made.1)
    unfolding create_sealed_device
    created-Accounts none new_id now old db same = same
    created-Accounts (some (secret, sealed)) new_id now old db same =
        made (create new_id d db).0 refl
      where
        d : Device
        d = new_device held.user_id held.label sealed meta

        mid : Db
        mid = (create new_id d db).1

        kept : (e : Error) → (create new_id d db).0 ≡ err e → mid.tables.devices ≡ old
        kept e h = ap (λ (t : Tables). t.devices) (create_err new_id d db e h) ∙ same

        made :
            (r : Result Device)
            → (create new_id d db).0 ≡ r
            → let pair : Device → Sql (Device × Secret) = λ dev. pure (dev, secret) in
              let m = continue r pair mid in Accounts old (created code now held m.0 m.1)
        made (ok dev) h =
            let (_, fresh, new) = create_ok new_id d db dev h in
            let run = consume_enrollment_code code dev.id now mid in
            let rows : run.1.tables.devices ≡ old ++ device_row dev ∷ [] =
              devices-consume code dev.id now mid
              ∙ ap (λ (t : Tables). t.devices) new
              ∙ ap (λ rows. rows ++ device_row dev ∷ []) same in
            settled-Accounts old dev
              (subst (λ rows. exists (has_id dev.id) rows ≡ false) same fresh) secret held.user_id
              run.0 run.1 rows
        made (err conflict) h =
            subst (λ rows. Accounts rows (conflict_rejection code mid)) (kept conflict h)
              (conflict_rejection-Accounts code mid)
        made (err not_found) h = kept not_found h
        made (err driver) h = kept driver h

  looked_up-Accounts :
      (minted : Option (Secret × String)) (new_id code : String) (meta : ClientMeta)
      (r : Result EnrollmentCode) (db : Db)
      → Accounts db.tables.devices (looked_up minted new_id code meta r db)
  looked_up-Accounts minted new_id code meta (ok held) db =
      if-both (Accounts db.tables.devices) (not (held.used_at == 0)) _ _ refl (
        if-both (Accounts db.tables.devices) (leb held.expires_at db.clock) _ _ refl
          (created-Accounts code meta held minted new_id db.clock db.tables.devices db refl))
  looked_up-Accounts minted new_id code meta (err not_found) db = refl
  looked_up-Accounts minted new_id code meta (err conflict) db = refl
  looked_up-Accounts minted new_id code meta (err driver) db = refl

  -- A redemption that succeeds has added one row to the devices, under the new id that it returns; one
  -- that fails, at whatever statement, has left the devices as they were, unless the compensating
  -- delete failed as well: then it has added the one row that it reports as an orphan.
  pub consume_code-Accounted :
      (minted : Option (Secret × String)) (new_id code : String) (meta : ClientMeta) (db : Db)
      → let (out, end) = consume_code minted new_id code meta db in
        Accounted db.tables.devices out.result out.orphan end.tables.devices
  unfolding consume_code
  consume_code-Accounted minted new_id code meta db =
      subst
        (λ rows.
          Accounts rows
            (looked_up minted new_id code meta (get_code code db).0 (get_code code db).1))
        (ap (λ (t : Tables). t.devices) (tables-get_code code db))
        (looked_up-Accounts minted new_id code meta (get_code code db).0 (get_code code db).1)

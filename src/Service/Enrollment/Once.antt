-- ===== src/Service/Enrollment/Once.antt =====
-- A code enrolls one device at most (internal/server/service/enrollment.go).
use diyddns.Prelude.{
  ℕ, String, ◌≡◌, ◌≢◌, refl, sym, ap, subst, Option, none, some, str_eq, if◌then◌else◌, if-both,
  not, leb, ◌==◌, All, ◌+◌,
}
use diyddns.Store.Db.{
  not_found, conflict, driver, Result, ok, err, Tables, Db, pure, now_unix, ◌>>◌,
}
use diyddns.Store.Devices.Rows.{Device}
use diyddns.Store.Devices.Writes.{create}
use diyddns.Store.Devices.Writes.Laws.{create_ok, create_err}
use diyddns.Store.Codes.{EnrollmentCode, create_code, get_code, consume_enrollment_code}
use diyddns.Store.Codes.Once.{
  UsedRow, Spent, Quiet, Quiet-bind, get_code-Quiet, consume_enrollment_code-Quiet,
  create_code-Quiet, delete-Quiet,
}
use diyddns.Store.Audit.{AuditEntry, entry, log}
use diyddns.Store.Audit.Laws.{log_frame}
use diyddns.Auth.Timestamp.{seconds}
use diyddns.Service.Enrollment.{
  ClientMeta, Outcome, create_enrollment_code, create_sealed_device, new_device, conflict_rejection,
  settled, created, looked_up, consume_code, enroll_for_user, fresh_used,
}

module _ (code : String) where
  -- A state whose codes are those of another.
  pub same_codes : (t t' : Tables) → t'.codes ≡ t.codes → Spent code t → Spent code t'
  same_codes t t' same h = subst (All (UsedRow code)) (sym same) h

  create-Quiet : (new_id : String) (d : Device) → Quiet code (create new_id d)
  create-Quiet new_id d db h = made (create new_id d db).0 refl
    where
      made :
          (r : Result Device)
          → (create new_id d db).0 ≡ r
          → Spent code (create new_id d db).1.tables
      made (ok dev) e =
          same_codes db.tables (create new_id d db).1.tables
            (let (_, _, new) = create_ok new_id d db dev e in ap (λ (t : Tables). t.codes) new) h
      made (err x) e =
          same_codes db.tables (create new_id d db).1.tables
            (ap (λ (t : Tables). t.codes) (create_err new_id d db x e)) h

  pub log-Quiet : (e : AuditEntry) → Quiet code (log e)
  log-Quiet e db h =
      let (_, (_, _, same)) = log_frame e db in
      same_codes db.tables (log e db).1.tables (ap (λ (t : Tables). t.codes) same) h

  pub create_enrollment_code-Quiet :
      (code_ttl : ℕ) (c user_id label : String)
      → c ≢ code
      → Quiet code (create_enrollment_code code_ttl c user_id label)
  unfolding create_enrollment_code now_unix
  create_enrollment_code-Quiet code_ttl c user_id label other db h =
      Quiet-bind code (create_code new) (λ _. pure (c, new.expires_at))
        (create_code-Quiet code new other) (λ _ db h. h) db h
    where
      new : EnrollmentCode
      new = record {
        code = c;
        user_id = user_id;
        label = label;
        expires_at = db.clock + seconds code_ttl;
        used_at = 0;
        device_id = "";
      }

  module _ {Secret : Type 0} where
    create_sealed_device-Quiet :
        (minted : Option (Secret × String)) (new_id user_id label : String) (meta : ClientMeta)
        → Quiet code (create_sealed_device minted new_id user_id label meta)
    unfolding create_sealed_device
    create_sealed_device-Quiet none new_id user_id label meta = λ db h. h
    create_sealed_device-Quiet (some (secret, sealed)) new_id user_id label meta =
        Quiet-bind code (create new_id (new_device user_id label sealed meta))
          (λ dev. pure (dev, secret)) (create-Quiet new_id (new_device user_id label sealed meta))
          (λ _ db h. h)

    pub enroll_for_user-Quiet :
        (minted : Option (Secret × String)) (new_id user_id event_type : String) (meta : ClientMeta)
        → Quiet code (enroll_for_user minted new_id user_id event_type meta)
    unfolding enroll_for_user
    enroll_for_user-Quiet minted new_id user_id event_type meta =
        let label = if str_eq meta.hostname "" then "device" else meta.hostname in
        Quiet-bind code (create_sealed_device minted new_id user_id label meta)
          (λ made.
            log (entry user_id event_type "device" made.0.id)
            >> pure (record { device_id = made.0.id; secret = made.1 }))
          (create_sealed_device-Quiet minted new_id user_id label meta)
          λ made.
            Quiet-bind code (log (entry user_id event_type "device" made.0.id))
              (λ _. pure (record { device_id = made.0.id; secret = made.1 }))
              (log-Quiet (entry user_id event_type "device" made.0.id)) (λ _ db h. h)

  module _ (Secret : Type 0) where
    abbrev Ends : Outcome Secret × Db → Type 0
    Ends (out, end) = Spent code end.tables

    conflict_rejection-Ends :
        (c : String) (db : Db) → Spent code db.tables → Ends (conflict_rejection c db)
    unfolding conflict_rejection
    conflict_rejection-Ends c db h =
        if-both Ends (fresh_used (get_code c db).0) _ _ (get_code-Quiet code c db h)
          (get_code-Quiet code c db h)

    settled-Ends :
        (dev : Device) (secret : Secret) (user_id : String) (r : Result EnrollmentCode) (db : Db)
        → Spent code db.tables
        → Ends (settled dev secret user_id r db)
    settled-Ends dev secret user_id (ok _) db h =
        log-Quiet (entry user_id "device.enroll.code" "device" dev.id) db h
    settled-Ends dev secret user_id (err e) db h = delete-Quiet code dev.id db h

    created-Ends :
        (c : String) (now : ℕ) (ec : EnrollmentCode) (r : Result (Device × Secret)) (db : Db)
        → Spent code db.tables
        → Ends (created c now ec r db)
    created-Ends c now ec (ok (dev, secret)) db h =
        let run = consume_enrollment_code c dev.id now db in
        settled-Ends dev secret ec.user_id run.0 run.1
          (consume_enrollment_code-Quiet code c dev.id now db h)
    created-Ends c now ec (err conflict) db h = conflict_rejection-Ends c db h
    created-Ends c now ec (err not_found) db h = h
    created-Ends c now ec (err driver) db h = h

    looked_up-Ends :
        (minted : Option (Secret × String)) (new_id c : String) (meta : ClientMeta)
        (r : Result EnrollmentCode) (db : Db)
        → Spent code db.tables
        → Ends (looked_up minted new_id c meta r db)
    looked_up-Ends minted new_id c meta (ok ec) db h =
        let made = create_sealed_device minted new_id ec.user_id ec.label meta db in
        if-both Ends (not (ec.used_at == 0)) _ _ h (
          if-both Ends (leb ec.expires_at db.clock) _ _ h (
            created-Ends c db.clock ec made.0 made.1
              (create_sealed_device-Quiet minted new_id ec.user_id ec.label meta db h)))
    looked_up-Ends minted new_id c meta (err not_found) db h = h
    looked_up-Ends minted new_id c meta (err conflict) db h = h
    looked_up-Ends minted new_id c meta (err driver) db h = h

    -- No redemption makes a used code usable.
    pub consume_code-Spent :
        (minted : Option (Secret × String)) (new_id c : String) (meta : ClientMeta) (db : Db)
        → Spent code db.tables
        → Spent code (consume_code minted new_id c meta db).1.tables
    unfolding consume_code
    consume_code-Spent minted new_id c meta db h =
        looked_up-Ends minted new_id c meta (get_code c db).0 (get_code c db).1
          (get_code-Quiet code c db h)

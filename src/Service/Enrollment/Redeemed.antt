-- ===== src/Service/Enrollment/Redeemed.antt =====
-- What a redemption that succeeded has done (internal/server/service/enrollment.go).
use diyddns.Prelude.{
  ℕ, ◌<◌, String, Bool, true, false, not, ◌≡◌, refl, Option, some, leb, leb→lt, ◌==◌, if◌then◌else◌,
  arith,
}
use diyddns.Store.Db.{not_found, conflict, driver, Result, ok, err, Db}
use diyddns.Store.Devices.Rows.{Device}
use diyddns.Store.Codes.{EnrollmentCode, get_code, consume_enrollment_code}
use diyddns.Store.Audit.{entry, log}
use diyddns.Service.Enrollment.{
  ClientMeta, EnrollResult, Outcome, create_sealed_device, conflict_rejection, settled, created,
  refused, Rejected, expired, lost_race, label_conflict, looked_up, consume_code, fresh_used,
}

module _ {Secret : Type 0} (minted : Option (Secret × String)) (new_id code : String)
    (meta : ClientMeta) where
  -- The calls of a redemption, in order, each with what it returned.
  pub record Redemption (db : Db) (r : EnrollResult Secret) (end : Db) : Type 0 where
    pub held : EnrollmentCode
    pub got : (get_code code db).0 ≡ ok held
    pub unused : held.used_at ≡ 0
    pub live : (get_code code db).1.clock < held.expires_at
    pub dev : Device
    pub secret : Secret
    pub made :
        (create_sealed_device minted new_id held.user_id held.label meta (get_code code db).1).0
        ≡ ok (dev, secret)
    pub spent : EnrollmentCode
    pub consumed :
        (consume_enrollment_code code dev.id
          (get_code code db).1.clock
          (create_sealed_device minted new_id held.user_id held.label meta
            (get_code code db).1).1).0
        ≡ ok spent
    pub returned : r ≡ record { device_id = dev.id; secret = secret }
    pub ended :
        end
        ≡ (log
            (entry held.user_id "device.enroll.code" "device" dev.id)
            (consume_enrollment_code code dev.id
              (get_code code db).1.clock
              (create_sealed_device minted new_id held.user_id held.label meta
                (get_code code db).1).1).1).1

  module _ (db : Db) (r : EnrollResult Secret) (held : EnrollmentCode)
      (got : (get_code code db).0 ≡ ok held) (unused : held.used_at ≡ 0)
      (live : (get_code code db).1.clock < held.expires_at) where
    abbrev now : ℕ
    now = (get_code code db).1.clock

    abbrev made_db : Db
    made_db =
        (create_sealed_device minted new_id held.user_id held.label meta (get_code code db).1).1

    conflict_rejection_err :
        (b : Bool)
        → let out : Outcome Secret × Db =
            if b
            then (refused not_found (some lost_race), (get_code code made_db).1)
            else (refused conflict (some label_conflict), (get_code code made_db).1) in
          out.0.result ≡ ok r → ⊥
    conflict_rejection_err true h = ground arith
    conflict_rejection_err false h = ground arith

    settled_ok :
        (dev : Device) (secret : Secret) (c : Result EnrollmentCode)
        → (create_sealed_device minted new_id held.user_id held.label meta (get_code code db).1).0
          ≡ ok (dev, secret)
        → (consume_enrollment_code code dev.id now made_db).0 ≡ c
        → (settled dev secret held.user_id c
            (consume_enrollment_code code dev.id now made_db).1).0.result
          ≡ ok r
        → Redemption db r
            (settled dev secret held.user_id c
              (consume_enrollment_code code dev.id now made_db).1).1
    settled_ok dev secret (ok c) made consumed h = record {
      held = held;
      got = got;
      unused = unused;
      live = live;
      dev = dev;
      secret = secret;
      made = made;
      spent = c;
      consumed = consumed;
      returned = ground arith;
      ended = refl;
    }
    settled_ok dev secret (err e) made consumed h = absurd (ground arith)

    created_ok :
        (m : Result (Device × Secret))
        → (create_sealed_device minted new_id held.user_id held.label meta (get_code code db).1).0
          ≡ m
        → (created code now held m made_db).0.result ≡ ok r
        → Redemption db r (created code now held m made_db).1
    unfolding conflict_rejection
    created_ok (ok (dev, secret)) made h =
        settled_ok dev secret (consume_enrollment_code code dev.id now made_db).0 made refl h
    created_ok (err conflict) made h =
        absurd (conflict_rejection_err (fresh_used (get_code code made_db).0) h)
    created_ok (err not_found) made h = absurd (ground arith)
    created_ok (err driver) made h = absurd (ground arith)

  looked_up_ok :
      (db : Db) (r : EnrollResult Secret) (c : Result EnrollmentCode)
      → (get_code code db).0 ≡ c
      → (looked_up minted new_id code meta c (get_code code db).1).0.result ≡ ok r
      → Redemption db r (looked_up minted new_id code meta c (get_code code db).1).1
  looked_up_ok db r (ok held) got h =
      tested (not (held.used_at == 0)) (leb held.expires_at db'.clock) refl refl h
    where
      db' : Db
      db' = (get_code code db).1

      made : Result (Device × Secret) × Db
      made = create_sealed_device minted new_id held.user_id held.label meta db'

      tested :
          (used late : Bool)
          → not (held.used_at == 0) ≡ used
          → leb held.expires_at db'.clock ≡ late
          → let out : Outcome Secret × Db =
              if used
              then (refused not_found (some Rejected.used), db')
              else if late
              then (refused not_found (some expired), db')
              else created code db'.clock held made.0 made.1 in
            out.0.result ≡ ok r → Redemption db r out.1
      tested true late u l h = absurd (ground arith)
      tested false true u l h = absurd (ground arith)
      tested false false u l h =
          created_ok db r held got (ground arith) (leb→lt held.expires_at db'.clock l) made.0 refl h
  looked_up_ok db r (err not_found) got h = absurd (ground arith)
  looked_up_ok db r (err conflict) got h = absurd (ground arith)
  looked_up_ok db r (err driver) got h = absurd (ground arith)

  pub consume_code_ok :
      (db : Db) (r : EnrollResult Secret)
      → (consume_code minted new_id code meta db).0.result ≡ ok r
      → Redemption db r (consume_code minted new_id code meta db).1
  unfolding consume_code
  consume_code_ok db r h = looked_up_ok db r (get_code code db).0 refl h

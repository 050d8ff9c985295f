-- ===== src/Service/Enrollment/Tests.antt =====
-- A code, and instances of what is proved of its redemption.
use diyddns.Prelude.{◌≡◌, refl, [], ◌∷◌, Option, none, some, false, true, String, arith}
use diyddns.Store.Db.{Error, ok, err, driver, CodeRow, Db, statement, now_unix}
use diyddns.Store.Samples.{calm, tables}
use diyddns.Store.Devices.Rows.{device_row}
use diyddns.Store.Devices.Writes.{create, insert_device}
use diyddns.Store.Devices.Expiry.{delete}
use diyddns.Store.Codes.{get_code, consume_enrollment_code, prune_codes}
use diyddns.Store.Audit.{log, append_audit}
use diyddns.Service.Enrollment.{
  ClientMeta, EnrollResult, used, create_sealed_device, conflict_rejection, consume_code,
}
use diyddns.Service.Enrollment.Reaches.{here, then_step, pruning, consume_code-Reaches}
use diyddns.Service.Enrollment.Accounts.{Accounted, consume_code-Accounted}

abbrev invitation : CodeRow
invitation = record {
  code = "c1";
  user_id = "u1";
  label = "pi";
  expires_at = 3000;
  used_at = none;
  device_id = none;
}

abbrev invited : Db
invited = record calm { tables = record tables { codes = invitation ∷ [] } }

abbrev meta : ClientMeta
meta = record { hostname = "pi"; os = "linux"; client_version = "1.0" }

abbrev minted : Option (String × String)
minted = some ("plain", "sealed")

abbrev enrolled : EnrollResult String
enrolled = record { device_id = "d9"; secret = "plain" }

enrolls : (consume_code minted "d9" "c1" meta invited).0.result ≡ ok enrolled
unfolding consume_code create_sealed_device conflict_rejection get_code consume_enrollment_code
    create insert_device device_row statement now_unix log append_audit delete
enrolls = refl

used_up :
    (consume_code minted "d10" "c1" meta (consume_code minted "d9" "c1" meta invited).1).0.reason
    ≡ some used
unfolding consume_code create_sealed_device conflict_rejection get_code consume_enrollment_code
    create insert_device device_row statement now_unix log append_audit delete
used_up = refl

abbrev redeemed_db : Db
redeemed_db = (consume_code minted "d9" "c1" meta invited).1

abbrev pruned_db : Db
pruned_db = (prune_codes 2500 redeemed_db).1

consume_code-Reaches_example :
    (e : Error) × ((consume_code minted "d10" "c1" meta pruned_db).0.result ≡ err e)
consume_code-Reaches_example =
    consume_code-Reaches String minted minted "d9" "d10" "c1" meta meta invited pruned_db enrolled
      (omega arith) enrolls
      (then_step redeemed_db redeemed_db pruned_db (here redeemed_db) (pruning redeemed_db 2500))

-- The INSERT of the device passes, the UPDATE of the code fails, and the compensating delete passes.
abbrev stormy : Db
stormy = record invited {
  weather =
      record { elapsed = 1; fails = false }
      ∷ record { elapsed = 1; fails = false }
      ∷ record { elapsed = 1; fails = true }
      ∷ [];
}

undone : (consume_code minted "d9" "c1" meta stormy).0.result ≡ err driver
unfolding consume_code create_sealed_device conflict_rejection get_code consume_enrollment_code
    create insert_device device_row statement now_unix log append_audit delete
undone = refl

consume_code-Accounted_example :
    let (out, end) = consume_code minted "d9" "c1" meta stormy in
    Accounted String tables.devices out.result out.orphan end.tables.devices
consume_code-Accounted_example = consume_code-Accounted String minted "d9" "c1" meta stormy

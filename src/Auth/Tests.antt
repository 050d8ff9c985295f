-- ===== src/Auth/Tests.antt =====
-- A signed request of one device, and instances of what is proved of its verification.
use Prim.Native.String
use diyddns.Prelude.{ℕ, ◌≡◌, ◌≢◌, refl, List, [], ◌∷◌, Option, none, some, false, String, arith}
use diyddns.Prelude.Int.{ℤ}
use diyddns.Store.Db.{Db, statement}
use diyddns.Store.Samples.{calm, tables}
use diyddns.Store.Devices.Rows.{scan_device}
use diyddns.Store.Devices.Writes.{get_by_id}
use diyddns.Store.Users.{get_user_by_id}
use diyddns.Store.Nonces.{insert, prune_expired}
use diyddns.Auth.Timestamp.{parse_int, out_of_skew, nonce_expiry}
use diyddns.Auth.Verifier.{
  RequestParts, Context, Verdict, accepted, rejected, clock_skew, Verifier, secret_for, expected,
  verify,
}
use diyddns.Auth.Verifier.Steps.{Judged}
use diyddns.Auth.Verifier.Accept.{Accepted, verify-Judged}
use diyddns.Auth.Verifier.Replay.{here, pruned, verify-Reaches}

-- A cipher and a digest that can be evaluated.
abbrev unsealed : String → String → Option String
unsealed key text = some text

abbrev marked : String → String → String
marked secret text = String.◌++◌ secret text

abbrev digest : List ℕ → String
digest body = "00"

abbrev verifier : Verifier String String
verifier = record { key = "k"; skew = 120000000000; nonce_ttl = 600000000000; cache = [] }

abbrev unsigned_parts : RequestParts
unsigned_parts = record {
  device = "d1";
  timestamp = "1700000000";
  nonce = "n1";
  signature = "";
  method = "POST";
  path = "/api/v1/checkin";
  body = 123 ∷ [];
}

abbrev parts : RequestParts
parts = record unsigned_parts {
  signature = expected unsealed marked digest "sealed" unsigned_parts;
}

abbrev patient : Context
patient = record { done_at_device = false; done_at_user = false }

parse_negative : parse_int "-120" ≡ some (ℤ.negsuc 119)
unfolding parse_int
parse_negative = refl

parse_too_large : parse_int "9223372036854775808" ≡ none
unfolding parse_int
parse_too_large = refl

parts-accepted :
    (verify unsealed marked digest parts patient 1700000060 verifier calm).0 ≡ accepted "d1"
unfolding verify get_by_id get_user_by_id insert statement scan_device parse_int out_of_skew
    nonce_expiry secret_for
parts-accepted = refl

late-rejected :
    (verify unsealed marked digest parts patient 1700000121 verifier calm).0 ≡ rejected clock_skew
unfolding verify get_by_id get_user_by_id insert statement scan_device parse_int out_of_skew
    nonce_expiry secret_for
late-rejected = refl

verify-Judged_example :
    let (verdict, _, end) = verify unsealed marked digest parts patient 1700000060 verifier calm in
    Judged tables
      (Accepted unsealed marked digest parts 1700000060 verifier tables)
      verdict
      end.tables
verify-Judged_example =
    verify-Judged unsealed marked digest parts patient 1700000060 verifier calm (omega arith)
      (omega arith)

abbrev first : Verdict × Verifier String String × Db
first = verify unsealed marked digest parts patient 1700000060 verifier calm

verify-Reaches_example :
    (verify unsealed marked digest parts patient 1700000100 first.1
      (prune_expired 1700000090 first.2).1).0
    ≢ accepted "d1"
verify-Reaches_example =
    verify-Reaches unsealed marked digest parts parts patient patient 1700000060 1700000090
      1700000100 verifier first.1 calm (prune_expired 1700000090 first.2).1 "d1" "d1" (omega arith)
      (omega arith) parts-accepted (pruned 1700000060 1700000090 first.1 first.2 here (omega arith))
      (omega arith) (omega arith) refl refl

-- ===== src/Store/Codes.antt =====
-- The single-use codes of an enrollment (internal/store/enrollment_codes.go).
pub mod Once
use diyddns.Prelude.{
  ℕ, String, Bool, not, ◌&&◌, List, [], ◌∷◌, ◌++◌, Option, none, some, true, str_eq, ltb,
  if◌then◌else◌, find_where, update_where, exists, select, length,
}
use diyddns.Store.Db.{
  not_found, conflict, driver, Result, ok, err, CodeRow, DeviceRow, Tables, Sql, pure, statement,
  ◌>>=◌, ◌>>◌, null_if_empty, null_if_zero, scan_string, scan_int64, is_null, has_id,
}
use diyddns.Store.Devices.Writes.{found}
use diyddns.Store.Users.{has_user_id}

pub record EnrollmentCode : Type 0 where
  pub code : String
  pub user_id : String
  pub label : String
  pub expires_at : ℕ
  pub used_at : ℕ
  pub device_id : String

abbrev pub scan_enrollment_code : CodeRow → EnrollmentCode
scan_enrollment_code r = record {
  code = r.code;
  user_id = r.user_id;
  label = r.label;
  expires_at = r.expires_at;
  used_at = scan_int64 r.used_at;
  device_id = scan_string r.device_id;
}

abbrev pub is_code : String → CodeRow → Bool
is_code code r = str_eq r.code code

abbrev pub code_row : EnrollmentCode → CodeRow
code_row c = record {
  code = c.code;
  user_id = c.user_id;
  label = c.label;
  expires_at = c.expires_at;
  used_at = null_if_zero c.used_at;
  device_id = null_if_empty c.device_id;
}

-- device_id REFERENCES devices(id), which NULL satisfies
abbrev pub references : List DeviceRow → Option String → Bool
references devices none = true
references devices (some id) = exists (has_id id) devices

-- The INSERT: PRIMARY KEY (code), and the foreign keys.
abbrev pub insert_code : EnrollmentCode → Tables → Result EnrollmentCode × Tables
insert_code c t =
    if exists (is_code c.code) t.codes
    then (err conflict, t)
    else if exists (has_user_id c.user_id) t.users
        && references t.devices (null_if_empty c.device_id)
    then (ok c, record t { codes = t.codes ++ code_row c ∷ [] })
    else (err driver, t)

-- `Create`
unfoldable pub create_code : EnrollmentCode → Sql EnrollmentCode
create_code c = statement (insert_code c)

abbrev pub read_code : String → Tables → Result CodeRow × Tables
read_code code t = (found (find_where (is_code code) t.codes), t)

-- `Get`
unfoldable pub get_code : String → Sql EnrollmentCode
get_code code = do row ← statement (read_code code); pure (scan_enrollment_code row)

-- WHERE code = ? AND used_at IS NULL AND expires_at > ?
abbrev pub redeemable : String → ℕ → CodeRow → Bool
redeemable code now r = is_code code r && is_null r.used_at && ltb now r.expires_at

abbrev pub redeemed : String → ℕ → CodeRow → CodeRow
redeemed device_id now r = record r { used_at = some now; device_id = some device_id }

abbrev pub mark_used : String → String → ℕ → Tables → Result (Unit {0}) × Tables
mark_used code device_id now t =
    if exists (redeemable code now) t.codes
    then if exists (has_id device_id) t.devices
      then (
        ok tt,
        record t { codes = update_where (redeemable code now) (redeemed device_id now) t.codes },
      )
      else (err driver, t)
    else (err not_found, t)

-- `Consume`
unfoldable pub consume_enrollment_code : String → String → ℕ → Sql EnrollmentCode
consume_enrollment_code code device_id now = do
  statement (mark_used code device_id now)
  get_code code

abbrev pub code_expired : ℕ → CodeRow → Bool
code_expired now r = ltb r.expires_at now

-- `PruneExpired`: the number of rows deleted.
unfoldable pub prune_codes : ℕ → Sql ℕ
prune_codes now = statement λ t. (
  ok (length (select (code_expired now) t.codes)),
  record t { codes = select (λ r. not (code_expired now r)) t.codes },
)

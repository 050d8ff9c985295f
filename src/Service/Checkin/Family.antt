-- ===== src/Service/Checkin/Family.antt =====
-- The columns that a check-in writes (internal/server/service/checkin.go).
use diyddns.Prelude.{ℕ, ◌<◌, String, true, ◌≡◌, refl, sym, Option, some, str_eq, eq_iff, arith}
use diyddns.Store.Db.{DeviceRow, scan_string, null_if_empty}
use diyddns.Store.Devices.Rows.{scan_device}
use diyddns.Store.Devices.Writes.{contact, set_contact, case_when}
use diyddns.Store.Checkin.Atomic.{contact_of}
use diyddns.Service.Checkin.{CheckinReport, effective, asserted, change_of, unchanged}
use diyddns.Service.Checkin.Contract.{FamilyMerged, Merged}

-- A column that is written through `nullIfEmpty` is read back by `scanString`.
pub scan-null_if_empty : (s : String) → scan_string (null_if_empty s) ≡ s
scan-null_if_empty s = ground (arith, eq_iff s "")

FamilyMerged-contact :
    (reported : String) (at : ℕ) (old : Option String) (confirmed : Option ℕ) (level : ℕ)
    → str_eq (effective reported (scan_string old)) (scan_string old) ≡ true
    → FamilyMerged reported at old confirmed level old
        (case_when (asserted reported) (some at) confirmed)
        (case_when (asserted reported) 0 level)
FamilyMerged-contact reported at old confirmed level h = (
  sym ((eq_iff (effective reported (scan_string old)) (scan_string old)).0 h),
  ground arith,
  ground arith,
)

FamilyMerged-set :
    (reported : String) (at : ℕ) (old : Option String) (confirmed : Option ℕ) (level : ℕ)
    → FamilyMerged reported at old confirmed level
        (null_if_empty (effective reported (scan_string old)))
        (case_when (asserted reported) (some at) confirmed)
        (case_when (asserted reported) 0 level)
FamilyMerged-set reported at old confirmed level =
    (scan-null_if_empty (effective reported (scan_string old)), ground arith, ground arith)

pub contact-Merged :
    (r : CheckinReport) (at : ℕ) (row : DeviceRow)
    → 0 < at
    → unchanged r (scan_device row) ≡ true
    → Merged r at row (contact (asserted r.ipv4) (asserted r.ipv6) at at row)
unfolding scan_device
contact-Merged r at row p h = record {
  v4 =
      FamilyMerged-contact r.ipv4 at row.current_ipv4 row.v4_confirmed_at row.v4_warn_level
        (ground arith);
  v6 =
      FamilyMerged-contact r.ipv6 at row.current_ipv6 row.v6_confirmed_at row.v6_warn_level
        (ground arith);
  seen = ground arith;
  updated = refl;
  identity = (refl, refl, refl);
  secret = refl;
  enabled = refl;
  created = refl;
}

pub set_contact-Merged :
    (r : CheckinReport) (at : ℕ) (row : DeviceRow)
    → 0 < at
    → Merged r at row (
        set_contact
          (contact_of (change_of r (scan_device row)))
          (asserted r.ipv4)
          (asserted r.ipv6)
          at
          at
          row)
unfolding scan_device
set_contact-Merged r at row p = record {
  v4 = FamilyMerged-set r.ipv4 at row.current_ipv4 row.v4_confirmed_at row.v4_warn_level;
  v6 = FamilyMerged-set r.ipv6 at row.current_ipv6 row.v6_confirmed_at row.v6_warn_level;
  seen = ground arith;
  updated = refl;
  identity = (refl, refl, refl);
  secret = refl;
  enabled = refl;
  created = refl;
}

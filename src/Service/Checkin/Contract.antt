-- ===== src/Service/Checkin/Contract.antt =====
-- What a check-in promises (internal/server/service/checkin.go).
use diyddns.Prelude.{
  ℕ, suc, List, String, true, false, not, ◌≡◌, ◌⊎◌, Option, none, some, str_eq, if◌then◌else◌,
  find_where, ◌&&◌, update_where, ◌++◌, [], ◌∷◌,
}
use diyddns.Store.Db.{
  Weather, not_found, Result, ok, err, DeviceRow, Tables, has_id, scan_string, null_if_empty,
}
use diyddns.Store.Db.Calm.{any_fails}
use diyddns.Store.Db.Instants.{clock_after}
use diyddns.Store.Devices.Rows.{scan_device}
use diyddns.Service.Checkin.{CheckinReport, CheckinResult, IpChangeEvent}

-- One family after a check-in at instant `at` that reported `reported`: an omitted family keeps its
-- address, its confirmation and its level, and a reported one is confirmed now, at level 0.
abbrev pub FamilyMerged :
    String → ℕ → Option String → Option ℕ → ℕ → Option String → Option ℕ → ℕ → Type 0
FamilyMerged reported at old confirmed level new confirmed' level' =
    (scan_string new ≡ (if str_eq reported "" then scan_string old else reported))
    × (confirmed' ≡ (if str_eq reported "" then confirmed else some at))
    × (level' ≡ (if str_eq reported "" then level else 0))

-- The columns that only a changed address writes.
abbrev pub HostKept : DeviceRow → DeviceRow → Type 0
HostKept old new =
    (new.hostname ≡ old.hostname) × (new.os ≡ old.os) × (new.client_version ≡ old.client_version)

abbrev pub HostSet : CheckinReport → DeviceRow → Type 0
HostSet r new =
    (scan_string new.hostname ≡ r.hostname)
    × (scan_string new.os ≡ r.os)
    × (scan_string new.client_version ≡ r.client_version)

pub record Merged (r : CheckinReport) (at : ℕ) (old new : DeviceRow) : Type 0 where
  pub v4 :
      FamilyMerged r.ipv4 at old.current_ipv4 old.v4_confirmed_at old.v4_warn_level new.current_ipv4
        new.v4_confirmed_at new.v4_warn_level
  pub v6 :
      FamilyMerged r.ipv6 at old.current_ipv6 old.v6_confirmed_at old.v6_warn_level new.current_ipv6
        new.v6_confirmed_at new.v6_warn_level
  pub seen : new.last_seen_at ≡ some at
  pub updated : new.updated_at ≡ at
  pub identity : (new.id ≡ old.id) × (new.user_id ≡ old.user_id) × (new.label ≡ old.label)
  pub secret : new.secret_hash ≡ old.secret_hash
  pub enabled : new.disabled ≡ old.disabled
  pub created : new.created_at ≡ old.created_at

-- What a check-in from `clock` under the weather `ws` that returned a result has done: the device `row`
-- was found, and merged with the report at `at`, which is the clock after the read of the device, and
-- after the BEGIN too if an address differs; no other device and no other table was changed; and
-- exactly if an address differs a history row was appended, the device's host columns were set, and
-- the notifier was called with the change.
pub record CheckedIn (r : CheckinReport) (id : String) (ws : List Weather) (clock : ℕ)
    (res : CheckinResult × Option IpChangeEvent) (old new : Tables) : Type 0 where
  pub row : DeviceRow
  pub found_row : find_where (has_id id) old.devices ≡ some row
  pub at : ℕ
  pub instant : at ≡ clock_after (if res.0.stored then 2 else 1) ws clock
  pub write : DeviceRow → DeviceRow
  pub merged : Merged r at row (write row)
  pub devices : new.devices ≡ update_where (has_id id) write old.devices
  pub reply_id : res.0.device_id ≡ row.id
  pub reply_v4 : res.0.current_ipv4 ≡ scan_string (write row).current_ipv4
  pub reply_v6 : res.0.current_ipv6 ≡ scan_string (write row).current_ipv6
  pub stored :
      res.0.stored
      ≡ not (
          str_eq (scan_string (write row).current_ipv4) (scan_string row.current_ipv4)
          && str_eq (scan_string (write row).current_ipv6) (scan_string row.current_ipv6))
  pub elsewhere :
      new
      ≡ record old { devices = new.devices; history = new.history; history_seq = new.history_seq }
  pub quiet :
      res.0.stored ≡ false
      → (new.history ≡ old.history)
        × (new.history_seq ≡ old.history_seq)
        × (res.1 ≡ none)
        × HostKept row (write row)
  pub changed :
      res.0.stored ≡ true
      → (id' : ℕ) × (id' ≡ suc old.history_seq)
        × (new.history_seq ≡ id')
        × HostSet r (write row)
        × (new.history
            ≡ old.history
              ++ record {
                id = id';
                device_id = row.id;
                ipv4 = (write row).current_ipv4;
                ipv6 = (write row).current_ipv6;
                observed_at = at;
                client_version = null_if_empty r.client_version;
              }
                ∷ [])
        × (res.1
            ≡ some (record {
              event_id = id';
              occurred_at = at;
              device = scan_device row;
              prev_ipv4 = scan_string row.current_ipv4;
              prev_ipv6 = scan_string row.current_ipv6;
              curr_ipv4 = res.0.current_ipv4;
              curr_ipv6 = res.0.current_ipv6;
            }))

-- An error has changed nothing, and has its reason: the device is not stored, or the driver fails
-- some statement.
abbrev pub Answers :
    CheckinReport
    → String
    → List Weather
    → ℕ
    → Result (CheckinResult × Option IpChangeEvent)
    → Tables
    → Tables
    → Type 0
Answers r id ws clock (ok res) old new = CheckedIn r id ws clock res old new
Answers r id ws clock (err e) old new =
    (new ≡ old)
    × ((e ≡ not_found) × (find_where (has_id id) old.devices ≡ none) ⊎ (any_fails ws ≡ true))

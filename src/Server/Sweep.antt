-- ===== src/Server/Sweep.antt =====
-- The staleness sweep (internal/server/sweep.go) and its digest (internal/server/stale/dispatch.go).
pub mod Keep
pub mod Quiet
pub mod Tick
pub mod Outdated
pub mod Whole
use Prim.Native.String
use Prim.Native.Nat.{Ordering}
use diyddns.Prelude.{
  ℕ, ◌+◌, String, Bool, true, false, not, ◌&&◌, ◌||◌, if◌then◌else◌, Option, none, some, List, [],
  ◌∷◌, ◌++◌, map, str_eq, ltb, leb, ◌==◌, select, find_where,
}
use diyddns.Prelude.Int.{ℤ, pos, sub_ℕ, leb_ℤ}
use diyddns.Store.Db.{
  Error, Result, ok, err, UserRow, DeviceRow, Tables, Sql, Db, statement, is_null, scan_int64,
  scan_string, continue,
}
use diyddns.Store.Devices.Rows.{Device}
use diyddns.Store.Devices.Expiry.{advance_warn_level}
use diyddns.Store.Order.{order_by}
use diyddns.Store.Users.{User, is_enabled_admin, list_users}
use diyddns.Service.Checkin.{IpChangeEvent}
use diyddns.Stale.Window.{
  window, expires_at, first_rung, due_rung, Kind, warning, removed, Audience, owner, admin,
  recipients_for,
}
use diyddns.Server.Fanout.{Confirmed, expire_addresses}
use diyddns.Server.Notices.{
  Notice, Effect, owner_mail, admin_mail, dispatched, present, confirmed_at, warn_level, survivors,
  surviving_after, Acted, send_owner, spread, delivered_to, deliver, after, and_then, removal,
  nothing, notify_removed, warned,
}

-- The columns that the query of the candidates reads.
abbrev pub scan_candidate : DeviceRow → Device
scan_candidate r = record {
  id = r.id;
  user_id = r.user_id;
  label = r.label;
  secret_hash = "";
  current_ipv4 = scan_string r.current_ipv4;
  current_ipv6 = scan_string r.current_ipv6;
  hostname = "";
  os = "";
  client_version = "";
  last_seen_at = 0;
  disabled = false;
  created_at = 0;
  updated_at = 0;
  v4_confirmed_at = scan_int64 r.v4_confirmed_at;
  v6_confirmed_at = scan_int64 r.v6_confirmed_at;
  v4_warn_level = r.v4_warn_level;
  v6_warn_level = r.v6_warn_level;
}

-- JOIN users u ON u.id = d.user_id, with u.disabled = 0
abbrev pub enabled_owner : List UserRow → DeviceRow → Bool
enabled_owner [] r = false
enabled_owner (u ∷ us) r =
    let rest = enabled_owner us r in str_eq u.id r.user_id && not u.disabled || rest

-- The WHERE of the candidates' query, for the bound that both placeholders bind.
abbrev pub is_candidate : ℤ → DeviceRow → Bool
is_candidate bound r =
    not r.disabled
    && (not (is_null r.current_ipv4) && leb_ℤ (pos (scan_int64 r.v4_confirmed_at)) bound
        || not (is_null r.current_ipv6) && leb_ℤ (pos (scan_int64 r.v6_confirmed_at)) bound)

-- Phase 1.
unfoldable pub candidates : ℕ → ℕ → Sql (List Device)
unfolding first_rung
candidates expire_after_days now = statement λ t. (
  ok (
      map scan_candidate (
        order_by (λ (r : DeviceRow). r.id)
          (select
            (λ r.
              enabled_owner t.users r && is_candidate (sub_ℕ now (first_rung expire_after_days)) r)
            t.devices))),
  t,
)

abbrev pub advanced : Result Bool → Device → ℕ → ℕ → ℕ → ℕ → Db → Acted
advanced (err e) c family due w now db = record { result = err e; effects = []; end = db }
advanced (ok false) c family due w now db = nothing db
advanced (ok true) c family due w now db = deliver c (warned c family due w now) db

-- The body of the loop of `warn`, for one family.
unfoldable pub warn_family : Device → ℕ → ℕ → ℕ → Db → Acted
warn_family c w now family db =
    let due = due_rung w (sub_ℕ now (confirmed_at c family)) in
    let level = warn_level c family in
    if not (present c family)
    then nothing db
    else if leb due level
    then nothing db
    else let (r, db') =
        advance_warn_level c.id family due level c.v4_confirmed_at c.v6_confirmed_at now db in
      advanced r c family due w now db'

-- `warn`
unfoldable pub warn : Device → ℕ → ℕ → Db → Acted
warn c w now db = and_then (warn_family c w now 4 db) (warn_family c w now 6)

abbrev pub expired : Result (Bool × List IpChangeEvent) → Device → Bool → Bool → ℕ → Db → Acted
expired (err e) c v4_due v6_due now db = record { result = err e; effects = []; end = db }
expired (ok (false, events)) c v4_due v6_due now db = nothing db
expired (ok (true, events)) c v4_due v6_due now db =
    after [] (map dispatched events) (notify_removed c v4_due v6_due now db)

abbrev pub is_due : Device → ℕ → ℕ → ℕ → Bool
is_due c w now family = present c family && leb (expires_at (confirmed_at c family) w) now

-- `act`
unfoldable pub act : Device → ℕ → ℕ → Db → Acted
unfolding window
act c expire_after_days now db =
    let w = window expire_after_days in
    let v4_due = is_due c w now 4 in
    let v6_due = is_due c w now 6 in
    if v4_due || v6_due
    then (let (r, db') =
          expire_addresses c v4_due v6_due
            (record { v4 = c.v4_confirmed_at; v6 = c.v6_confirmed_at }) db in
        expired r c v4_due v6_due now db')
    else warn c w now db

pub data Ended : Type 0 where
  swept shut_down : Ended
  failed : Error → Ended

abbrev send_digest : List Notice → Result (List User) → List Effect
send_digest ns (err e) = []
send_digest ns (ok us) = map (λ (u : User). admin_mail u.email ns) (select is_enabled_admin us)

-- `SendAdminDigest`; the users come ORDER BY email.
unfoldable pub send_admin_digest : List Notice → Db → List Effect × Db
send_admin_digest [] db = ([], db)
send_admin_digest (n ∷ ns) db = let (us, db') = list_users db in (send_digest (n ∷ ns) us, db')

abbrev pub notices_of : Result (List Notice) → List Notice
notices_of (ok ns) = ns
notices_of (err e) = []

-- Phase 2: `meanwhile` is what others do to the tables before the next device, and whether the
-- context is done by then.
unfoldable pub sweep_loop :
    ℕ
    → ℕ
    → List (Bool × (Tables → Tables))
    → List Notice
    → List Device
    → Db
    → Ended × List Effect × Db
sweep_loop days now meanwhile digest [] db =
    let (es, db') = send_admin_digest digest db in (swept, es, db')
sweep_loop days now [] digest (c ∷ cs) db =
    let a = act c days now db in
    let (ended, es, db') = sweep_loop days now [] (digest ++ notices_of a.result) cs a.end in
    (ended, a.effects ++ es, db')
sweep_loop days now ((done, others) ∷ meanwhile) digest (c ∷ cs) db =
    let a = act c days now (record db { tables = others db.tables }) in
    let (ended, es, db') = sweep_loop days now meanwhile (digest ++ notices_of a.result) cs a.end in
    if done
    then (shut_down, [], record db { tables = others db.tables })
    else (ended, a.effects ++ es, db')

abbrev pub swept_over :
    ℕ → ℕ → List (Bool × (Tables → Tables)) → Result (List Device) → Db → Ended × List Effect × Db
swept_over days now meanwhile (err e) db = (failed e, [], db)
swept_over days now meanwhile (ok cs) db = sweep_loop days now meanwhile [] cs db

-- `Run`
unfoldable pub run_sweep : ℕ → ℕ → List (Bool × (Tables → Tables)) → Db → Ended × List Effect × Db
run_sweep days now meanwhile db =
    let (cs, db') = candidates days now db in swept_over days now meanwhile cs db'

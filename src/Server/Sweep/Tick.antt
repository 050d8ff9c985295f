-- ===== src/Server/Sweep/Tick.antt =====
-- A tick of the sweep (internal/server/sweep.go).
use diyddns.Prelude.{
  ℕ, Bool, true, false, not, ◌||◌, ◌≡◌, refl, sym, subst, if◌then◌else◌, Option, none, some, List,
  [], leb,
}
use diyddns.Prelude.Int.{sub_ℕ}
use diyddns.Store.Db.{Result, ok, err, Tables, Db, pure, now_unix}
use diyddns.Store.Db.Moves.{Moves-bind}
use diyddns.Store.Devices.Rows.{Device}
use diyddns.Store.Devices.Expiry.{advance_warn_level, expire_families}
use diyddns.Store.Users.{User, get_user_by_id}
use diyddns.Service.Checkin.{IpChangeEvent}
use diyddns.Stale.Window.{window, due_rung}
use diyddns.Server.Fanout.{expired_event, expire_addresses}
use diyddns.Server.Notices.{
  Notice, Effect, Acted, present, confirmed_at, warn_level, delivered_to, deliver, and_then,
  nothing, removal, notify_removed, warned,
}
use diyddns.Server.Sweep.{is_due, advanced, warn_family, warn, expired, act}
use diyddns.Server.Sweep.Keep.{KeptAll, KeptAll-same, KeptAll-trans}
use diyddns.Server.Sweep.Quiet.{
  Quiet, get_user_by_id-Quiet, bump-Quiet, expire_families-Quiet, advance_warn_level-Quiet,
}

module _ (w now : ℕ) where
  abbrev Steady : (Db → Acted) → Type 0
  Steady f = (db : Db) → KeptAll w now db.tables (f db).end.tables

  end-delivered_to : (r : Result User) (n : Notice) (db : Db) → (delivered_to r n db).end ≡ db
  end-delivered_to (ok u) n db = refl
  end-delivered_to (err e) n db = refl

  deliver-Steady : (c : Device) (n : Notice) → Steady (deliver c n)
  unfolding deliver
  deliver-Steady c n db =
      let read = get_user_by_id c.user_id db in
      subst (λ (d : Db). KeptAll w now db.tables d.tables) (sym (end-delivered_to read.0 n read.1))
        (get_user_by_id-Quiet w now c.user_id db)

  and_then-Steady :
      (start : Tables) (a : Acted) (k : Db → Acted)
      → KeptAll w now start a.end.tables
      → Steady k
      → KeptAll w now start (and_then a k).end.tables
  and_then-Steady start a k ha hk = went a.result a.effects a.end ha
    where
      went :
          (r : Result (List Notice)) (es : List Effect) (mid : Db)
          → KeptAll w now start mid.tables
          → KeptAll w now start
              (and_then (record { result = r; effects = es; end = mid }) k).end.tables
      went (ok ns) es mid h = KeptAll-trans w now start mid.tables (k mid).end.tables h (hk mid)
      went (err e) es mid h = h

  optional-Steady :
      (b : Bool) (f : Db → Acted) → Steady f → Steady (λ db. if b then f db else nothing db)
  optional-Steady true f h db = h db
  optional-Steady false f h db = KeptAll-same w now db.tables

  notify_removed-Steady :
      (c : Device) (v4_due v6_due : Bool) → Steady (notify_removed c v4_due v6_due now)
  unfolding notify_removed
  notify_removed-Steady c v4_due v6_due db =
      let four = deliver c (removal c v4_due v6_due now 4) in
      let six = deliver c (removal c v4_due v6_due now 6) in
      and_then-Steady db.tables (if v4_due then four db else nothing db)
        (λ x. if v6_due then six x else nothing x)
        (optional-Steady v4_due four (deliver-Steady c (removal c v4_due v6_due now 4)) db)
        (optional-Steady v6_due six (deliver-Steady c (removal c v4_due v6_due now 6)))

  advanced-Steady :
      (r : Result Bool) (c : Device) (family due : ℕ) → Steady (advanced r c family due w now)
  advanced-Steady (err e) c family due db = KeptAll-same w now db.tables
  advanced-Steady (ok false) c family due db = KeptAll-same w now db.tables
  advanced-Steady (ok true) c family due db = deliver-Steady c (warned c family due w now) db

  warn_family-Steady : (c : Device) (family : ℕ) → Steady (warn_family c w now family)
  unfolding warn_family
  warn_family-Steady c family db = checked (present c family) (leb due (warn_level c family))
    where
      due : ℕ
      due = due_rung w (sub_ℕ now (confirmed_at c family))

      step : Result Bool × Db
      step =
          advance_warn_level c.id family due (warn_level c family) c.v4_confirmed_at
            c.v6_confirmed_at now db

      checked :
          (there old : Bool)
          → KeptAll w now db.tables
              (if not there
                then nothing db
                else if old
                then nothing db
                else advanced step.0 c family due w now step.1).end.tables
      checked false old = KeptAll-same w now db.tables
      checked true true = KeptAll-same w now db.tables
      checked true false =
          KeptAll-trans w now db.tables step.1.tables
            (advanced step.0 c family due w now step.1).end.tables
            (advance_warn_level-Quiet w now c.id family due (warn_level c family) c.v4_confirmed_at
              c.v6_confirmed_at now db)
            (advanced-Steady step.0 c family due step.1)

  warn-Steady : (c : Device) → Steady (warn c w now)
  unfolding warn
  warn-Steady c db =
      and_then-Steady db.tables (warn_family c w now 4 db) (warn_family c w now 6)
        (warn_family-Steady c 4 db) (warn_family-Steady c 6)

  expired-Steady :
      (r : Result (Bool × List IpChangeEvent)) (c : Device) (v4_due v6_due : Bool)
      → Steady (expired r c v4_due v6_due now)
  expired-Steady (err e) c v4_due v6_due db = KeptAll-same w now db.tables
  expired-Steady (ok (false, events)) c v4_due v6_due db = KeptAll-same w now db.tables
  expired-Steady (ok (true, events)) c v4_due v6_due db = notify_removed-Steady c v4_due v6_due db

  expire_addresses-Quiet :
      (c : Device)
      → Quiet w now (
          expire_addresses c
            (is_due c w now 4)
            (is_due c w now 6)
            (record { v4 = c.v4_confirmed_at; v6 = c.v6_confirmed_at }))
  unfolding expire_addresses now_unix expired_event
  expire_addresses-Quiet c db =
      let v4_due = is_due c w now 4 in
      let v6_due = is_due c w now 6 in
      Moves-bind (KeptAll w now) (KeptAll-same w now) (KeptAll-trans w now)
        (expire_families c.id v4_due v6_due c.v4_confirmed_at c.v6_confirmed_at db.clock)
        (λ history_id. elim history_id [
          | none ↦ pure (false, [])
          | some n ↦ expired_event c v4_due v6_due db.clock n
        ])
        (expire_families-Quiet w now c db.clock) told db
    where
      told :
          (o : Option ℕ)
          → Quiet w now {A = Bool × List IpChangeEvent} (elim o [
            | none ↦ pure (false, [])
            | some n ↦ expired_event c (is_due c w now 4) (is_due c w now 6) db.clock n
          ])
      told none d = KeptAll-same w now d.tables
      told (some n) d = bump-Quiet w now db.clock d

-- Whatever was read of a device, and whatever has happened to it since, acting on it does to every row
-- of the table no more than this: its id, secret, enabling and confirmations stay, and an address of
-- it that is gone was last confirmed, by what the row says at that moment, a whole window ago.
pub act-KeptAll :
    (c : Device) (days now : ℕ) (db : Db)
    → KeptAll (window days) now db.tables (act c days now db).end.tables
unfolding act
act-KeptAll c days now db = chosen (is_due c w now 4 || is_due c w now 6)
  where
    w : ℕ
    w = window days

    cleared : Result (Bool × List IpChangeEvent) × Db
    cleared =
        expire_addresses c (is_due c w now 4) (is_due c w now 6)
          (record { v4 = c.v4_confirmed_at; v6 = c.v6_confirmed_at }) db

    chosen :
        (b : Bool)
        → KeptAll w now db.tables
            (if b
              then expired cleared.0 c (is_due c w now 4) (is_due c w now 6) now cleared.1
              else warn c w now db).end.tables
    chosen true =
        KeptAll-trans w now db.tables cleared.1.tables
          (expired cleared.0 c (is_due c w now 4) (is_due c w now 6) now cleared.1).end.tables
          (expire_addresses-Quiet w now c db)
          (expired-Steady w now cleared.0 c (is_due c w now 4) (is_due c w now 6) cleared.1)
    chosen false = warn-Steady w now c db

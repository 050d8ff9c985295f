-- ===== src/Server/Sweep/Whole.antt =====
-- A whole tick of the sweep (internal/server/sweep.go).
use diyddns.Prelude.{
  ℕ, Bool, true, false, ◌≡◌, refl, sym, subst, List, [], ◌∷◌, ◌++◌, All, map, select, ◌&&◌,
}
use diyddns.Store.Order.{order_by}
use diyddns.Store.Users.{list_users, scan_user}
use diyddns.Store.Db.{UserRow, Result, ok, err, DeviceRow, Tables, Db}
use diyddns.Store.Db.Laws.{tables-statement}
use diyddns.Store.Devices.Rows.{Device}
use diyddns.Stale.Window.{window, first_rung}
use diyddns.Prelude.Int.{sub_ℕ}
use diyddns.Server.Notices.{Notice}
use diyddns.Server.Sweep.{
  act, scan_candidate, enabled_owner, is_candidate, candidates, notices_of, send_admin_digest,
  sweep_loop, swept_over, run_sweep,
}
use diyddns.Server.Sweep.Keep.{KeptAll, KeptAll-same, KeptAll-trans}
use diyddns.Server.Sweep.Tick.{act-KeptAll}

tables-candidates : (days now : ℕ) (db : Db) → (candidates days now db).1.tables ≡ db.tables
unfolding candidates
tables-candidates days now db =
    tables-statement
      (λ t. ok (
        map scan_candidate (
          order_by (λ (r : DeviceRow). r.id)
            (select (λ r. enabled_owner t.users r && is_candidate (sub_ℕ now (first_rung days)) r)
              t.devices))))
      db

tables-send_admin_digest :
    (ns : List Notice) (db : Db) → (send_admin_digest ns db).1.tables ≡ db.tables
unfolding send_admin_digest list_users
tables-send_admin_digest [] db = refl
tables-send_admin_digest (n ∷ ns) db =
    tables-statement (λ t. ok (map scan_user (order_by (λ (u : UserRow). u.email) t.users))) db

module _ (days now : ℕ) where
  -- What others write between two devices.
  abbrev pub Gentle : Bool × (Tables → Tables) → Type 0
  Gentle (done, others) = (t : Tables) → KeptAll (window days) now t (others t)

  sweep_loop-KeptAll :
      (meanwhile : List (Bool × (Tables → Tables))) (digest : List Notice) (cs : List Device)
      (db : Db)
      → All Gentle meanwhile
      → KeptAll (window days) now db.tables (sweep_loop days now meanwhile digest cs db).2.tables
  unfolding sweep_loop
  sweep_loop-KeptAll meanwhile digest [] db g =
      subst (KeptAll (window days) now db.tables) (sym (tables-send_admin_digest digest db))
        (KeptAll-same (window days) now db.tables)
  sweep_loop-KeptAll [] digest (c ∷ cs) db g =
      let a = act c days now db in
      KeptAll-trans (window days) now db.tables a.end.tables
        (sweep_loop days now [] (digest ++ notices_of a.result) cs a.end).2.tables
        (act-KeptAll c days now db)
        (sweep_loop-KeptAll [] (digest ++ notices_of a.result) cs a.end g)
  sweep_loop-KeptAll ((true, others) ∷ meanwhile) digest (c ∷ cs) db g = g.0 db.tables
  sweep_loop-KeptAll ((false, others) ∷ meanwhile) digest (c ∷ cs) db g =
      let start = record db { tables = others db.tables } in
      let a = act c days now start in
      let end = (sweep_loop days now meanwhile (digest ++ notices_of a.result) cs a.end).2.tables in
      KeptAll-trans (window days) now db.tables start.tables end (g.0 db.tables) (
        KeptAll-trans (window days) now start.tables a.end.tables end (act-KeptAll c days now start)
          (sweep_loop-KeptAll meanwhile (digest ++ notices_of a.result) cs a.end g.1))

-- A whole tick, wherever it is stopped and whatever fails in it, and while others write only what it
-- may write itself: every row keeps its id, secret, enabling and confirmations, and an address that is
-- gone at the end was last confirmed a whole window before.
pub run_sweep-KeptAll :
    (days now : ℕ) (meanwhile : List (Bool × (Tables → Tables))) (db : Db)
    → All (Gentle days now) meanwhile
    → KeptAll (window days) now db.tables (run_sweep days now meanwhile db).2.tables
unfolding run_sweep
run_sweep-KeptAll days now meanwhile db g =
    let read = candidates days now db in
    subst (λ t. KeptAll (window days) now t (swept_over days now meanwhile read.0 read.1).2.tables)
      (tables-candidates days now db) (swept read.0 read.1)
  where
    swept :
        (r : Result (List Device)) (mid : Db)
        → KeptAll (window days) now mid.tables (swept_over days now meanwhile r mid).2.tables
    swept (ok cs) mid = sweep_loop-KeptAll days now meanwhile [] cs mid g
    swept (err e) mid = KeptAll-same (window days) now mid.tables

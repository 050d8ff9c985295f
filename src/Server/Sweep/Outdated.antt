-- ===== src/Server/Sweep/Outdated.antt =====
-- The sweep leaves a device alone that has confirmed since it was read (internal/server/sweep.go).
use diyddns.Prelude.{
  ℕ, Bool, true, false, not, ◌&&◌, ◌||◌, ◌≡◌, ◌⊎◌, inl, inr, refl, sym, ap, ◌∙◌, subst,
  if◌then◌else◌, Option, none, some, List, [], ◌++◌, leb, ◌==◌, length, exists, exists-stronger,
  update_where-exists, select-exists, arith,
}
use diyddns.Prelude.Int.{sub_ℕ}
use diyddns.Store.Db.{
  Error, Result, ok, err, driver, DeviceRow, Tables, Db, Sql, statement, pure, has_id, now_unix,
  continue,
}
use diyddns.Store.Db.Laws.{
  statement_cases, statement_ok, bind_ok, ok-injective, Commits, transaction_unless_none-Commits,
}
use diyddns.Store.Devices.Rows.{Device}
use diyddns.Store.Devices.Expiry.{
  pinned, expirable, warnable, set_level, update_counted, advance_warn_level, clear_due,
  record_expiry, expire_body, expire_families,
}
use diyddns.Service.Checkin.{IpChangeEvent}
use diyddns.Stale.Window.{window, due_rung}
use diyddns.Server.Fanout.{expired_event, expire_addresses}
use diyddns.Server.Notices.{
  Notice, Effect, Acted, present, confirmed_at, warn_level, and_then, nothing,
}
use diyddns.Server.Sweep.{is_due, advanced, warn_family, warn, expired, act}

-- The row of the device still carries the confirmations that were read.
abbrev pub unchanged_since : Device → DeviceRow → Bool
unchanged_since c r = has_id c.id r && pinned c.v4_confirmed_at c.v6_confirmed_at r

abbrev pub Outdated : Device → Tables → Type 0
Outdated c t = exists (unchanged_since c) t.devices ≡ false

-- Nothing was sent and no table changed.
abbrev pub Idle : Tables → Acted → Type 0
Idle start a = (a.effects ≡ []) × (a.end.tables ≡ start)

module _ (c : Device) where
  module _ (v4_due v6_due : Bool) where
    abbrev expiring : DeviceRow → Bool
    expiring = expirable c.id v4_due v6_due c.v4_confirmed_at c.v6_confirmed_at

    none_expiring : (t : Tables) → Outdated c t → exists expiring t.devices ≡ false
    none_expiring t h =
        exists-stronger expiring (unchanged_since c) t.devices (λ r e. ground arith) h

    body-Outdated :
        (t : ℕ) (start : Db) (a : ℕ)
        → Outdated c start.tables
        → (expire_body c.id v4_due v6_due c.v4_confirmed_at c.v6_confirmed_at t start).0
          ≡ ok (some a)
        → ⊥
    unfolding expire_body clear_due
    body-Outdated t start a h e =
        let clear = clear_due c.id v4_due v6_due c.v4_confirmed_at c.v6_confirmed_at t in
        let rest : Bool → Sql (Option ℕ) =
          λ changed. if changed then record_expiry c.id t else pure none in
        let (changed, cleared, after, _) = bind_ok (statement clear) rest start (some a) e in
        let is = ok-injective (statement_ok clear start changed cleared).0 in
        decided changed (statement clear start).1 (sym is ∙ none_expiring start.tables h) after
      where
        decided :
            (b : Bool) (d : Db)
            → b ≡ false
            → ((if b then record_expiry c.id t else pure none) d).0 ≡ ok (some a)
            → ⊥
        decided true d x y = absurd (ground arith)
        decided false d x y = absurd (ground arith)

    expire_families-Outdated :
        (t : ℕ) (db : Db)
        → Outdated c db.tables
        → let (r, end) =
            expire_families c.id v4_due v6_due c.v4_confirmed_at c.v6_confirmed_at t db in
          ((r ≡ ok none) ⊎ (e : Error) × (r ≡ err e)) × (end.tables ≡ db.tables)
    unfolding expire_families
    expire_families-Outdated t db h =
        let body = expire_body c.id v4_due v6_due c.v4_confirmed_at c.v6_confirmed_at t in
        let run = expire_families c.id v4_due v6_due c.v4_confirmed_at c.v6_confirmed_at t db in
        settled run.0 run.1 (transaction_unless_none-Commits db body)
      where
        settled :
            (r : Result (Option ℕ)) (end : Db)
            → Commits db
                (expire_body c.id v4_due v6_due c.v4_confirmed_at c.v6_confirmed_at t)
                (r, end)
            → ((r ≡ ok none) ⊎ (e : Error) × (r ≡ err e)) × (end.tables ≡ db.tables)
        settled (ok (some a)) end (start, s, e, _) =
            absurd (body-Outdated t start a (subst (Outdated c) (sym s) h) e)
        settled (ok none) end (start, s, _, e) = (inl refl, e)
        settled (err x) end (_, e) = (inr (x, refl), e)

    expired-Idle :
        (start : Tables) (now t : ℕ) (r : Result (Option ℕ)) (db : Db)
        → (r ≡ ok none) ⊎ (e : Error) × (r ≡ err e)
        → db.tables ≡ start
        → let told : Option ℕ → Sql (Bool × List IpChangeEvent) =
            λ o. elim o [ none ↦ pure (false, []) | some n ↦ expired_event c v4_due v6_due t n ] in
          let out = continue r told db in Idle start (expired out.0 c v4_due v6_due now out.1)
    expired-Idle start now t (ok none) db h e = (refl, e)
    expired-Idle start now t (ok (some n)) db (inl x) e = absurd (ground arith)
    expired-Idle start now t (ok (some n)) db (inr (y, x)) e = absurd (ground arith)
    expired-Idle start now t (err x) db h e = (refl, e)

  module _ (w now : ℕ) where
    abbrev warning_row : ℕ → DeviceRow → Bool
    warning_row family =
        warnable c.id family (warn_level c family) c.v4_confirmed_at c.v6_confirmed_at

    none_warning :
        (family : ℕ) (t : Tables) → Outdated c t → exists (warning_row family) t.devices ≡ false
    none_warning family t h =
        exists-stronger (warning_row family) (unchanged_since c) t.devices (λ r e. ground arith) h

    advance-Outdated :
        (family level : ℕ) (db : Db)
        → Outdated c db.tables
        → let (r, end) =
            advance_warn_level c.id family level
              (warn_level c family)
              c.v4_confirmed_at
              c.v6_confirmed_at
              now
              db in
          ((r ≡ ok false) ⊎ (e : Error) × (r ≡ err e)) × (end.tables ≡ db.tables)
    unfolding advance_warn_level
    advance-Outdated family level db h =
        let none = none_warning family db.tables h in
        let f = set_level family level now in
        let update = update_counted (warning_row family) f in
        let same : (update db.tables).1 ≡ db.tables =
          ap (λ ds. record (db.tables) { devices = ds })
            (update_where-exists (warning_row family) f db.tables.devices none) in
        let count : (update db.tables).0 ≡ ok false =
          ap (λ rows. ok (length rows == 1))
            (select-exists (warning_row family) db.tables.devices none) in
        elim (statement_cases {0} update db) [
          | inl (e, t) ↦ (inr (driver, e), t)
          | inr (e, t) ↦ (inl (e ∙ count), t ∙ same)
        ]

    advanced-Idle :
        (start : Tables) (r : Result Bool) (family due : ℕ) (db : Db)
        → (r ≡ ok false) ⊎ (e : Error) × (r ≡ err e)
        → db.tables ≡ start
        → Idle start (advanced r c family due w now db)
    advanced-Idle start (err x) family due db h e = (refl, e)
    advanced-Idle start (ok false) family due db h e = (refl, e)
    advanced-Idle start (ok true) family due db (inl x) e = absurd (ground arith)
    advanced-Idle start (ok true) family due db (inr (y, x)) e = absurd (ground arith)

    warn_family-Outdated :
        (family : ℕ) (db : Db)
        → Outdated c db.tables
        → Idle db.tables (warn_family c w now family db)
    unfolding warn_family
    warn_family-Outdated family db h = checked (present c family) (leb due (warn_level c family))
      where
        due : ℕ
        due = due_rung w (sub_ℕ now (confirmed_at c family))

        step : Result Bool × Db
        step =
            advance_warn_level c.id family due (warn_level c family) c.v4_confirmed_at
              c.v6_confirmed_at now db

        checked :
            (there old : Bool)
            → Idle db.tables (
                if not there
                then nothing db
                else if old
                then nothing db
                else advanced step.0 c family due w now step.1)
        checked false old = (refl, refl)
        checked true true = (refl, refl)
        checked true false =
            let (r, t) = advance-Outdated family due db h in
            advanced-Idle db.tables step.0 family due step.1 r t

    and_then-Idle :
        (start : Tables) (a : Acted) (k : Db → Acted)
        → Idle start a
        → ((db : Db) → db.tables ≡ start → Idle start (k db))
        → Idle start (and_then a k)
    and_then-Idle start a k h hk = went a.result a.effects a.end h.0 h.1
      where
        went :
            (r : Result (List Notice)) (es : List Effect) (mid : Db)
            → es ≡ []
            → mid.tables ≡ start
            → Idle start (and_then (record { result = r; effects = es; end = mid }) k)
        went (ok ns) es mid e t =
            let (quiet, kept) = hk mid t in (ap (λ xs. xs ++ (k mid).effects) e ∙ quiet, kept)
        went (err x) es mid e t = (e, t)

    warn-Outdated : (db : Db) → Outdated c db.tables → Idle db.tables (warn c w now db)
    unfolding warn
    warn-Outdated db h =
        and_then-Idle db.tables (warn_family c w now 4 db) (warn_family c w now 6)
          (warn_family-Outdated 4 db h)
          (λ mid e.
            let (quiet, kept) = warn_family-Outdated 6 mid (subst (Outdated c) (sym e) h) in
            (quiet, kept ∙ e))

-- Where no row of the device carries both of the confirmations that were read any more, acting on it
-- sends no mail and no event and changes no table, whether it was to be warned or to lose an address.
pub act-Outdated :
    (c : Device) (days now : ℕ) (db : Db)
    → Outdated c db.tables
    → Idle db.tables (act c days now db)
unfolding act expire_addresses now_unix
act-Outdated c days now db h = chosen (v4_due || v6_due)
  where
    v4_due : Bool
    v4_due = is_due c (window days) now 4

    v6_due : Bool
    v6_due = is_due c (window days) now 6

    cleared : Result (Bool × List IpChangeEvent) × Db
    cleared =
        expire_addresses c v4_due v6_due (record { v4 = c.v4_confirmed_at; v6 = c.v6_confirmed_at })
          db

    chosen :
        (b : Bool)
        → Idle db.tables (
            if b
            then expired cleared.0 c v4_due v6_due now cleared.1
            else warn c (window days) now db)
    chosen true =
        let run =
          expire_families c.id v4_due v6_due c.v4_confirmed_at c.v6_confirmed_at db.clock db in
        let (r, t) = expire_families-Outdated c v4_due v6_due db.clock db h in
        expired-Idle c v4_due v6_due db.tables now db.clock run.0 run.1 r t
    chosen false = warn-Outdated c (window days) now db h

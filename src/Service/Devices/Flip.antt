-- ===== src/Service/Devices/Flip.antt =====
-- A flip of a device's flag fires the events of the feed's change (internal/server/service/feed.go).
use diyddns.Prelude.{
  ℕ, String, Bool, true, false, ◌≡◌, refl, sym, ap, ◌∙◌, subst, List, [], ◌∷◌, ◌++◌, some, str_eq,
  eq_iff, if◌then◌else◌, find_where, find_where-exists, exists_unique, All, All-find_where, if-both,
}
use diyddns.Store.Db.{Error, Result, ok, err, UserRow, DeviceRow, Tables, Db, Sql, now_unix, has_id}
use diyddns.Store.Users.{User, scan_user, has_user_id, get_user_by_id}
use diyddns.Store.Users.Laws.{get_user_by_id_ok, tables-get_user_by_id}
use diyddns.Store.Devices.Rows.{Device, scan_device}
use diyddns.Store.Devices.Writes.{get_by_id, set_disabled}
use diyddns.Store.Devices.Writes.Laws.{
  update_device_ok, update_device_err, get_by_id_ok, tables-get_by_id,
}
use diyddns.Store.Devices.Lists.{in_feed_query}
use diyddns.Store.Audit.{AuditEntry, entry, log}
use diyddns.Store.Audit.Laws.{log_frame}
use diyddns.Service.Membership.{
  Membership, added, removed, in_feed, Fires, lift, proceed, ◌>>=◌, emit_membership, flip_disabled,
}
use diyddns.Service.Membership.Feed.{Texts, Keyed, in_feed-in_feed_query, feed_has, replay}
use diyddns.Service.Devices.{owned_device, owned_by, set_enabled}
use diyddns.Service.Devices.Follows.{
  Spares, Follows, flagged, same_feed, feed-flagged, replay-emit, emit-Spares,
}

replay-append_nil :
    (events : List Membership) (known : String → Bool) (id : String)
    → replay (events ++ []) known id ≡ replay events known id
replay-append_nil [] known id = refl
replay-append_nil (added d ∷ events) known id =
    replay-append_nil events (λ i. if str_eq i d.id then true else known i) id
replay-append_nil (removed d ∷ events) known id =
    replay-append_nil events (λ i. if str_eq i d.id then false else known i) id

-- Events never fail the call that fires them.
emit_then :
    {A : Type 0} (notify : Membership → Db → Db) (d : Device) (before after : Bool) (m : Sql A)
    (db : Db)
    → let run = (emit_membership notify d before after >>= λ _. lift m) db in
      (run.end ≡ (m (emit_membership notify d before after db).end).1)
      × (run.events ≡ (emit_membership notify d before after db).events ++ [])
unfolding emit_membership
emit_then notify d false true m db = (refl, refl)
emit_then notify d true false m db = (refl, refl)
emit_then notify d false false m db = (refl, refl)
emit_then notify d true true m db = (refl, refl)

-- What the UPDATE of the flag does.
set_disabled_ok :
    (id : String) (disabled : Bool) (db : Db)
    → (set_disabled id disabled db).0 ≡ ok tt
    → (set_disabled id disabled db).1.tables ≡ flagged id disabled db.clock db.tables
unfolding set_disabled now_unix
set_disabled_ok id disabled db h =
    let (_, wrote) =
      update_device_ok id (λ r. record r { disabled = disabled; updated_at = db.clock }) db tt h in
    wrote

set_disabled_err :
    (id : String) (disabled : Bool) (db : Db) (e : Error)
    → (set_disabled id disabled db).0 ≡ err e
    → (set_disabled id disabled db).1.tables ≡ db.tables
unfolding set_disabled now_unix
set_disabled_err id disabled db e h =
    update_device_err id (λ r. record r { disabled = disabled; updated_at = db.clock }) db e h

module _ (notify : Membership → Db → Db) (spares : Spares notify) (db : Db) (row : DeviceRow)
    (owner : UserRow) (keyed : Keyed db.tables)
    (found : find_where (has_id row.id) db.tables.devices ≡ some row) (texts : Texts row)
    (owned : find_where (has_user_id row.user_id) db.tables.users ≡ some owner) (disabled : Bool)
    (e : AuditEntry) where
  abbrev after : Device
  after = record (scan_device row) { disabled = disabled }

  abbrev was : Bool
  was = in_feed (scan_device row) (scan_user owner)

  abbrev becomes : Bool
  becomes = in_feed after (scan_user owner)

  -- The feed knew of the device what the predicate says of it.
  was_known : feed_has db.tables row.id ≡ was
  was_known =
      exists_unique (has_id row.id) (in_feed_query db.tables.users) db.tables.devices row
        (keyed.0 row.id) found
      ∙ in_feed-in_feed_query db.tables.users row owner (keyed.1 row.user_id) owned texts

  becomes_known :
      (now : ℕ)
      → in_feed_query db.tables.users (record row { disabled = disabled; updated_at = now })
        ≡ becomes
  unfolding in_feed scan_device
  becomes_known now =
      in_feed-in_feed_query db.tables.users (record row { disabled = disabled; updated_at = now })
        owner (keyed.1 row.user_id) owned texts

  -- From the audit entry on, in a state whose tables are those that the UPDATE wrote.
  rest-Follows :
      (mid : Db)
      → mid.tables ≡ flagged row.id disabled db.clock db.tables
      → let rest : Fires Device = lift (log e) >>= λ _.
          emit_membership notify after was becomes >>= λ _. lift (get_by_id row.id) in
        Follows db.tables (rest mid)
  unfolding scan_device log
  rest-Follows mid wrote i =
      let (_, (_, _, logged)) = log_frame e mid in
      let d2 = (log e mid).1 in
      let d3 = (emit_membership notify after was becomes d2).end in
      let (kept_devices, kept_users) = emit-Spares notify spares after was becomes d2 in
      let (ends, fires) = emit_then notify after was becomes (get_by_id row.id) d2 in
      let read = tables-get_by_id row.id d3 in
      let wrote_devices : (get_by_id row.id d3).1.tables.devices
          ≡ (flagged row.id disabled db.clock db.tables).devices =
        ap (λ (t : Tables). t.devices) read
        ∙ kept_devices
        ∙ ap (λ (t : Tables). t.devices) logged
        ∙ ap (λ (t : Tables). t.devices) wrote in
      let wrote_users : (get_by_id row.id d3).1.tables.users ≡ db.tables.users =
        ap (λ (t : Tables). t.users) read
        ∙ kept_users
        ∙ ap (λ (t : Tables). t.users) logged
        ∙ ap (λ (t : Tables). t.users) wrote in
      ap (λ (d : Db). feed_has d.tables i) ends
      ∙ same_feed (flagged row.id disabled db.clock db.tables) (get_by_id row.id d3).1.tables
          wrote_devices wrote_users i
      ∙ feed-flagged db.tables row.id row found (keyed.0 row.id) disabled db.clock i
      ∙ ap (λ b. if str_eq i row.id then b else feed_has db.tables i) (becomes_known db.clock)
      ∙ sym (replay-emit notify after was becomes d2 (feed_has db.tables) was_known i)
      ∙ sym (
          replay-append_nil (emit_membership notify after was becomes d2).events
            (feed_has db.tables) i)
      ∙ sym (ap (λ es. replay es (feed_has db.tables) i) fires)

  -- The whole flip, whichever statement fails.
  pub flip_disabled-Follows :
      Follows db.tables (flip_disabled notify (scan_device row) (scan_user owner) disabled e db)
  unfolding flip_disabled scan_device
  flip_disabled-Follows = flipped (set_disabled row.id disabled db).0 refl
    where
      mid : Db
      mid = (set_disabled row.id disabled db).1

      rest : Fires Device
      rest = lift (log e) >>= λ _.
          emit_membership notify after was becomes >>= λ _. lift (get_by_id row.id)

      flipped :
          (r : Result (Unit {0}))
          → (set_disabled row.id disabled db).0 ≡ r
          → Follows db.tables (proceed r (λ _. rest) mid)
      flipped (ok _) h = rest-Follows mid (set_disabled_ok row.id disabled db h)
      flipped (err x) h =
          λ i. ap (λ (t : Tables). feed_has t i) (set_disabled_err row.id disabled db x h)

-- The same from a state that a read has left.
from_read :
    {A : Type 0} (old : Tables) (db : Db) (run : Fires A)
    → db.tables ≡ old
    → Follows db.tables (run db)
    → Follows old (run db)
from_read old db run same h = subst (λ t. Follows t (run db)) same h

module _ (notify : Membership → Db → Db) (spares : Spares notify) where
  -- The calls after the device is read, of a device that the owner has.
  owned-Follows :
      (user_id id : String) (disabled : Bool) (db : Db) (row : DeviceRow) (e : AuditEntry)
      → Keyed db.tables
      → All Texts db.tables.devices
      → find_where (has_id id) db.tables.devices ≡ some row
      → Follows db.tables (
          (lift (get_user_by_id row.user_id) >>= λ owner.
          flip_disabled notify (scan_device row) owner disabled e)
            db)
  owned-Follows user_id id disabled db row e keyed texts found =
      owner_of (get_user_by_id row.user_id db).0 refl
    where
      mid : Db
      mid = (get_user_by_id row.user_id db).1

      same : mid.tables ≡ db.tables
      same = tables-get_user_by_id row.user_id db

      is : row.id ≡ id
      is = (eq_iff row.id id).0 (find_where-exists (has_id id) db.tables.devices row found).0

      owner_of :
          (r : Result User)
          → (get_user_by_id row.user_id db).0 ≡ r
          → Follows db.tables
              (proceed r (λ owner. flip_disabled notify (scan_device row) owner disabled e) mid)
      owner_of (err x) h = λ i. ap (λ (t : Tables). feed_has t i) same
      owner_of (ok usr) h =
          let (owner, owned, read) = get_user_by_id_ok row.user_id db usr h in
          let run = flip_disabled notify (scan_device row) (scan_user owner) disabled e in
          subst (λ u. Follows db.tables (flip_disabled notify (scan_device row) u disabled e mid))
            (sym read)
            (from_read db.tables mid run same (
              flip_disabled-Follows notify spares mid row owner (subst Keyed (sym same) keyed)
                (ap (λ (t : Tables). find_where (has_id row.id) t.devices) same
                  ∙ ap (λ i. find_where (has_id i) db.tables.devices) is
                  ∙ found)
                (All-find_where Texts (has_id id) db.tables.devices row texts found)
                (ap (λ (t : Tables). find_where (has_user_id row.user_id) t.users) same ∙ owned)
                disabled e))

  -- A consumer that applies the events of a call of SetEnabled, in order, to the feed as it was knows the
  -- feed as it is, for every device: whoever calls, and whichever statement of the call fails. Ids
  -- are keys, no address column is an empty text, and the notifier writes neither devices nor
  -- accounts.
  pub set_enabled-Follows :
      (user_id id : String) (disabled : Bool) (db : Db)
      → Keyed db.tables
      → All Texts db.tables.devices
      → Follows db.tables (set_enabled notify user_id id disabled db)
  unfolding set_enabled owned_device scan_device
  set_enabled-Follows user_id id disabled db keyed texts = read (get_by_id id db).0 refl
    where
      mid : Db
      mid = (get_by_id id db).1

      same : mid.tables ≡ db.tables
      same = tables-get_by_id id db

      e : AuditEntry
      e = entry user_id (if disabled then "device.disabled" else "device.enabled") "device" id

      rest : Device → Fires Device
      rest dev =
          lift (get_user_by_id dev.user_id) >>= λ owner. flip_disabled notify dev owner disabled e

      read :
          (r : Result Device)
          → (get_by_id id db).0 ≡ r
          → let owned = owned_by user_id (r, mid) in
            Follows db.tables (proceed owned.0 rest owned.1)
      read (err x) h = λ i. ap (λ (t : Tables). feed_has t i) same
      read (ok dev) h =
          let (row, found, is, _, _) = get_by_id_ok id db dev h in
          subst
            (λ d.
              let owned = owned_by user_id (ok d, mid) in
              Follows db.tables (proceed owned.0 rest owned.1))
            (sym is) (yours row found)
        where
          yours :
              (row : DeviceRow)
              → find_where (has_id id) db.tables.devices ≡ some row
              → let owned = owned_by user_id (ok (scan_device row), mid) in
                Follows db.tables (proceed owned.0 rest owned.1)
          yours row found =
              let P : Result Device × Db → Type 0 = λ o. Follows db.tables (proceed o.0 rest o.1) in
              if-both P (str_eq row.user_id user_id) _ _
                (from_read db.tables mid (rest (scan_device row)) same (
                  owned-Follows user_id id disabled mid row e (subst Keyed (sym same) keyed)
                    (subst (λ (t : Tables). All Texts t.devices) (sym same) texts)
                    (ap (λ (t : Tables). find_where (has_id id) t.devices) same ∙ found)))
                (λ i. ap (λ (t : Tables). feed_has t i) same)

-- ===== src/Service/Devices/Follows.antt =====
-- Whoever applies the events of an owner's call knows the feed (internal/server/service/device.go,
-- feed.go).
use diyddns.Prelude.{
  ℕ, ◌≤◌, String, Bool, true, false, ◌&&◌, ◌≡◌, refl, sym, ap, ◌∙◌, subst, List, [], ◌∷◌, some,
  str_eq, eq_iff, if◌then◌else◌, exists, exists_unique, exists-update_other, find_where,
  update_where, find_where-update_where, Bool-cases, inl, inr, select, length, arith,
}
use diyddns.Store.Db.{DeviceRow, Tables, Db, has_id}
use diyddns.Store.Devices.Rows.{Device}
use diyddns.Store.Devices.Lists.{in_feed_query}
use diyddns.Service.Membership.{Membership, added, removed, Fired, emit_membership}
use diyddns.Service.Membership.Feed.{feed_has, replay}

-- The notifier writes neither devices nor accounts.
abbrev pub Spares : (Membership → Db → Db) → Type 0
Spares notify =
    (e : Membership) (db : Db)
    → ((notify e db).tables.devices ≡ db.tables.devices)
      × ((notify e db).tables.users ≡ db.tables.users)

-- The events that a call fires, applied to the feed as it was, give the feed as it is.
abbrev pub Follows : {A : Type 0} → Tables → Fired A → Type 0
Follows old run = (id : String) → feed_has run.end.tables id ≡ replay run.events (feed_has old) id

-- A change of the flag in the row of one device.
abbrev pub flagged : String → Bool → ℕ → Tables → Tables
flagged id disabled now t = record t {
  devices =
      update_where (has_id id) (λ r. record r { disabled = disabled; updated_at = now }) t.devices;
}

pub same_feed :
    (t t' : Tables)
    → t'.devices ≡ t.devices
    → t'.users ≡ t.users
    → (id : String) → feed_has t' id ≡ feed_has t id
same_feed t t' d u id =
    ap (λ rows. exists (λ r. has_id id r && in_feed_query t'.users r) rows) d
    ∙ ap (λ users. exists (λ r. has_id id r && in_feed_query users r) t.devices) u

apart :
    (i id : String) (r : DeviceRow) → str_eq i id ≡ false → has_id id r ≡ true → has_id i r ≡ false
apart i id r h e = elim (Bool-cases (has_id i r)) [
  | inl k ↦
      let same : i ≡ id = sym ((eq_iff r.id i).0 k) ∙ (eq_iff r.id id).0 e in
      absurd (ground (arith, (eq_iff i id).1 same))
  | inr k ↦ k
]

module _ (t : Tables) (id : String) (row : DeviceRow)
    (found : find_where (has_id id) t.devices ≡ some row)
    (single : length (select (has_id id) t.devices) ≤ 1) where
  length-flagged :
      (f : DeviceRow → DeviceRow)
      → ((r : DeviceRow) → (f r).id ≡ r.id)
      → (rows : List DeviceRow)
      → length (select (has_id id) (update_where (has_id id) f rows))
        ≡ length (select (has_id id) rows)
  length-flagged f h [] = refl
  length-flagged f h (r ∷ rows) = ground (arith, h r, length-flagged f h rows)

  -- The feed once the flag is changed.
  pub feed-flagged :
      (disabled : Bool) (now : ℕ) (i : String)
      → feed_has (flagged id disabled now t) i ≡ (
          if str_eq i id
          then in_feed_query t.users (record row { disabled = disabled; updated_at = now })
          else feed_has t i)
  feed-flagged disabled now i = elim (Bool-cases (str_eq i id)) [
    | inl e ↦
        let f : DeviceRow → DeviceRow = λ r. record r { disabled = disabled; updated_at = now } in
        let at_id : feed_has (flagged id disabled now t) id ≡ in_feed_query t.users (f row) =
          exists_unique (has_id id) (in_feed_query t.users) (update_where (has_id id) f t.devices)
            (f row) (subst (λ n. n ≤ 1) (sym (length-flagged f (λ _. refl) t.devices)) single)
            (find_where-update_where (has_id id) f t.devices row (λ _. refl) found) in
        ap (feed_has (flagged id disabled now t)) ((eq_iff i id).0 e)
        ∙ at_id
        ∙ sym (ap (λ b. if b then in_feed_query t.users (f row) else feed_has t i) e)
    | inr e ↦
        let kept =
          exists-update_other (λ r. has_id i r && in_feed_query t.users r) (has_id id)
            (λ r. record r { disabled = disabled; updated_at = now }) t.devices
            (λ r k. let no = apart i id r e k in (ground arith, ground arith)) in
        ground arith
  ]

-- The events of a flip, applied where the feed before is known.
pub replay-emit :
    (notify : Membership → Db → Db) (d : Device) (before after : Bool) (db : Db)
    (known : String → Bool)
    → known d.id ≡ before
    → (i : String)
    → replay (emit_membership notify d before after db).events known i
      ≡ (if str_eq i d.id then after else known i)
unfolding emit_membership
replay-emit notify d false true db known h i = refl
replay-emit notify d true false db known h i = refl
replay-emit notify d false false db known h i = elim (Bool-cases (str_eq i d.id)) [
  | inl e ↦ let here = ap known ((eq_iff i d.id).0 e) ∙ h in ground arith
  | inr e ↦ ground arith
]
replay-emit notify d true true db known h i = elim (Bool-cases (str_eq i d.id)) [
  | inl e ↦ let here = ap known ((eq_iff i d.id).0 e) ∙ h in ground arith
  | inr e ↦ ground arith
]

pub emit-Spares :
    (notify : Membership → Db → Db)
    → Spares notify
    → (d : Device) (before after : Bool) (db : Db)
    → let end = (emit_membership notify d before after db).end in
      (end.tables.devices ≡ db.tables.devices) × (end.tables.users ≡ db.tables.users)
unfolding emit_membership
emit-Spares notify spares d false true db = spares (added d) db
emit-Spares notify spares d true false db = spares (removed d) db
emit-Spares notify spares d false false db = (refl, refl)
emit-Spares notify spares d true true db = (refl, refl)

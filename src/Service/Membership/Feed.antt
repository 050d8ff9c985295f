-- ===== src/Service/Membership/Feed.antt =====
-- The feed's query and the predicate of the services agree, and a consumer of the events knows the feed
-- (internal/server/service/feed.go, internal/store/devices.go).
use diyddns.Prelude.{
  ◌≤◌, String, Bool, true, false, not, ◌&&◌, ◌≡◌, ◌≢◌, refl, ap, List, [], ◌∷◌, Option, none, some,
  str_eq, eq_iff, if◌then◌else◌, exists, exists_unique, find_where, Bool-cases, inl, inr, select,
  length, arith,
}
use diyddns.Store.Db.{UserRow, DeviceRow, Tables, is_null, scan_string, has_id}
use diyddns.Store.Users.{scan_user, has_user_id}
use diyddns.Store.Devices.Rows.{scan_device}
use diyddns.Store.Devices.Lists.{in_feed_query}
use diyddns.Service.Membership.{Membership, added, removed, in_feed}

-- No address column holds an empty text; `nullIfEmpty` sees to it.
abbrev pub Texts : DeviceRow → Type 0
Texts r = (r.current_ipv4 ≢ some "") × (r.current_ipv6 ≢ some "")

-- The primary keys.
abbrev pub Keyed : Tables → Type 0
Keyed t =
    ((id : String) → length (select (has_id id) t.devices) ≤ 1)
    × ((id : String) → length (select (has_user_id id) t.users) ≤ 1)

present : (o : Option String) → o ≢ some "" → not (str_eq (scan_string o) "") ≡ not (is_null o)
present none h = refl
present (some s) h = elim (Bool-cases (str_eq s "")) [
  | inl e ↦ absurd (h (ap some ((eq_iff s "").0 e)))
  | inr e ↦ ground arith
]

-- The SQL half of the predicate and the Go half agree on a device and its owner as they are stored.
pub in_feed-in_feed_query :
    (users : List UserRow) (row : DeviceRow) (owner : UserRow)
    → length (select (has_user_id row.user_id) users) ≤ 1
    → find_where (has_user_id row.user_id) users ≡ some owner
    → Texts row
    → in_feed_query users row ≡ in_feed (scan_device row) (scan_user owner)
unfolding in_feed scan_device
in_feed-in_feed_query users row owner single found (v4, v6) =
    let active =
      exists_unique (has_user_id row.user_id) (λ (u : UserRow). not u.disabled) users owner single
        found in
    let ipv4 = present row.current_ipv4 v4 in let ipv6 = present row.current_ipv6 v6 in ground arith

-- Whether a device is in the feed.
abbrev pub feed_has : Tables → String → Bool
feed_has t id = exists (λ r. has_id id r && in_feed_query t.users r) t.devices

-- What a consumer that applies the events, one after the other, takes the feed to be.
abbrev pub replay : List Membership → (String → Bool) → String → Bool
replay [] known id = known id
replay (added d ∷ events) known id = replay events (λ i. if str_eq i d.id then true else known i) id
replay (removed d ∷ events) known id =
    replay events (λ i. if str_eq i d.id then false else known i) id

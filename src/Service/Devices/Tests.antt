-- ===== src/Service/Devices/Tests.antt =====
-- Instances of what is proved of an owner's calls.
use diyddns.Prelude.{◌+◌, String, ◌≡◌, ◌≢◌, refl, [], ◌∷◌, true, false, some, str_eq, eq_iff, arith}
use diyddns.Store.Db.{Db, statement, now_unix}
use diyddns.Store.Samples.{calm, tables, ann, nas}
use diyddns.Store.Users.{scan_user, get_user_by_id}
use diyddns.Store.Devices.Rows.{scan_device}
use diyddns.Store.Devices.Writes.{get_by_id, set_disabled}
use diyddns.Store.Devices.Lists.{in_feed_query}
use diyddns.Store.Audit.{log, append_audit}
use diyddns.Service.Membership.{Membership, removed, in_feed, emit_membership, flip_disabled}
use diyddns.Service.Membership.Feed.{Texts, Keyed, in_feed-in_feed_query}
use diyddns.Service.Devices.{owned_device, set_enabled}
use diyddns.Service.Devices.Follows.{Follows}
use diyddns.Service.Devices.Flip.{set_enabled-Follows}

-- A notifier that takes three seconds.
abbrev slow : Membership → Db → Db
slow e db = record db { clock = db.clock + 3 }

leaves :
    (set_enabled slow "u1" "d1" true calm).events
    ≡ removed (record (scan_device nas) { disabled = true }) ∷ []
unfolding set_enabled owned_device get_by_id get_user_by_id flip_disabled set_disabled log
    append_audit in_feed emit_membership statement now_unix scan_device
leaves = refl

keyed : Keyed tables
keyed = (λ id. ground arith, λ id. ground arith)

not_empty : (s : String) → str_eq s "" ≡ false → some s ≢ some ""
not_empty s k h = let same : s ≡ "" = ground arith in absurd (ground (arith, (eq_iff s "").1 same))

texts : Texts nas
texts = (not_empty "192.0.2.1" refl, not_empty "2001:db8::1" refl)

set_enabled-Follows_example : Follows tables (set_enabled slow "u1" "d1" true calm)
set_enabled-Follows_example =
    set_enabled-Follows slow (λ e db. (refl, refl)) "u1" "d1" true calm keyed (texts, tt)

in_feed-in_feed_query_example :
    in_feed_query (ann ∷ []) nas ≡ in_feed (scan_device nas) (scan_user ann)
in_feed-in_feed_query_example = in_feed-in_feed_query (ann ∷ []) nas ann (omega arith) refl texts

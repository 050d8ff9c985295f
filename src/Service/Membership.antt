-- ===== src/Service/Membership.antt =====
-- Who is in the gateway feed, and the events of those who join or leave it
-- (internal/server/service/feed.go). A service returns its result, the events that it fired, in
-- order, and the database; what the notifier does with an event is a parameter.
pub mod Moves
pub mod Feed
use diyddns.Prelude.{
  String, Bool, true, false, not, ◌&&◌, ◌||◌, List, [], ◌∷◌, ◌++◌, str_eq, if◌then◌else◌,
}
use diyddns.Store.Db.{Error, Result, ok, err, Db, Sql}
use diyddns.Store.Users.{User}
use diyddns.Store.Devices.Rows.{Device}
use diyddns.Store.Devices.Writes.{get_by_id, set_disabled}
use diyddns.Store.Audit.{AuditEntry, log}

-- `DeviceAdded`, `DeviceRemoved`
pub data Membership : Type 0 where
  added removed : Device → Membership

-- `inFeed`
unfoldable pub in_feed : Device → User → Bool
in_feed d u =
    not d.disabled
    && not u.disabled
    && (not (str_eq d.current_ipv4 "") || not (str_eq d.current_ipv6 ""))

pub record Fired (A : Type 0) : Type 0 where
  pub result : Result A
  pub events : List Membership
  pub end : Db

abbrev pub Fires : Type 0 → Type 0
Fires A = Db → Fired A

abbrev pub lift : {A : Type 0} → Sql A → Fires A
lift m db = let (r, db') = m db in record { result = r; events = []; end = db' }

abbrev pub fail : {A : Type 0} → Error → Fires A
fail e db = record { result = err e; events = []; end = db }

abbrev pub give : {A : Type 0} → A → Fires A
give a db = record { result = ok a; events = []; end = db }

abbrev pub also : {B : Type 0} → List Membership → Fired B → Fired B
also before f = record f { events = before ++ f.events }

module _ {A B : Type 0} where
  abbrev pub proceed : Result A → (A → Fires B) → Db → Fired B
  proceed (ok a) f db = f a db
  proceed (err e) f db = record { result = err e; events = []; end = db }

  infixl 5 ◌>>=◌
  abbrev pub ◌>>=◌ : Fires A → (A → Fires B) → Fires B
  ◌>>=◌ m f db = let first = m db in also first.events (proceed first.result f first.end)

module _ (notify : Membership → Db → Db) where
  abbrev pub fire : Membership → Fires (Unit {0})
  fire e db = record { result = ok tt; events = e ∷ []; end = notify e db }

  -- `emitMembership`
  unfoldable pub emit_membership : Device → Bool → Bool → Fires (Unit {0})
  emit_membership d false true = fire (added d)
  emit_membership d true false = fire (removed d)
  emit_membership d false false = give tt
  emit_membership d true true = give tt

  -- `flipDisabled`
  unfoldable pub flip_disabled : Device → User → Bool → AuditEntry → Fires Device
  flip_disabled dev owner disabled e = do
    _ ← lift (set_disabled dev.id disabled)
    _ ← lift (log e)
    let after = record dev { disabled = disabled }
    _ ← emit_membership after (in_feed dev owner) (in_feed after owner)
    lift (get_by_id dev.id)

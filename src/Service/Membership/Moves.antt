-- ===== src/Service/Membership/Moves.antt =====
-- What a service that fires events does to the tables, up to a relation that is reflexive and transitive
-- and that the notifier keeps to (internal/server/service/feed.go).
use diyddns.Prelude.{Bool, true, false}
use diyddns.Store.Db.{Result, ok, err, Tables, Db, Sql}
use diyddns.Store.Db.Moves.{Moves}
use diyddns.Store.Devices.Rows.{Device}
use diyddns.Service.Membership.{Membership, Fires, lift, give, proceed, ◌>>=◌, emit_membership}

module _ (R : Tables → Tables → Type 0) (same : (t : Tables) → R t t)
    (andThen : (a b c : Tables) → R a b → R b c → R a c) where
  abbrev pub MovesFired : {A : Type 0} → Fires A → Type 0
  MovesFired m = (db : Db) → R db.tables (m db).end.tables

  pub MovesFired-lift : {A : Type 0} (m : Sql A) → Moves R same andThen m → MovesFired (lift m)
  MovesFired-lift m h = h

  pub MovesFired-give : {A : Type 0} (a : A) → MovesFired (give a)
  MovesFired-give a db = same db.tables

  pub MovesFired-bind :
      {A B : Type 0} (m : Fires A) (f : A → Fires B)
      → MovesFired m
      → ((a : A) → MovesFired (f a))
      → MovesFired (m >>= f)
  MovesFired-bind {A} {B} m f hm hf db = went (m db).result (m db).end (hm db)
    where
      went :
          (r : Result A) (mid : Db)
          → R db.tables mid.tables
          → R db.tables (proceed r f mid).end.tables
      went (ok a) mid h = andThen db.tables mid.tables (f a mid).end.tables h (hf a mid)
      went (err e) mid h = h

  pub MovesFired-emit :
      (notify : Membership → Db → Db)
      → ((e : Membership) (db : Db) → R db.tables (notify e db).tables)
      → (d : Device) (before after : Bool) → MovesFired (emit_membership notify d before after)
  unfolding emit_membership
  MovesFired-emit notify keeps d false true db = keeps _ db
  MovesFired-emit notify keeps d true false db = keeps _ db
  MovesFired-emit notify keeps d false false db = same db.tables
  MovesFired-emit notify keeps d true true db = same db.tables

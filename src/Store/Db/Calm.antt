-- ===== src/Store/Db/Calm.antt =====
-- What the driver does not fail succeeds (internal/store).
use diyddns.Prelude.{Bool, false, ◌≡◌, refl, sym, subst, ap, ◌∙◌, exists, List, arith}
use diyddns.Store.Db.{
  Result, ok, err, Weather, Tables, Db, Sql, pure, statement, boundary, transaction, rollback,
  continue, ◌>>=◌, ◌>>◌,
}
use diyddns.Store.Db.Laws.{tables-boundary}

-- The driver fails some statement to come, or none.
abbrev pub any_fails : List Weather → Bool
any_fails ws = exists (λ w. w.fails) ws

abbrev pub IsCalm : Db → Type 0
IsCalm db = any_fails db.weather ≡ false

pub statement-IsCalm :
    {A : Type 0} (f : Tables → Result A × Tables) (db : Db)
    → IsCalm db
    → ((statement f db).0 ≡ (f db.tables).0)
      × ((statement f db).1.tables ≡ (f db.tables).1)
      × IsCalm (statement f db).1
unfolding statement
statement-IsCalm f db h = ground arith

boundary-IsCalm : (db : Db) → IsCalm db → ((boundary db).0 ≡ ok tt) × IsCalm (boundary db).1
unfolding boundary
boundary-IsCalm db h = let (r, _, c) = statement-IsCalm (λ t. (ok tt, t)) db h in (r, c)

-- A sequence whose first part returns a value goes on with it.
pub bind_run :
    {A B : Type 0} (m : Sql A) (f : A → Sql B) (db : Db) (a : A)
    → (m db).0 ≡ ok a
    → (m >>= f) db ≡ f a (m db).1
bind_run m f db a h = ap (λ r. continue r f (m db).1) h

pub bind_returns :
    {A B : Type 0} (m : Sql A) (f : A → Sql B) (db : Db) (a : A) (b : B)
    → (m db).0 ≡ ok a
    → (f a (m db).1).0 ≡ ok b
    → ((m >>= f) db).0 ≡ ok b
bind_returns {A} {B} m f db a b h k = ap (λ (x : Result B × Db). x.0) (bind_run m f db a h) ∙ k

-- A transaction returns what its body does.
pub transaction-IsCalm :
    {A : Type 0} (body : Sql A) (db : Db)
    → IsCalm db
    → ((start : Db)
        → start.tables ≡ db.tables
        → IsCalm start
        → (a : A) × ((body start).0 ≡ ok a) × IsCalm (body start).1)
    → (a : A) × ((transaction body db).0 ≡ ok a)
unfolding transaction
transaction-IsCalm {A} body db h works =
    let (begun, c) = boundary-IsCalm db h in
    let (a, done, c') = works (boundary db).1 (tables-boundary db) c in
    let run : Result (Unit {0}) → Result A × Db = λ r.
      continue r (λ _ d. rollback d.tables ((do a ← body; boundary; pure a) d)) (boundary db).1 in
    (a, subst (λ r. (run r).0 ≡ ok a) (sym begun) (committed (boundary db).1 a done c'))
  where
    committed :
        (start : Db) (a : A)
        → (body start).0 ≡ ok a
        → IsCalm (body start).1
        → (rollback start.tables ((do a ← body; boundary; pure a) start)).0 ≡ ok a
    committed start a done c =
        let all : ((do a ← body; boundary; pure a) start).0 ≡ ok a =
          bind_returns body (λ a. do boundary; pure a) start a a done
            (bind_returns boundary (λ _. pure a) (body start).1 tt a
              (boundary-IsCalm (body start).1 c).0 refl) in
        rolled ((do a ← body; boundary; pure a) start).0 ((do a ← body; boundary; pure a) start).1
          all
      where
        rolled : (r : Result A) (end : Db) → r ≡ ok a → (rollback start.tables (r, end)).0 ≡ ok a
        rolled (ok x) end h = h
        rolled (err x) end h = absurd (ground arith)

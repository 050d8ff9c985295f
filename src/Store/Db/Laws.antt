-- ===== src/Store/Db/Laws.antt =====
-- Laws of statements and transactions.
use diyddns.Prelude.{◌≡◌, ◌≤◌, refl, inl, inr, ap, ◌∙◌, Option, none, some, ◌⊎◌, arith}
use diyddns.Store.Db.{
  Error, Result, ok, err, driver, Tables, Db, Sql, pure, statement, boundary, transaction, rollback,
  conclude, transaction_unless_none, continue, ◌>>=◌, ◌>>◌,
}

-- A statement fails by the weather and changes no table, or does what it says.
pub statement_cases {ℓ} :
    {A : Type ℓ} (f : Tables → Result A × Tables) (db : Db)
    → ((statement f db).0 ≡ err driver) × ((statement f db).1.tables ≡ db.tables)
      ⊎ ((statement f db).0 ≡ (f db.tables).0) × ((statement f db).1.tables ≡ (f db.tables).1)
unfolding statement
statement_cases f db = ground arith

-- BEGIN and COMMIT change no table.
pub tables-boundary : (db : Db) → (boundary db).1.tables ≡ db.tables
unfolding boundary
tables-boundary db = ground (arith, statement_cases {0} (λ t. (ok tt, t)) db)

-- A statement never turns the clock back.
pub statement_clock {ℓ} :
    {A : Type ℓ} (f : Tables → Result A × Tables) (db : Db) → db.clock ≤ (statement f db).1.clock
unfolding statement
statement_clock f db = ground arith

rollback_err {ℓ} :
    {A : Type ℓ} (start : Tables) (r : Result A × Db) (e : Error)
    → (rollback start r).0 ≡ err e
    → (rollback start r).1.tables ≡ start
rollback_err start (ok a, db) e h = absurd (ground arith)
rollback_err start (err x, db) e h = refl

after_begin {ℓ} :
    {A : Type ℓ} (r : Result (Unit {0})) (db : Db) (m : Sql A) (e : Error)
    → (continue r (λ _ db. rollback db.tables (m db)) db).0 ≡ err e
    → (continue r (λ _ db. rollback db.tables (m db)) db).1.tables ≡ db.tables
after_begin (ok _) db m e h = rollback_err db.tables (m db) e h
after_begin (err x) db m e h = refl

-- A transaction that returns an error has changed no table.
pub transaction_atomic {ℓ} :
    {A : Type ℓ} (body : Sql A) (db : Db) (e : Error)
    → (transaction body db).0 ≡ err e
    → (transaction body db).1.tables ≡ db.tables
unfolding transaction
transaction_atomic body db e h =
    after_begin (boundary db).0 (boundary db).1 (do a ← body; boundary; pure a) e h
    ∙ tables-boundary db

commit_ok {ℓ} :
    {A : Type ℓ} (start : Tables) (m : Result A × Db) (a : A)
    → (rollback start (continue m.0 (λ a. do boundary; pure a) m.1)).0 ≡ ok a
    → (m.0 ≡ ok a)
      × ((rollback start (continue m.0 (λ a. do boundary; pure a) m.1)).1.tables ≡ m.1.tables)
commit_ok start (err x, db) a h = absurd (ground arith)
commit_ok start (ok b, db) a h = committed (boundary db).0 (boundary db).1 (tables-boundary db) h
  where
    committed :
        (r : Result (Unit {0})) (end : Db)
        → end.tables ≡ db.tables
        → (rollback start (continue r (λ _. pure b) end)).0 ≡ ok a
        → (ok b ≡ ok a) × ((rollback start (continue r (λ _. pure b) end)).1.tables ≡ db.tables)
    committed (ok _) end same h = (h, same)
    committed (err x) end same h = absurd (ground arith)

-- A transaction that returns a value has run its body from the tables as they were, and keeps
-- what the body wrote.
pub transaction_ok {ℓ} :
    {A : Type ℓ} (body : Sql A) (db : Db) (a : A)
    → (transaction body db).0 ≡ ok a
    → (start : Db) × (start.tables ≡ db.tables)
      × (db.clock ≤ start.clock)
      × ((body start).0 ≡ ok a)
      × ((transaction body db).1.tables ≡ (body start).1.tables)
unfolding transaction boundary
transaction_ok {A} body db a h =
    begun (boundary db).0 (boundary db).1 (tables-boundary db)
      (unfold boundary in statement_clock (λ t. (ok tt, t)) db) h
  where
    begin : Result (Unit {0}) → Db → Result A × Db
    begin r mid = continue r (λ _ db. rollback db.tables ((do a ← body; boundary; pure a) db)) mid

    begun :
        (r : Result (Unit {0})) (mid : Db)
        → mid.tables ≡ db.tables
        → db.clock ≤ mid.clock
        → (begin r mid).0 ≡ ok a
        → (start : Db) × (start.tables ≡ db.tables)
          × (db.clock ≤ start.clock)
          × ((body start).0 ≡ ok a)
          × ((begin r mid).1.tables ≡ (body start).1.tables)
    begun (ok _) mid same later h =
        let done = commit_ok mid.tables (body mid) a h in (mid, same, later, done.0, done.1)
    begun (err x) mid same later h = absurd (ground arith)

-- What a transaction that may find nothing to do leaves behind: on a value all that its body wrote,
-- and otherwise the tables as they were.
abbrev pub Commits : {A : Type 0} → Db → Sql (Option A) → Result (Option A) × Db → Type 0
Commits db body (ok (some a), end) =
    (start : Db) × (start.tables ≡ db.tables)
    × ((body start).0 ≡ ok (some a))
    × (end.tables ≡ (body start).1.tables)
Commits db body (ok none, end) =
    (start : Db) × (start.tables ≡ db.tables)
    × ((body start).0 ≡ ok none)
    × (end.tables ≡ db.tables)
Commits db body (err e, end) = Unit × (end.tables ≡ db.tables)

module _ {A : Type 0} (db : Db) (body : Sql (Option A)) where
  committed-Commits :
      (start mid : Db) (a : A) (r : Result (Unit {0})) (end : Db)
      → start.tables ≡ db.tables
      → (body start).0 ≡ ok (some a)
      → mid ≡ (body start).1
      → end.tables ≡ mid.tables
      → Commits db body (rollback start.tables (continue r (λ _. pure (some a)) end))
  committed-Commits start mid a (ok _) end same e m t =
      (start, same, e, t ∙ ap (λ (d : Db). d.tables) m)
  committed-Commits start mid a (err x) end same e m t = (tt, same)

  concluded-Commits :
      (start mid : Db) (r : Result (Option A))
      → start.tables ≡ db.tables
      → (body start).0 ≡ r
      → mid ≡ (body start).1
      → Commits db body (conclude start.tables (r, mid))
  concluded-Commits start mid (ok none) same e m = (start, same, e, same)
  concluded-Commits start mid (ok (some a)) same e m =
      committed-Commits start mid a (boundary mid).0 (boundary mid).1 same e m (tables-boundary mid)
  concluded-Commits start mid (err x) same e m = (tt, same)

  begun-Commits :
      (r : Result (Unit {0})) (start : Db)
      → start.tables ≡ db.tables
      → Commits db body (continue r (λ _ d. conclude d.tables (body d)) start)
  begun-Commits (ok _) start same =
      concluded-Commits start (body start).1 (body start).0 same refl refl
  begun-Commits (err x) start same = (tt, same)

  pub transaction_unless_none-Commits : Commits db body (transaction_unless_none body db)
  unfolding transaction_unless_none
  transaction_unless_none-Commits =
      begun-Commits (boundary db).0 (boundary db).1 (tables-boundary db)

-- A statement that returns a value has done what it says.
pub statement_ok :
    {A : Type 0} (f : Tables → Result A × Tables) (db : Db) (a : A)
    → (statement f db).0 ≡ ok a
    → ((f db.tables).0 ≡ ok a) × ((statement f db).1.tables ≡ (f db.tables).1)
statement_ok f db a h = ground (arith, statement_cases {0} f db)

-- A bind that returns a value: its parts returned values, and its state is the last one's.
pub bind_ok :
    {A B : Type 0} (m : Sql A) (f : A → Sql B) (db : Db) (b : B)
    → ((m >>= f) db).0 ≡ ok b
    → (a : A) × ((m db).0 ≡ ok a)
      × ((f a (m db).1).0 ≡ ok b)
      × (((m >>= f) db).1 ≡ (f a (m db).1).1)
bind_ok {A} {B} m f db b h = continued (m db).0 (m db).1 h
  where
    continued :
        (r : Result A) (mid : Db)
        → (continue r f mid).0 ≡ ok b
        → (a : A) × (r ≡ ok a) × ((f a mid).0 ≡ ok b) × ((continue r f mid).1 ≡ (f a mid).1)
    continued (ok a) mid h = (a, refl, h, refl)
    continued (err e) mid h = absurd (ground arith)

-- A bind that returns an error: its first part did, or the second.
pub bind_err :
    {A B : Type 0} (m : Sql A) (f : A → Sql B) (db : Db) (e : Error)
    → ((m >>= f) db).0 ≡ err e
    → (((m db).0 ≡ err e) × (((m >>= f) db).1 ≡ (m db).1))
      ⊎ ((a : A) × ((m db).0 ≡ ok a)
          × ((f a (m db).1).0 ≡ err e)
          × (((m >>= f) db).1 ≡ (f a (m db).1).1))
bind_err {A} {B} m f db e h = continued (m db).0 (m db).1 h
  where
    continued :
        (r : Result A) (mid : Db)
        → (continue r f mid).0 ≡ err e
        → ((r ≡ err e) × ((continue r f mid).1 ≡ mid))
          ⊎ ((a : A) × (r ≡ ok a) × ((f a mid).0 ≡ err e) × ((continue r f mid).1 ≡ (f a mid).1))
    continued (ok a) mid h = inr (a, refl, h, refl)
    continued (err x) mid h = inl (ground arith, refl)

pub ok-injective : {A : Type 0} {a b : A} → ok a ≡ ok b → a ≡ b
ok-injective h = ground arith

-- A query changes no table.
pub tables-statement :
    {A : Type 0} (f : Tables → Result A) (db : Db)
    → (statement (λ t. (f t, t)) db).1.tables ≡ db.tables
tables-statement f db = ground (arith, statement_cases {0} (λ t. (f t, t)) db)

-- A result that is no value is an error.
pub not_ok {ℓ} : {A : Type ℓ} (r : Result A) → ((a : A) → r ≡ ok a → ⊥) → (e : Error) × (r ≡ err e)
not_ok (ok a) h = absurd (h a refl)
not_ok (err e) h = (e, refl)

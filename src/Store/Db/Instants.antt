-- ===== src/Store/Db/Instants.antt =====
-- When the n-th statement to come is done, and whether the driver fails it (internal/store).
use diyddns.Prelude.{ℕ, ◌<◌, zero, suc, ◌+◌, ◌≡◌, ◌⊎◌, true, List, [], ◌∷◌, refl, arith}
use diyddns.Store.Db.{
  Result, ok, err, driver, Weather, Tables, Db, Sql, pure, statement, boundary, transaction,
  rollback, continue, ◌>>=◌, ◌>>◌,
}

-- The clock once `n` statements were executed.
abbrev pub clock_after : ℕ → List Weather → ℕ → ℕ
clock_after zero ws clock = clock
clock_after (suc n) [] clock = clock
clock_after (suc n) (w ∷ ws) clock = clock_after n ws (clock + w.elapsed)

-- The driver fails statement `n`, counted from 0.
abbrev pub IsFailed : ℕ → List Weather → Type 0
IsFailed n [] = ⊥
IsFailed zero (w ∷ ws) = w.fails ≡ true
IsFailed (suc n) (w ∷ ws) = IsFailed n ws

abbrev pub weather_after : List Weather → List Weather
weather_after [] = []
weather_after (w ∷ ws) = ws

pub statement_end :
    {A : Type 0} (f : Tables → Result A × Tables) (db : Db)
    → ((statement f db).1.clock ≡ clock_after 1 db.weather db.clock)
      × ((statement f db).1.weather ≡ weather_after db.weather)
unfolding statement
statement_end f db = ground arith

-- A statement that the driver does not fail does what it says.
pub statement-IsFailed :
    {A : Type 0} (f : Tables → Result A × Tables) (db : Db)
    → (IsFailed 0 db.weather
        × ((statement f db).0 ≡ err driver)
        × ((statement f db).1.tables ≡ db.tables))
      ⊎ ((statement f db).0 ≡ (f db.tables).0) × ((statement f db).1.tables ≡ (f db.tables).1)
unfolding statement
statement-IsFailed f db = ground arith

pub clock_after-suc :
    (n : ℕ) (ws : List Weather) (clock : ℕ)
    → clock_after n (weather_after ws) (clock_after 1 ws clock) ≡ clock_after (suc n) ws clock
clock_after-suc zero [] clock = refl
clock_after-suc (suc n) [] clock = refl
clock_after-suc zero (w ∷ ws) clock = refl
clock_after-suc (suc n) (w ∷ ws) clock = refl

pub IsFailed-suc : (n : ℕ) (ws : List Weather) → IsFailed n (weather_after ws) → IsFailed (suc n) ws
IsFailed-suc n [] h = h
IsFailed-suc n (w ∷ ws) h = h

pub boundary_clock : (db : Db) → (boundary db).1.clock ≡ clock_after 1 db.weather db.clock
unfolding boundary
boundary_clock db = (statement_end (λ t. (ok tt, t)) db).0

pub boundary-later : (db : Db) → 0 < db.clock → 0 < (boundary db).1.clock
boundary-later db p = ground (arith, boundary_clock db)

rolled_ok :
    {A : Type 0} (start : Tables) (m : Result A × Db) (a : A)
    → (rollback start (continue m.0 (λ a. do boundary; pure a) m.1)).0 ≡ ok a
    → m.0 ≡ ok a
rolled_ok {A} start (err x, db) a h = absurd (ground arith)
rolled_ok {A} start (ok b, db) a h = committed (boundary db).0 (boundary db).1 h
  where
    committed :
        (r : Result (Unit {0})) (end : Db)
        → (rollback start (continue r (λ _. pure b) end)).0 ≡ ok a
        → ok b ≡ ok a
    committed (ok _) end h = h
    committed (err x) end h = absurd (ground arith)

-- A transaction that returns a value has run its body right after the BEGIN.
pub transaction_begun :
    {A : Type 0} (body : Sql A) (db : Db) (a : A)
    → (transaction body db).0 ≡ ok a
    → (body (boundary db).1).0 ≡ ok a
unfolding transaction
transaction_begun {A} body db a h = begun (boundary db).0 (boundary db).1 h
  where
    begun :
        (r : Result (Unit {0})) (mid : Db)
        → (continue r (λ _ db. rollback db.tables ((do a ← body; boundary; pure a) db)) mid).0
          ≡ ok a
        → (body mid).0 ≡ ok a
    begun (ok _) mid h = rolled_ok mid.tables (body mid) a h
    begun (err x) mid h = absurd (ground arith)

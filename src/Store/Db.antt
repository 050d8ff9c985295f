-- ===== src/Store/Db.antt =====
-- SQL statements over the tables of migrations/ as a state monad, and transactions (internal/store).
pub mod Laws
pub mod Moves
pub mod Instants
pub mod Calm
use diyddns.Prelude.{
  ℕ, suc, ◌+◌, String, Bool, true, false, List, [], ◌∷◌, Option, none, some, str_eq, if◌then◌else◌,
}
pub use diyddns.Store.Schema.{
  UserRow, SessionRow, CodeRow, RecoveryRow, BootstrapRow, FeedTokenRow, ApiKeyRow, AuditRow,
  DeviceRow, HistoryRow, Nonce, EndpointRow, Status, pending, delivered, failed, Failure, blocked,
  unreachable, tls, rejected, gone, internal, DeliveryRow, Tables,
}

-- `ErrNotFound`, `ErrConflict`, and any other error of the driver.
pub data Error : Type 0 where
  not_found conflict driver : Error

pub data Result {ℓ} (A : Type ℓ) : Type ℓ where
  ok : A → Result A
  err : Error → Result A

-- What the environment does to one statement: the seconds that pass before it, and whether the
-- driver fails it.
pub record Weather : Type 0 where
  pub elapsed : ℕ
  pub fails : Bool

-- The database, the clock, and the weather of the statements to come; after the last one listed
-- no statement fails and no time passes.
pub record Db : Type 0 where
  pub tables : Tables
  pub clock : ℕ
  pub weather : List Weather

abbrev pub Sql {ℓ} : Type ℓ → Type ℓ
Sql A = Db → Result A × Db

module _ {ℓ} {A : Type ℓ} where
  abbrev pub pure : A → Sql A
  pure a db = (ok a, db)

  abbrev pub throw : Error → Sql A
  throw e db = (err e, db)

  -- A statement that the driver does not fail.
  abbrev perform : (Tables → Result A × Tables) → Db → Result A × Db
  perform f db = let (r, t) = f db.tables in (r, record db { tables = t })

  abbrev under : Weather → (Tables → Result A × Tables) → Db → Result A × Db
  under w f db =
      let later = record db { clock = db.clock + w.elapsed } in
      if w.fails then (err driver, later) else perform f later

  -- One SQL statement: a failed one changes nothing.
  unfoldable pub statement : (Tables → Result A × Tables) → Sql A
  statement f db = elim db.weather [
    | [] ↦ perform f db
    | w ∷ rest ↦ under w f (record db { weather = rest })
  ]

module _ {ℓ κ} {A : Type ℓ} {B : Type κ} where
  abbrev pub continue : Result A → (A → Sql B) → Sql B
  continue (ok a) f db = f a db
  continue (err e) f db = (err e, db)

  infixl 5 ◌>>=◌
  abbrev pub ◌>>=◌ : Sql A → (A → Sql B) → Sql B
  ◌>>=◌ m f db = let (r, db') = m db in continue r f db'

infixl 5 ◌>>◌
abbrev pub ◌>>◌ {ℓ} : {B : Type ℓ} → Sql (Unit {0}) → Sql B → Sql B
m >> k = m >>= λ _. k

-- `NowUnix()`
unfoldable pub now_unix : Sql ℕ
now_unix db = (ok db.clock, db)

-- BEGIN and COMMIT are statements that may fail and change no row.
unfoldable pub boundary : Sql (Unit {0})
unfolding statement
boundary = statement (λ t. (ok tt, t))

module _ {ℓ} {A : Type ℓ} where
  -- `tx.Rollback()`, after an error inside the transaction that began at `start`.
  abbrev pub rollback : Tables → Result A × Db → Result A × Db
  rollback start (ok a, db) = (ok a, db)
  rollback start (err e, db) = (err e, record db { tables = start })

  -- `BeginTx`, the body, `Commit`, and the deferred `Rollback`.
  unfoldable pub transaction : Sql A → Sql A
  transaction body = do boundary; λ db. rollback db.tables ((do a ← body; boundary; pure a) db)

module _ {ℓ} {A : Type ℓ} where
  -- As `transaction`, for a body that may find nothing to do: the function then returns before it
  -- commits, and the deferred `Rollback` runs.
  abbrev pub conclude : Tables → Result (Option A) × Db → Result (Option A) × Db
  conclude start (ok none, db) = (ok none, record db { tables = start })
  conclude start (ok (some a), db) = rollback start ((do boundary; pure (some a)) db)
  conclude start (err e, db) = (err e, record db { tables = start })

  unfoldable pub transaction_unless_none : Sql (Option A) → Sql (Option A)
  transaction_unless_none body = do boundary; λ db. conclude db.tables (body db)

-- `nullIfEmpty`, `scanString`, `nullIfZero`, `scanInt64`
abbrev pub null_if_empty : String → Option String
null_if_empty s = if str_eq s "" then none else some s

abbrev pub scan_string : Option String → String
scan_string none = ""
scan_string (some s) = s

abbrev pub null_if_zero : ℕ → Option ℕ
null_if_zero ℕ.zero = none
null_if_zero (suc n) = some (suc n)

-- `scanInt64`, and `COALESCE(column, 0)` in SQL
abbrev pub scan_int64 : Option ℕ → ℕ
scan_int64 none = 0
scan_int64 (some n) = n

abbrev pub is_null {ℓ} : {A : Type ℓ} → Option A → Bool
is_null none = true
is_null (some a) = false

-- WHERE id = ?, on devices
abbrev pub has_id : String → DeviceRow → Bool
has_id id r = str_eq r.id id

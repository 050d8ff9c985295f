-- ===== src/Store/Db/Moves.antt =====
-- What statements, sequences and transactions do to the tables, up to a relation that is reflexive and
-- transitive.
use diyddns.Prelude.{inl, inr, sym, subst, Option, none, some}
use diyddns.Store.Db.{
  Result, ok, err, Tables, Db, Sql, statement, transaction_unless_none, continue, ◌>>=◌,
}
use diyddns.Store.Db.Laws.{statement_cases, Commits, transaction_unless_none-Commits}

module _ (R : Tables → Tables → Type 0) (same : (t : Tables) → R t t)
    (andThen : (a b c : Tables) → R a b → R b c → R a c) where
  abbrev pub Moves : {A : Type 0} → Sql A → Type 0
  Moves m = (db : Db) → R db.tables (m db).1.tables

  pub Moves-statement :
      {A : Type 0} (f : Tables → Result A × Tables)
      → ((t : Tables) → R t (f t).1)
      → Moves (statement f)
  Moves-statement f h db = elim (statement_cases {0} f db) [
    | inl (_, e) ↦ subst (R db.tables) (sym e) (same db.tables)
    | inr (_, e) ↦ subst (R db.tables) (sym e) (h db.tables)
  ]

  pub Moves-bind :
      {A B : Type 0} (m : Sql A) (f : A → Sql B)
      → Moves m
      → ((a : A) → Moves (f a))
      → Moves (m >>= f)
  Moves-bind {A} {B} m f hm hf db = went (m db).0 (m db).1 (hm db)
    where
      went :
          (r : Result A) (mid : Db)
          → R db.tables mid.tables
          → R db.tables (continue r f mid).1.tables
      went (ok a) mid h = andThen db.tables mid.tables (f a mid).1.tables h (hf a mid)
      went (err e) mid h = h

  pub Moves-transaction_unless_none :
      {A : Type 0} (body : Sql (Option A)) → Moves body → Moves (transaction_unless_none body)
  Moves-transaction_unless_none {A} body h db =
      let run = transaction_unless_none body db in
      settled run.0 run.1 (transaction_unless_none-Commits db body)
    where
      settled :
          (r : Result (Option A)) (end : Db) → Commits db body (r, end) → R db.tables end.tables
      settled (ok (some a)) end (start, s, _, e) =
          subst (R db.tables) (sym e) (subst (λ t. R t (body start).1.tables) s (h start))
      settled (ok none) end (start, s, _, e) = subst (R db.tables) (sym e) (same db.tables)
      settled (err x) end (_, e) = subst (R db.tables) (sym e) (same db.tables)

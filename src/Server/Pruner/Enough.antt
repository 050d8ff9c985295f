-- ===== src/Server/Pruner/Enough.antt =====
-- The drains end (internal/server/pruner.go).
use diyddns.Prelude.{
  ℕ, zero, suc, ◌+◌, ◌≤◌, ◌<◌, String, Bool, ◌≡◌, refl, ap, List, [], ◌∷◌, length, take, select,
  drop_first, arith,
}
use diyddns.Prelude.Int.{ℤ}
use diyddns.Store.Db.{Result, ok, err, Tables, Db, Sql}
use diyddns.Store.Db.Laws.{statement_cases}
use diyddns.Store.History.Prune.{history_prunable, pruned_history, prune_history}
use diyddns.Store.Audit.{audit_prunable, prune_audit}
use diyddns.Server.Pruner.{drain}

-- A batch that deletes rows makes a measure smaller.
abbrev pub Shrinks : (Db → ℕ) → Sql ℕ → Type 0
Shrinks size m = (db : Db) (n : ℕ) → (m db).0 ≡ ok (suc n) → size (m db).1 < size db

module _ (size : Db → ℕ) (m : Sql ℕ) (shrinks : Shrinks size m) where
  abbrev rest_of : ℕ → Result ℕ × Db → ℕ × Db
  rest_of fuel (r, mid) = elim r [
    | err e ↦ (0, mid)
    | ok n ↦ elim n [
      | zero ↦ (0, mid)
      | suc k ↦ let (rest, end) = drain fuel m mid in (suc k + rest, end)
    ]
  ]

  -- More fuel changes nothing.
  drain_more :
      (fuel more : ℕ) (db : Db) → size db < fuel → fuel ≤ more → drain more m db ≡ drain fuel m db
  unfolding drain
  drain_more zero more db b e = absurd (omega (arith, b))
  drain_more (suc fuel) zero db b e = absurd (omega (arith, e))
  drain_more (suc fuel) (suc more) db b e =
      went (m db).0 (m db).1 (λ n h. shrinks db n h)
        (λ mid c. drain_more fuel more mid c (omega (arith, e)))
    where
      went :
          (r : Result ℕ) (mid : Db)
          → ((n : ℕ) → r ≡ ok (suc n) → size mid < size db)
          → ((d : Db) → size d < fuel → drain more m d ≡ drain fuel m d)
          → rest_of more (r, mid) ≡ rest_of fuel (r, mid)
      went (err x) mid smaller ih = refl
      went (ok zero) mid smaller ih = refl
      went (ok (suc n)) mid smaller ih =
          let less = smaller n refl in
          ap (λ (run : ℕ × Db). (suc n + run.0, run.1)) (ih mid (omega (arith, less, b)))

length-drop_first :
    {A : Type 0} (p : A → Bool) (batch : ℕ) (xs : List A)
    → length (take batch (select p xs)) + length (drop_first p batch xs) ≡ length xs
length-drop_first p zero [] = refl
length-drop_first p (suc batch) [] = refl
length-drop_first p zero (x ∷ xs) = omega arith
length-drop_first p (suc batch) (x ∷ xs) =
    ground (arith, length-drop_first p batch xs, length-drop_first p (suc batch) xs)

abbrev pub entries : Db → ℕ
entries db = length db.tables.history

abbrev pub audits : Db → ℕ
audits db = length db.tables.audit

prune_history-Shrinks :
    (device_id : String) (older_than : ℤ) (cap batch : ℕ)
    → Shrinks entries (prune_history device_id older_than cap batch)
unfolding prune_history
prune_history-Shrinks device_id older_than cap batch db n h =
    let p = history_prunable device_id older_than cap db.tables.history in
    ground (
      arith,
      statement_cases {0} (pruned_history device_id older_than cap batch) db,
      length-drop_first p batch db.tables.history,
    )

prune_audit-Shrinks : (older_than : ℤ) (batch : ℕ) → Shrinks audits (prune_audit older_than batch)
unfolding prune_audit
prune_audit-Shrinks older_than batch db n h =
    let p = audit_prunable older_than in
    let f : Tables → Result ℕ × Tables = λ t. (
      ok (length (take batch (select p t.audit))),
      record t { audit = drop_first p batch t.audit },
    ) in
    ground (arith, statement_cases {0} f db, length-drop_first p batch db.tables.audit)

-- Whatever fails, a drain of the history of a device ends within as many batches as the history table
-- has rows and one more, and a drain of the audit log within as many as the audit table has rows and
-- one more: more fuel gives the same number of deleted rows and the same state.
pub drain_enough :
    (device_id : String) (older_than cutoff : ℤ) (cap batch of_history of_audit more : ℕ) (db : Db)
    → entries db < of_history
    → audits db < of_audit
    → (drain (of_history + more) (prune_history device_id older_than cap batch) db
        ≡ drain of_history (prune_history device_id older_than cap batch) db)
      × (drain (of_audit + more) (prune_audit cutoff batch) db
          ≡ drain of_audit (prune_audit cutoff batch) db)
drain_enough device_id older_than cutoff cap batch of_history of_audit more db h a = (
  drain_more entries (prune_history device_id older_than cap batch)
      (prune_history-Shrinks device_id older_than cap batch) of_history (of_history + more) db h
      (omega arith),
  drain_more audits (prune_audit cutoff batch) (prune_audit-Shrinks cutoff batch) of_audit
      (of_audit + more) db a (omega arith),
)

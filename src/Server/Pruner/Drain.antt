-- ===== src/Server/Pruner/Drain.antt =====
-- Draining ends, removes what is old and done with, and never what is owed (internal/server/pruner.go).
use diyddns.Prelude.{
  ℕ, zero, suc, ◌+◌, ◌<◌, Bool, true, false, not, ◌≡◌, refl, sym, ap, ◌∙◌, List, [], ◌∷◌, select,
  take, length, drop_first, arith,
}
use diyddns.Store.Db.{Result, ok, err, DeliveryRow, Tables, Db, statement}
use diyddns.Store.Db.Laws.{statement_cases}
use diyddns.Store.Notifications.{is_pending, is_prunable, prune_deliveries}
use diyddns.Server.Pruner.{drain_deliveries, drain}

module _ {A : Type 0} (p : A → Bool) where
  abbrev rest_of : A → Bool
  rest_of x = not (p x)

  -- What is not eligible stays, in order.
  select-drop_first :
      (q : A → Bool)
      → ((x : A) → p x ≡ true → q x ≡ false)
      → (batch : ℕ) (xs : List A) → select q (drop_first p batch xs) ≡ select q xs
  select-drop_first q h batch [] = refl
  select-drop_first q h zero (x ∷ xs) = refl
  select-drop_first q h (suc batch) (x ∷ xs) =
      ground (arith, h x, select-drop_first q h batch xs, select-drop_first q h (suc batch) xs)

  length-drop_first :
      (batch : ℕ) (xs : List A)
      → length (take batch (select p xs)) + length (select p (drop_first p batch xs))
        ≡ length (select p xs)
  length-drop_first zero xs = drop_none xs
    where
      drop_none :
          (xs : List A)
          → length (take zero (select p xs)) + length (select p (drop_first p zero xs))
            ≡ length (select p xs)
      drop_none [] = refl
      drop_none (x ∷ xs) = omega arith
  length-drop_first (suc batch) [] = refl
  length-drop_first (suc batch) (x ∷ xs) =
      ground (arith, length-drop_first batch xs, length-drop_first (suc batch) xs)

  none_taken :
      (batch : ℕ) (xs : List A)
      → length (take (suc batch) (select p xs)) ≡ 0
      → (drop_first p (suc batch) xs ≡ select rest_of xs) × (length (select p xs) ≡ 0)
  none_taken batch [] h = (refl, refl)
  none_taken batch (x ∷ xs) h = ground (arith, none_taken batch xs)

abbrev pub eligible : ℕ → DeliveryRow → Bool
eligible cutoff d = is_prunable cutoff d

abbrev pub ineligible : ℕ → DeliveryRow → Bool
ineligible cutoff d = not (is_prunable cutoff d)

abbrev pub owed : DeliveryRow → Bool
owed d = is_pending d.status

prune_calm :
    (cutoff batch : ℕ) (db : Db)
    → db.weather ≡ []
    → ((prune_deliveries cutoff batch db).0
        ≡ ok (length (take batch (select (is_prunable cutoff) db.tables.deliveries))))
      × ((prune_deliveries cutoff batch db).1.tables.deliveries
          ≡ drop_first (is_prunable cutoff) batch db.tables.deliveries)
      × ((prune_deliveries cutoff batch db).1.weather ≡ [])
unfolding prune_deliveries statement
prune_calm cutoff batch db h = ground arith

module _ (cutoff batch : ℕ) (p : 0 < batch) where
  abbrev Drained : Db → ℕ × Db → Type 0
  Drained db out =
      (out.0 ≡ length (select (is_prunable cutoff) db.tables.deliveries))
      × (out.1.tables.deliveries ≡ select (ineligible cutoff) db.tables.deliveries)

  abbrev left : Db → ℕ
  left db = length (select (is_prunable cutoff) db.tables.deliveries)

  none_left :
      (xs : List DeliveryRow)
      → length (take batch (select (is_prunable cutoff) xs)) ≡ 0
      → (drop_first (is_prunable cutoff) batch xs ≡ select (ineligible cutoff) xs)
        × (length (select (is_prunable cutoff) xs) ≡ 0)
  none_left xs = positive batch p
    where
      positive :
          (b : ℕ)
          → 0 < b
          → length (take b (select (is_prunable cutoff) xs)) ≡ 0
          → (drop_first (is_prunable cutoff) b xs ≡ select (ineligible cutoff) xs)
            × (length (select (is_prunable cutoff) xs) ≡ 0)
      positive zero q h = absurd (omega (arith, q))
      positive (suc b) q h = none_taken (is_prunable cutoff) b xs h

  elim-Drained :
      (fuel : ℕ) (db : Db) (r : Result ℕ) (n : ℕ) (mid : Db)
      → r ≡ ok n
      → n ≡ length (take batch (select (is_prunable cutoff) db.tables.deliveries))
      → mid.tables.deliveries ≡ drop_first (is_prunable cutoff) batch db.tables.deliveries
      → (left mid < fuel → Drained mid (drain_deliveries fuel batch cutoff mid))
      → left db < suc fuel
      → Drained db (elim r [
        | err e ↦ (0, mid)
        | ok n ↦ elim n [
          | zero ↦ (0, mid)
          | suc m ↦ let (rest, end) = drain_deliveries fuel batch cutoff mid in (suc m + rest, end)
        ]
      ])
  elim-Drained fuel db (err x) n mid e c d ih b = absurd (ground arith)
  elim-Drained fuel db (ok zero) n mid e c d ih b =
      let (gone, nothing) = none_left db.tables.deliveries (sym c ∙ ground arith) in
      (sym nothing, d ∙ gone)
  elim-Drained fuel db (ok (suc m)) n mid e c d ih b =
      let total = length-drop_first (is_prunable cutoff) batch db.tables.deliveries in
      let rest = ap (λ xs. length (select (is_prunable cutoff) xs)) d in
      let same : suc m ≡ n = ground arith in
      let (count, kept) = ih (omega (arith, total, rest, same, c, b)) in
      (
        omega (arith, total, rest, same, c, count),
        kept
            ∙ ap (select (ineligible cutoff)) d
            ∙ select-drop_first (is_prunable cutoff) (ineligible cutoff) (λ x h. ground arith) batch
                db.tables.deliveries,
      )

  -- Where no statement fails and a batch is not empty, fuel above the number of eligible rows is enough:
  -- the drain ends having removed exactly the rows that are terminal and older than the cutoff, in
  -- however many batches, and returns their number.
  pub drain_deliveries-select :
      (fuel : ℕ) (db : Db)
      → db.weather ≡ []
      → length (select (is_prunable cutoff) db.tables.deliveries) < fuel
      → let (n, end) = drain_deliveries fuel batch cutoff db in
        (n ≡ length (select (is_prunable cutoff) db.tables.deliveries))
        × (end.tables.deliveries ≡ select (ineligible cutoff) db.tables.deliveries)
  unfolding drain_deliveries drain
  drain_deliveries-select zero db calm b = absurd (omega (arith, b))
  drain_deliveries-select (suc fuel) db calm b =
      let (r, d, still) = prune_calm cutoff batch db calm in
      let step = prune_deliveries cutoff batch db in
      elim-Drained fuel db step.0
        (length (take batch (select (is_prunable cutoff) db.tables.deliveries))) step.1 r refl d
        (λ q. drain_deliveries-select fuel step.1 still q) b

select-prune_deliveries :
    (cutoff batch : ℕ) (db : Db)
    → select owed (prune_deliveries cutoff batch db).1.tables.deliveries
      ≡ select owed db.tables.deliveries
unfolding prune_deliveries
select-prune_deliveries cutoff batch db = ground (
  arith,
  statement_cases {0}
      (λ (t : Tables). (
        ok (length (take batch (select (is_prunable cutoff) t.deliveries))),
        record t { deliveries = drop_first (is_prunable cutoff) batch t.deliveries },
      ))
      db,
  select-drop_first (is_prunable cutoff) owed (λ x h. ground arith) batch db.tables.deliveries,
)

-- Whatever fails and whenever it stops, draining removes no pending row.
pub select-drain_deliveries :
    (fuel batch cutoff : ℕ) (db : Db)
    → select owed (drain_deliveries fuel batch cutoff db).1.tables.deliveries
      ≡ select owed db.tables.deliveries
unfolding drain_deliveries drain
select-drain_deliveries zero batch cutoff db = refl
select-drain_deliveries (suc fuel) batch cutoff db =
    let step = prune_deliveries cutoff batch db in
    went step.0 step.1 (λ d. select-drain_deliveries fuel batch cutoff d)
      (select-prune_deliveries cutoff batch db)
  where
    went :
        (r : Result ℕ) (mid : Db)
        → ((d : Db)
            → select owed (drain_deliveries fuel batch cutoff d).1.tables.deliveries
              ≡ select owed d.tables.deliveries)
        → select owed mid.tables.deliveries ≡ select owed db.tables.deliveries
        → let out : ℕ × Db = elim r [
          | err e ↦ (0, mid)
          | ok n ↦ elim n [
            | zero ↦ (0, mid)
            | suc m ↦
                let (rest, end) = drain_deliveries fuel batch cutoff mid in (suc m + rest, end)
          ]
        ] in
          select owed out.1.tables.deliveries ≡ select owed db.tables.deliveries
    went (err e) mid ih h = h
    went (ok zero) mid ih h = h
    went (ok (suc m)) mid ih h = ih mid ∙ h

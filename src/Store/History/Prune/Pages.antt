-- ===== src/Store/History/Prune/Pages.antt =====
-- Following the cursors of the pages (internal/store/ip_history.go).
use diyddns.Prelude.{
  ℕ, zero, suc, ◌+◌, ◌≤◌, ◌<◌, String, Bool, true, false, ◌≡◌, refl, sym, ap, subst, ◌∙◌, Option,
  none, some, List, [], ◌∷◌, ◌++◌, ◌==◌, ltb, if◌then◌else◌, Bool-cases, inl, inr, length, take,
  select, map, arith,
}
use diyddns.Store.Db.{Result, ok, err, HistoryRow, Db, statement}
use diyddns.Store.History.{IpHistory, scan_ip_history}
use diyddns.Store.History.Prune.{
  of_device, newest_first, last, page_limit, Cursor, past, HistoryPage, cursor_of, page_of, page,
}
use diyddns.Store.History.Prune.Sorted.{
  Sorted, Distinct, order-Sorted, drop, key, row_at, select-past,
}

-- The rows of a page and of those that its cursor leads to, on fuel.
unfoldable pub follow : ℕ → String → ℕ → Option Cursor → Db → List IpHistory
unfolding page
follow zero device_id limit cursor db = []
follow (suc fuel) device_id limit cursor db =
    let (r, db') = page device_id cursor limit db in
    elim r [
      | err e ↦ []
      | ok p ↦ elim p.next_cursor [
        | none ↦ p.rows
        | some next ↦ p.rows ++ follow fuel device_id limit (some next) db'
      ]
    ]

take-drop : (k : ℕ) (xs : List HistoryRow) → take k xs ++ drop k xs ≡ xs
take-drop zero xs = refl
take-drop (suc k) [] = refl
take-drop (suc k) (x ∷ xs) = ap (λ r. x ∷ r) (take-drop k xs)

drop-drop : (n k m : ℕ) (xs : List HistoryRow) → m ≡ n + k → drop k (drop n xs) ≡ drop m xs
drop-drop zero k m xs h = ap (λ i. drop i xs) {x = k} {y = m} (omega (arith, h))
drop-drop (suc n) zero zero [] h = refl
drop-drop (suc n) zero (suc m) [] h = refl
drop-drop (suc n) (suc k) zero [] h = refl
drop-drop (suc n) (suc k) (suc m) [] h = refl
drop-drop (suc n) k zero (x ∷ xs) h = absurd (omega (arith, h))
drop-drop (suc n) k (suc m) (x ∷ xs) h = drop-drop n k m xs (omega (arith, h))

row_at-drop : (n k m : ℕ) (xs : List HistoryRow) → m ≡ n + k → row_at k (drop n xs) ≡ row_at m xs
row_at-drop zero k m xs h = ap (λ i. row_at i xs) {x = k} {y = m} (omega (arith, h))
row_at-drop (suc n) k m [] h = refl
row_at-drop (suc n) k zero (x ∷ xs) h = absurd (omega (arith, h))
row_at-drop (suc n) k (suc m) (x ∷ xs) h = row_at-drop n k m xs (omega (arith, h))

drop-length : (n : ℕ) (xs : List HistoryRow) → length xs ≤ n → drop n xs ≡ []
drop-length zero [] h = refl
drop-length zero (x ∷ xs) h = absurd (omega (arith, h))
drop-length (suc n) [] h = refl
drop-length (suc n) (x ∷ xs) h = drop-length n xs (omega (arith, h))

map-append :
    (f : HistoryRow → IpHistory) (xs ys : List HistoryRow) → map f (xs ++ ys) ≡ map f xs ++ map f ys
map-append f [] ys = refl
map-append f (x ∷ xs) ys = ap (λ r. f x ∷ r) (map-append f xs ys)

length-map : (f : HistoryRow → IpHistory) (xs : List HistoryRow) → length (map f xs) ≡ length xs
length-map f [] = refl
length-map f (x ∷ xs) = ap suc (length-map f xs)

-- A page that is not full is the end.
take-whole : (k : ℕ) (xs : List HistoryRow) → (length (take k xs) == k) ≡ false → take k xs ≡ xs
take-whole zero xs h = absurd (ground arith)
take-whole (suc k) [] h = refl
take-whole (suc k) (x ∷ xs) h = ap (λ r. x ∷ r) (take-whole k xs (ground arith))

-- The last row of a full page.
last-take :
    (k : ℕ) (xs : List HistoryRow)
    → length (take (suc k) xs) ≡ suc k
    → (r : HistoryRow) × (row_at k xs ≡ some r)
      × (last (map scan_ip_history (take (suc k) xs)) ≡ some (scan_ip_history r))
last-take k [] h = absurd (omega (arith, h))
last-take zero (x ∷ xs) h = (x, refl, refl)
last-take (suc k) (x ∷ []) h = absurd (omega (arith, h))
last-take (suc k) (x ∷ y ∷ xs) h = last-take k (y ∷ xs) (omega (arith, h))

positive_limit : (limit : ℕ) → (k : ℕ) × (page_limit limit ≡ suc k)
positive_limit zero = (49, refl)
positive_limit (suc n) = elim (Bool-cases (ltb 500 (suc n))) [
  | inl h ↦ (499, ground arith)
  | inr h ↦ (n, ground arith)
]

module _ (device_id : String) (limit : ℕ) (db : Db) (calm : db.weather ≡ []) where
  abbrev rows : List HistoryRow
  rows = newest_first device_id db.tables.history

  abbrev given : Option Cursor → HistoryPage
  given cursor =
      page_of (page_limit limit)
        (map scan_ip_history (take (page_limit limit) (select (past cursor) rows)))

  page_calm :
      (cursor : Option Cursor)
      → ((page device_id cursor limit db).0 ≡ ok (given cursor))
        × ((page device_id cursor limit db).1 ≡ db)
  unfolding page statement
  page_calm cursor =
      subst
        (λ w.
          let d = record db { weather = w } in
          ((page device_id cursor limit d).0 ≡ ok (given cursor))
          × ((page device_id cursor limit d).1 ≡ d))
        (sym calm) (refl, refl)

  -- What a page of so many rows leads to.
  abbrev onward : ℕ → ℕ → List HistoryRow → List IpHistory
  onward fuel many zs =
      let p = page_of many (map scan_ip_history (take many zs)) in
      elim p.next_cursor [
        | none ↦ p.rows
        | some next ↦ p.rows ++ follow fuel device_id limit (some next) db
      ]

  abbrev Follows : ℕ → Type 0
  Follows fuel =
      (m : ℕ) (cursor : Option Cursor)
      → select (past cursor) rows ≡ drop m rows
      → length rows < m + fuel
      → follow fuel device_id limit cursor db ≡ map scan_ip_history (drop m rows)

  onward-rows :
      (fuel n k : ℕ)
      → Sorted rows
      → Follows fuel
      → length rows < n + suc fuel
      → onward fuel (suc k) (drop n rows) ≡ map scan_ip_history (drop n rows)
  unfolding scan_ip_history
  onward-rows fuel n k sorted ih b =
      chosen (length (map scan_ip_history (take (suc k) zs)) == suc k) refl
    where
      zs : List HistoryRow
      zs = drop n rows

      ps : List IpHistory
      ps = map scan_ip_history (take (suc k) zs)

      chosen :
          (full : Bool)
          → (length ps == suc k) ≡ full
          → elim (if full then cursor_of (last ps) else none) [
            | none ↦ ps
            | some next ↦ ps ++ follow fuel device_id limit (some next) db
          ]
            ≡ map scan_ip_history zs
      chosen false e =
          let same = length-map scan_ip_history (take (suc k) zs) in
          ap (map scan_ip_history) (take-whole (suc k) zs (ground arith))
      chosen true e =
          let same = length-map scan_ip_history (take (suc k) zs) in
          let (r, at, is) = last-take k zs (ground arith) in
          let place : row_at (n + k) rows ≡ some r = sym (row_at-drop n k (n + k) rows refl) ∙ at in
          let rest =
            ih (suc (n + k)) (some (key r)) (select-past (n + k) rows r sorted place)
              (omega (arith, b)) in
          ap
            (λ (o : Option IpHistory). elim (cursor_of o) [
              | none ↦ ps
              | some next ↦ ps ++ follow fuel device_id limit (some next) db
            ])
            is
          ∙ ap (λ x. ps ++ x) rest
          ∙ ap (λ x. ps ++ map scan_ip_history x)
              (sym (drop-drop n (suc k) (suc (n + k)) rows (omega arith)))
          ∙ sym (map-append scan_ip_history (take (suc k) zs) (drop (suc k) zs))
          ∙ ap (map scan_ip_history) (take-drop (suc k) zs)

  followed : (fuel : ℕ) → Sorted rows → Follows fuel
  unfolding follow
  followed zero sorted n cursor here b =
      ap (map scan_ip_history) (sym (drop-length n rows (omega (arith, b))))
  followed (suc fuel) sorted n cursor here b =
      let (p, q) = page_calm cursor in
      let (k, positive) = positive_limit limit in
      ap
        (λ (run : Result HistoryPage × Db). elim run.0 [
          | err e ↦ []
          | ok p ↦ elim p.next_cursor [
            | none ↦ p.rows
            | some next ↦ p.rows ++ follow fuel device_id limit (some next) run.1
          ]
        ])
        {x = page device_id cursor limit db} {y = (ok (given cursor), db)} (λ i. (p i, q i))
      ∙ ap (onward fuel (page_limit limit)) here
      ∙ ap (λ l. onward fuel l (drop n rows)) positive
      ∙ onward-rows fuel n k sorted (followed fuel sorted) b

-- Where no statement fails, following the cursors from the first page, whatever the limit, gives every
-- entry of the device once, the newest first; fuel above the number of its entries is enough.
pub follow-newest_first :
    (fuel : ℕ) (device_id : String) (limit : ℕ) (db : Db)
    → db.weather ≡ []
    → Distinct (select (of_device device_id) db.tables.history)
    → length (newest_first device_id db.tables.history) < fuel
    → follow fuel device_id limit none db
      ≡ map scan_ip_history (newest_first device_id db.tables.history)
follow-newest_first fuel device_id limit db calm distinct b =
    followed device_id limit db calm fuel
      (order-Sorted (select (of_device device_id) db.tables.history) distinct) 0 none
      (select-true (newest_first device_id db.tables.history)) (omega (arith, b))
  where
    select-true : (xs : List HistoryRow) → select (past none) xs ≡ xs
    select-true [] = refl
    select-true (x ∷ xs) = ap (λ r. x ∷ r) (select-true xs)

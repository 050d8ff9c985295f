-- ===== src/Store/History/Prune.antt =====
-- Reading and pruning ip_history (internal/store/ip_history.go).
pub mod Newest
pub mod Sorted
pub mod Pages
use diyddns.Prelude.{
  ℕ, zero, suc, String, Bool, true, false, not, ◌&&◌, ◌||◌, List, [], ◌∷◌, Option, none, some, ◌==◌,
  str_eq, ltb, if◌then◌else◌, length, take, select, drop_first, map,
}
use diyddns.Prelude.Int.{ℤ, pos, ltb_ℤ}
use diyddns.Store.Db.{not_found, Result, ok, err, HistoryRow, Tables, Sql, pure, statement, ◌>>=◌}
use diyddns.Store.Devices.Writes.{found}
use diyddns.Store.Order.{order_with, order_by_number_desc}
use diyddns.Store.History.{IpHistory, scan_ip_history}

abbrev pub of_device : String → HistoryRow → Bool
of_device device_id r = str_eq r.device_id device_id

-- ORDER BY observed_at DESC, id DESC
abbrev pub newer : HistoryRow → HistoryRow → Bool
newer x y = ltb y.observed_at x.observed_at || x.observed_at == y.observed_at && ltb y.id x.id

abbrev pub newest_first : String → List HistoryRow → List HistoryRow
newest_first device_id rows = order_with newer (select (of_device device_id) rows)

abbrev pub head : {A : Type 0} → List A → Option A
head [] = none
head (x ∷ xs) = some x

abbrev pub last : {A : Type 0} → List A → Option A
last [] = none
last (x ∷ []) = some x
last (x ∷ y ∷ xs) = last (y ∷ xs)

-- `Latest`
unfoldable pub latest : String → Sql IpHistory
latest device_id = do
  row ← statement (λ t. (found (head (newest_first device_id t.history)), t))
  pure (scan_ip_history row)

-- The limit of a page, where 0 stands for every limit that is not positive.
abbrev pub page_limit : ℕ → ℕ
page_limit zero = 50
page_limit (suc n) = if ltb 500 (suc n) then 500 else suc n

-- A decoded cursor: the instant and the id of the last row of the page before.
abbrev pub Cursor : Type 0
Cursor = ℕ × ℕ

abbrev pub past : Option Cursor → HistoryRow → Bool
past none r = true
past (some (at, id)) r = ltb r.observed_at at || r.observed_at == at && ltb r.id id

-- `HistoryPage`, with the cursor before it is encoded
pub record HistoryPage : Type 0 where
  pub rows : List IpHistory
  pub next_cursor : Option Cursor

abbrev pub cursor_of : Option IpHistory → Option Cursor
cursor_of none = none
cursor_of (some h) = some (h.observed_at, h.id)

abbrev pub page_of : ℕ → List IpHistory → HistoryPage
page_of limit rows = record {
  rows = rows;
  next_cursor = if length rows == limit then cursor_of (last rows) else none;
}

-- `Page`
unfoldable pub page : String → Option Cursor → ℕ → Sql HistoryPage
page device_id cursor limit = do
  rows ← statement λ t. (
    ok (
        map scan_ip_history
          (take (page_limit limit) (select (past cursor) (newest_first device_id t.history)))),
    t,
  )
  pure (page_of (page_limit limit) rows)

-- SELECT MAX(id)
abbrev pub max_id : List HistoryRow → ℕ
max_id [] = 0
max_id (r ∷ rows) = let rest = max_id rows in if ltb rest r.id then r.id else rest

-- id < (SELECT MIN(id) FROM (SELECT id ... ORDER BY id DESC LIMIT ?))
abbrev pub below : Option HistoryRow → HistoryRow → Bool
below none r = false
below (some least) r = ltb r.id least.id

-- The clause of the cap, which is left out for a cap of 0.
abbrev pub beyond_cap : ℕ → List HistoryRow → HistoryRow → Bool
beyond_cap zero rows r = false
beyond_cap (suc cap) rows r =
    below (last (take (suc cap) (order_by_number_desc (λ (x : HistoryRow). x.id) rows))) r

abbrev pub history_prunable : String → ℤ → ℕ → List HistoryRow → HistoryRow → Bool
history_prunable device_id older_than cap rows r =
    let own = select (of_device device_id) rows in
    of_device device_id r
    && not (r.id == max_id own)
    && (ltb_ℤ (pos r.observed_at) older_than || beyond_cap cap own r)

abbrev pub pruned_history : String → ℤ → ℕ → ℕ → Tables → Result ℕ × Tables
pruned_history device_id older_than cap batch t =
    let p : HistoryRow → Bool = history_prunable device_id older_than cap t.history in
    (
      ok (length (take batch (select p t.history))),
      record t { history = drop_first p batch t.history },
    )

-- `Prune`: the number of rows deleted. Which of them the LIMIT takes is not said by the statement;
-- here they are the first.
unfoldable pub prune_history : String → ℤ → ℕ → ℕ → Sql ℕ
prune_history device_id older_than cap batch =
    statement (pruned_history device_id older_than cap batch)

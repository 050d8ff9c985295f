-- ===== src/Store/History/Prune/Sorted.antt =====
-- The order of the pages (internal/store/ip_history.go).
use diyddns.Prelude.{
  ℕ, zero, suc, Bool, true, false, ◌≡◌, ◌≢◌, refl, subst, Option, none, some, List, [], ◌∷◌,
  if◌then◌else◌, select, All, All-kept, arith,
}
use diyddns.Store.Db.{HistoryRow}
use diyddns.Store.Order.{insert_with, order_with}
use diyddns.Store.History.Prune.{newer, past, Cursor}

-- Every row is newer than those after it.
abbrev pub Sorted : List HistoryRow → Type 0
Sorted [] = Unit
Sorted (x ∷ xs) = All (λ y. newer x y ≡ true) xs × Sorted xs

-- No two rows have the same id.
abbrev pub Distinct : List HistoryRow → Type 0
Distinct [] = Unit
Distinct (x ∷ xs) = All (λ (y : HistoryRow). y.id ≢ x.id) xs × Distinct xs

newer_trans : (x y z : HistoryRow) → newer x y ≡ true → newer y z ≡ true → newer x z ≡ true
newer_trans x y z h k = ground arith

newer_total : (x y : HistoryRow) → y.id ≢ x.id → newer x y ≡ false → newer y x ≡ true
newer_total x y h k = ground arith

All-insert :
    (P : HistoryRow → Type 0) (x : HistoryRow) (xs : List HistoryRow)
    → P x
    → All P xs
    → All P (insert_with newer x xs)
All-insert P x [] h k = (h, tt)
All-insert P x (y ∷ xs) h k =
    All-kept P (newer x y) y (x ∷ y ∷ xs) (insert_with newer x xs) k.0 (h, k)
      (All-insert P x xs h k.1)

All-weaken :
    (P Q : HistoryRow → Type 0) (xs : List HistoryRow)
    → ((x : HistoryRow) → P x → Q x)
    → All P xs
    → All Q xs
All-weaken P Q [] f h = tt
All-weaken P Q (x ∷ xs) f h = (f x h.0, All-weaken P Q xs f h.1)

insert-Sorted :
    (x : HistoryRow) (xs : List HistoryRow)
    → Sorted xs
    → All (λ (y : HistoryRow). y.id ≢ x.id) xs
    → Sorted (insert_with newer x xs)
insert-Sorted x [] h k = (tt, tt)
insert-Sorted x (y ∷ xs) h k = placed (newer x y) refl (insert-Sorted x xs h.1 k.1)
  where
    placed :
        (b : Bool)
        → newer x y ≡ b
        → Sorted (insert_with newer x xs)
        → Sorted (if b then x ∷ y ∷ xs else y ∷ insert_with newer x xs)
    placed true e rest = (
      (
        e,
        All-weaken (λ z. newer y z ≡ true) (λ z. newer x z ≡ true) xs (λ z i. newer_trans x y z e i)
            h.0,
      ),
      h,
    )
    placed false e rest =
        (All-insert (λ z. newer y z ≡ true) x xs (newer_total x y k.0 e) h.0, rest)

All-order :
    (P : HistoryRow → Type 0) (xs : List HistoryRow) → All P xs → All P (order_with newer xs)
All-order P [] h = tt
All-order P (x ∷ xs) h = All-insert P x (order_with newer xs) h.0 (All-order P xs h.1)

-- Rows with distinct ids have a strict order.
pub order-Sorted : (xs : List HistoryRow) → Distinct xs → Sorted (order_with newer xs)
order-Sorted [] h = tt
order-Sorted (x ∷ xs) h =
    insert-Sorted x (order_with newer xs) (order-Sorted xs h.1)
      (All-order (λ y. y.id ≢ x.id) xs h.0)

abbrev pub drop : ℕ → List HistoryRow → List HistoryRow
drop zero xs = xs
drop (suc n) [] = []
drop (suc n) (x ∷ xs) = drop n xs

abbrev pub key : HistoryRow → Cursor
key r = (r.observed_at, r.id)

past-newer : (x y : HistoryRow) → newer x y ≡ true → past (some (key x)) y ≡ true
past-newer x y h = ground arith

not_past : (x y : HistoryRow) → newer y x ≡ true → past (some (key x)) y ≡ false
not_past x y h = ground arith

not_past_self : (x : HistoryRow) → past (some (key x)) x ≡ false
not_past_self x = ground arith

select-All :
    (p : HistoryRow → Bool) (xs : List HistoryRow) → All (λ x. p x ≡ true) xs → select p xs ≡ xs
select-All p [] h = refl
select-All p (x ∷ xs) h = let rest = select-All p xs h.1 in let this = h.0 in ground arith

abbrev pub row_at : ℕ → List HistoryRow → Option HistoryRow
row_at n [] = none
row_at zero (x ∷ xs) = some x
row_at (suc n) (x ∷ xs) = row_at n xs

All-row_at :
    (P : HistoryRow → Type 0) (n : ℕ) (xs : List HistoryRow) (r : HistoryRow)
    → All P xs
    → row_at n xs ≡ some r
    → P r
All-row_at P n [] r h e = absurd (ground arith)
All-row_at P zero (x ∷ xs) r h e = let is : x ≡ r = ground arith in subst P is h.0
All-row_at P (suc n) (x ∷ xs) r h e = All-row_at P n xs r h.1 e

-- What lies past the row of a place are the rows after it.
pub select-past :
    (n : ℕ) (xs : List HistoryRow) (r : HistoryRow)
    → Sorted xs
    → row_at n xs ≡ some r
    → select (past (some (key r))) xs ≡ drop (suc n) xs
select-past n [] r h e = absurd (ground arith)
select-past zero (x ∷ xs) r h e =
    let is : x ≡ r = ground arith in
    let after = select-All (past (some (key x))) xs (
      All-weaken (λ y. newer x y ≡ true) (λ y. past (some (key x)) y ≡ true) xs (past-newer x)
        h.0) in
    let self = not_past_self x in
    subst (λ z. select (past (some (key z))) (x ∷ xs) ≡ xs) is (ground arith)
select-past (suc n) (x ∷ xs) r h e =
    let out = not_past r x (All-row_at (λ y. newer x y ≡ true) n xs r h.0 e) in
    let rest = select-past n xs r h.1 e in ground arith

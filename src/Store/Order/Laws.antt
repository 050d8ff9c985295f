-- ===== src/Store/Order/Laws.antt =====
-- An order of the rows changes neither how many pass a test nor whether one does.
use diyddns.Prelude.{String, Bool, ◌≡◌, refl, List, [], ◌∷◌, select, length, arith}
use diyddns.Store.Order.{insert_by, order_by}

module _ {A : Type 0} (p : A → Bool) (key : A → String) where
  length-select_insert :
      (x : A) (xs : List A) → length (select p (insert_by key x xs)) ≡ length (select p (x ∷ xs))
  length-select_insert x [] = refl
  length-select_insert x (y ∷ xs) = ground (arith, length-select_insert x xs)

  -- As many rows pass a test in the order as before.
  pub length-select_order :
      (xs : List A) → length (select p (order_by key xs)) ≡ length (select p xs)
  length-select_order [] = refl
  length-select_order (x ∷ xs) =
      ground (arith, length-select_insert x (order_by key xs), length-select_order xs)

-- ===== src/Store/Order.antt =====
-- ORDER BY.
pub mod Laws
use Prim.Native.String
use Prim.Native.Nat.{Ordering}
use diyddns.Prelude.{
  ℕ, String, Bool, true, false, List, [], ◌∷◌, ◌&&◌, ◌||◌, ltb, ◌==◌, if◌then◌else◌,
}

-- ORDER BY
abbrev insert_by : {A : Type 0} → (A → String) → A → List A → List A
insert_by key r [] = r ∷ []
insert_by key r (x ∷ xs) =
    let rest = insert_by key r xs in
    elim (String.compare (key x) (key r)) [ Ordering.gt ↦ r ∷ x ∷ xs | _ ↦ x ∷ rest ]

abbrev pub order_by : {A : Type 0} → (A → String) → List A → List A
order_by key [] = []
order_by key (x ∷ xs) = insert_by key x (order_by key xs)

abbrev insert_by_number : {A : Type 0} → (A → ℕ) → A → List A → List A
insert_by_number key r [] = r ∷ []
insert_by_number key r (x ∷ xs) =
    let rest = insert_by_number key r xs in if ltb (key r) (key x) then r ∷ x ∷ xs else x ∷ rest

abbrev pub order_by_number : {A : Type 0} → (A → ℕ) → List A → List A
order_by_number key [] = []
order_by_number key (x ∷ xs) = insert_by_number key x (order_by_number key xs)

abbrev pub insert_with : {A : Type 0} → (A → A → Bool) → A → List A → List A
insert_with before r [] = r ∷ []
insert_with before r (x ∷ xs) =
    let rest = insert_with before r xs in if before r x then r ∷ x ∷ xs else x ∷ rest

-- ORDER BY several columns, by the order that they make.
abbrev pub order_with : {A : Type 0} → (A → A → Bool) → List A → List A
order_with before [] = []
order_with before (x ∷ xs) = insert_with before x (order_with before xs)

-- a < b, for texts
abbrev pub text_lt : String → String → Bool
text_lt a b = elim (String.compare a b) [ Ordering.lt ↦ true | _ ↦ false ]

-- ORDER BY created_at, id
abbrev pub older : {A : Type 0} → (A → ℕ) → (A → String) → A → A → Bool
older at id x y = ltb (at x) (at y) || at x == at y && text_lt (id x) (id y)

abbrev insert_by_number_desc : {A : Type 0} → (A → ℕ) → A → List A → List A
insert_by_number_desc key r [] = r ∷ []
insert_by_number_desc key r (x ∷ xs) =
    let rest = insert_by_number_desc key r xs in
    if ltb (key x) (key r) then r ∷ x ∷ xs else x ∷ rest

-- ORDER BY ... DESC
abbrev pub order_by_number_desc : {A : Type 0} → (A → ℕ) → List A → List A
order_by_number_desc key [] = []
order_by_number_desc key (x ∷ xs) = insert_by_number_desc key x (order_by_number_desc key xs)

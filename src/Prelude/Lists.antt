-- ===== src/Prelude/Lists.antt =====
-- Lists measured by the native numbers.
use Prim.Native.Nat.{ℕ, zero, suc, ◌+◌, ◌≤◌}
use mathlib.Core.Path.{◌≡◌, refl}
use mathlib.Core.Bool.{Bool, false, true, ◌||◌}
use mathlib.Core.Option.{Option, none, some}
use mathlib.Core.List.{List, [], ◌∷◌, ◌++◌}
use native.Mathlib.Omega.{arith}
use diyddns.Prelude.Tests.{if◌then◌else◌}

module _ {ℓ} {A : Type ℓ} where
  abbrev pub length : List A → ℕ
  length [] = 0
  length (x ∷ xs) = suc (length xs)

  abbrev pub take : ℕ → List A → List A
  take zero xs = []
  take (suc n) [] = []
  take (suc n) (x ∷ xs) = x ∷ take n xs

  -- The rows that pass a Boolean test, in order.
  abbrev pub select : (A → Bool) → List A → List A
  select p [] = []
  select p (x ∷ xs) = let rest = select p xs in if p x then x ∷ rest else rest

  -- A rewrite of the rows that pass a test.
  abbrev pub update_where : (A → Bool) → (A → A) → List A → List A
  update_where p f [] = []
  update_where p f (x ∷ xs) = (if p x then f x else x) ∷ update_where p f xs

  abbrev pub find_where : (A → Bool) → List A → Option A
  find_where p [] = none
  find_where p (x ∷ xs) = let rest = find_where p xs in if p x then some x else rest

  abbrev pub exists : (A → Bool) → List A → Bool
  exists p [] = false
  exists p (x ∷ xs) = p x || exists p xs

  abbrev pub All {κ} : (A → Type κ) → List A → Type κ
  All P [] = Unit
  All P (x ∷ xs) = P x × All P xs

  -- The rows without the first `batch` of those that pass a test.
  abbrev pub drop_first : (A → Bool) → ℕ → List A → List A
  drop_first p batch [] = []
  drop_first p zero (x ∷ xs) = x ∷ xs
  drop_first p (suc batch) (x ∷ xs) =
      let rest = drop_first p batch xs in
      let kept = drop_first p (suc batch) xs in if p x then rest else x ∷ kept

  pub length-append : (xs ys : List A) → length (xs ++ ys) ≡ length xs + length ys
  length-append [] ys = omega arith
  length-append (x ∷ xs) ys = omega (arith, length-append xs ys)

  pub length-select-le : (p : A → Bool) (xs : List A) → length (select p xs) ≤ length xs
  length-select-le p [] = omega arith
  length-select-le p (x ∷ xs) = ground (arith, length-select-le p xs)

  -- Two lists of one length whose elements are related in order.
  abbrev pub All2 : (A → A → Type 0) → List A → List A → Type 0
  All2 R [] [] = Unit
  All2 R [] (y ∷ ys) = ⊥
  All2 R (x ∷ xs) [] = ⊥
  All2 R (x ∷ xs) (y ∷ ys) = R x y × All2 R xs ys

  pub All2-same : (R : A → A → Type 0) → ((x : A) → R x x) → (xs : List A) → All2 R xs xs
  All2-same R h [] = tt
  All2-same R h (x ∷ xs) = (h x, All2-same R h xs)

  pub All2-trans :
      (R : A → A → Type 0)
      → ((x y z : A) → R x y → R y z → R x z)
      → (xs ys zs : List A) → All2 R xs ys
      → All2 R ys zs
      → All2 R xs zs
  All2-trans R h [] [] [] a b = tt
  All2-trans R h [] [] (z ∷ zs) a b = absurd b
  All2-trans R h [] (y ∷ ys) zs a b = absurd a
  All2-trans R h (x ∷ xs) [] zs a b = absurd a
  All2-trans R h (x ∷ xs) (y ∷ ys) [] a b = absurd b
  All2-trans R h (x ∷ xs) (y ∷ ys) (z ∷ zs) a b = (h x y z a.0 b.0, All2-trans R h xs ys zs a.1 b.1)

  pub All2-update_where :
      (R : A → A → Type 0) (p : A → Bool) (f : A → A)
      → ((x : A) → R x x)
      → ((x : A) → p x ≡ true → R x (f x))
      → (xs : List A) → All2 R xs (update_where p f xs)
  All2-update_where R p f same h [] = tt
  All2-update_where R p f same h (x ∷ xs) = (updated (p x) refl, All2-update_where R p f same h xs)
    where
      updated : (b : Bool) → p x ≡ b → R x (if b then f x else x)
      updated true e = h x e
      updated false e = same x

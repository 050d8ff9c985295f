-- ===== src/Prelude/Exists.antt =====
-- Whether a row passes a test, and which is the first, through the operations on lists.
use Prim.Native.Nat.{◌≤◌}
use mathlib.Core.Path.{◌≡◌, refl, subst}
use mathlib.Core.Logic.{inl, inr}
use mathlib.Core.Bool.{Bool, false, true, ◌&&◌}
use mathlib.Core.Option.{some}
use mathlib.Core.List.{List, [], ◌∷◌, ◌++◌, map}
use native.Mathlib.Omega.{arith}
use diyddns.Prelude.Tests.{Bool-cases}
use diyddns.Prelude.Lists.{length, select, update_where, find_where, exists}

module _ {ℓ} {A : Type ℓ} where
  pub exists-append :
      (p : A → Bool) (xs ys : List A) → exists p xs ≡ true → exists p (xs ++ ys) ≡ true
  exists-append p [] ys h = absurd (ground arith)
  exists-append p (x ∷ xs) ys h = ground (arith, exists-append p xs ys)

  pub exists-append_last :
      (p : A → Bool) (xs : List A) (y : A) → p y ≡ true → exists p (xs ++ y ∷ []) ≡ true
  exists-append_last p [] y h = ground arith
  exists-append_last p (x ∷ xs) y h = ground (arith, exists-append_last p xs y h)

  -- Rows that a filter keeps are still found after it.
  pub exists-select :
      (p q : A → Bool) (xs : List A)
      → ((x : A) → p x ≡ true → q x ≡ true)
      → exists p xs ≡ true
      → exists p (select q xs) ≡ true
  exists-select p q [] f h = absurd (ground arith)
  exists-select p q (x ∷ xs) f h = ground (arith, exists-select p q xs f, f x)

  pub exists-weaken :
      (p q : A → Bool) (xs : List A)
      → ((x : A) → p x ≡ true → q x ≡ true)
      → exists p xs ≡ true
      → exists q xs ≡ true
  exists-weaken p q [] f h = absurd (ground arith)
  exists-weaken p q (x ∷ xs) f h = ground (arith, exists-weaken p q xs f, f x)

  pub exists-stronger :
      (p q : A → Bool) (xs : List A)
      → ((x : A) → p x ≡ true → q x ≡ true)
      → exists q xs ≡ false
      → exists p xs ≡ false
  exists-stronger p q [] f h = refl
  exists-stronger p q (x ∷ xs) f h = ground (arith, exists-stronger p q xs f, f x)

  -- A rewrite of no row.
  pub update_where-exists :
      (p : A → Bool) (f : A → A) (xs : List A) → exists p xs ≡ false → update_where p f xs ≡ xs
  update_where-exists p f [] h = refl
  update_where-exists p f (x ∷ xs) h = ground (arith, update_where-exists p f xs)

  pub select-exists : (p : A → Bool) (xs : List A) → exists p xs ≡ false → select p xs ≡ []
  select-exists p [] h = refl
  select-exists p (x ∷ xs) h = ground (arith, select-exists p xs)

  -- A filter that undoes an append.
  pub select-append_last :
      (p q : A → Bool) (xs : List A) (y : A)
      → ((x : A) → q x ≡ false → p x ≡ true)
      → exists q xs ≡ false
      → p y ≡ false
      → select p (xs ++ y ∷ []) ≡ xs
  select-append_last p q [] y f h k = ground arith
  select-append_last p q (x ∷ xs) y f h k = ground (arith, f x, select-append_last p q xs y f)

  -- The first row that passes a test, after a rewrite that keeps the test.
  pub find_where-update_where :
      (p : A → Bool) (f : A → A) (xs : List A) (x : A)
      → ((y : A) → p (f y) ≡ p y)
      → find_where p xs ≡ some x
      → find_where p (update_where p f xs) ≡ some (f x)
  find_where-update_where p f [] x k h = absurd (ground arith)
  find_where-update_where p f (y ∷ xs) x k h =
      ground (arith, k y, find_where-update_where p f xs x k)

  -- A row that was found passes the test, and exists.
  pub find_where-exists :
      (p : A → Bool) (xs : List A) (x : A)
      → find_where p xs ≡ some x
      → (p x ≡ true) × (exists p xs ≡ true)
  find_where-exists p [] x h = absurd (ground arith)
  find_where-exists p (y ∷ xs) x h = elim (Bool-cases (p y)) [
    | inl e ↦ let is : y ≡ x = ground arith in (subst (λ z. p z ≡ true) is e, ground arith)
    | inr e ↦ let rest = find_where-exists p xs x (ground arith) in (rest.0, ground arith)
  ]

  -- A rewrite under which the rows that pass a test go on passing it.
  pub exists-update_where :
      (p q : A → Bool) (f : A → A) (xs : List A)
      → ((x : A) → q x ≡ true → p x ≡ true → p (f x) ≡ true)
      → exists p xs ≡ true
      → exists p (update_where q f xs) ≡ true
  exists-update_where p q f [] h e = absurd (ground arith)
  exists-update_where p q f (x ∷ xs) h e = ground (arith, h x, exists-update_where p q f xs h)

  exists-none :
      (p q : A → Bool) (xs : List A)
      → length (select p xs) ≡ 0
      → exists (λ y. p y && q y) xs ≡ false
  exists-none p q [] h = refl
  exists-none p q (x ∷ xs) h = ground (arith, exists-none p q xs)

  -- Of rows with a key, the one that was found decides.
  pub exists_unique :
      (p q : A → Bool) (xs : List A) (x : A)
      → length (select p xs) ≤ 1
      → find_where p xs ≡ some x
      → exists (λ y. p y && q y) xs ≡ q x
  exists_unique p q [] x h e = absurd (ground arith)
  exists_unique p q (y ∷ xs) x h e = elim (Bool-cases (p y)) [
    | inl k ↦
        let is : y ≡ x = ground arith in
        let rest = exists-none p q xs (ground arith) in
        subst (λ z. exists (λ y. p y && q y) (y ∷ xs) ≡ q z) is (ground arith)
    | inr k ↦ let rest = exists_unique p q xs x (ground arith) (ground arith) in ground arith
  ]

  -- A rewrite of rows that pass the test neither before nor after.
  pub exists-update_other :
      (p q : A → Bool) (f : A → A) (xs : List A)
      → ((x : A) → q x ≡ true → (p x ≡ false) × (p (f x) ≡ false))
      → exists p (update_where q f xs) ≡ exists p xs
  exists-update_other p q f [] h = refl
  exists-update_other p q f (x ∷ xs) h = ground (arith, h x, exists-update_other p q f xs h)

  -- A filter that drops only rows that fail the test.
  pub exists-select_other :
      (p q : A → Bool) (xs : List A)
      → ((x : A) → q x ≡ false → p x ≡ false)
      → exists p (select q xs) ≡ exists p xs
  exists-select_other p q [] h = refl
  exists-select_other p q (x ∷ xs) h = ground (arith, h x, exists-select_other p q xs h)

  -- A row appended to rows that fail its test is the one found.
  pub find_where-append_last :
      (p : A → Bool) (xs : List A) (y : A)
      → exists p xs ≡ false
      → p y ≡ true
      → find_where p (xs ++ y ∷ []) ≡ some y
  find_where-append_last p [] y h k = ground arith
  find_where-append_last p (x ∷ xs) y h k = ground (arith, find_where-append_last p xs y)

  -- After a filter that drops them, no row passes a test.
  pub exists-dropped :
      (p q : A → Bool) (xs : List A)
      → ((x : A) → q x ≡ true → p x ≡ false)
      → exists p (select q xs) ≡ false
  exists-dropped p q [] h = refl
  exists-dropped p q (x ∷ xs) h = ground (arith, h x, exists-dropped p q xs h)

  pub exists-appended :
      (p : A → Bool) (xs : List A) (y : A)
      → exists p xs ≡ false
      → p y ≡ false
      → exists p (xs ++ y ∷ []) ≡ false
  exists-appended p [] y h k = ground arith
  exists-appended p (x ∷ xs) y h k = ground (arith, exists-appended p xs y)

  pub exists-filtered :
      (p q : A → Bool) (xs : List A) → exists p xs ≡ false → exists p (select q xs) ≡ false
  exists-filtered p q [] h = refl
  exists-filtered p q (x ∷ xs) h = ground (arith, exists-filtered p q xs)

  -- A rewrite that no test sees.
  pub exists-update_same :
      (p q : A → Bool) (f : A → A) (xs : List A)
      → ((x : A) → p (f x) ≡ p x)
      → exists p (update_where q f xs) ≡ exists p xs
  exists-update_same p q f [] h = refl
  exists-update_same p q f (x ∷ xs) h = ground (arith, h x, exists-update_same p q f xs h)

  pub exists-map_same :
      (p : A → Bool) (f : A → A) (xs : List A)
      → ((x : A) → p (f x) ≡ p x)
      → exists p (map f xs) ≡ exists p xs
  exists-map_same p f [] h = refl
  exists-map_same p f (x ∷ xs) h = ground (arith, h x, exists-map_same p f xs h)

  -- A row that was found is one of the rows.
  pub find_where-exists_other :
      (p q : A → Bool) (xs : List A) (x : A)
      → find_where p xs ≡ some x
      → q x ≡ true
      → exists q xs ≡ true
  find_where-exists_other p q [] x h k = absurd (ground arith)
  find_where-exists_other p q (y ∷ xs) x h k = elim (Bool-cases (p y)) [
    | inl e ↦
        let is : x ≡ y = ground arith in
        let passes : q y ≡ true = subst (λ z. q z ≡ true) is k in ground arith
    | inr e ↦ let rest = find_where-exists_other p q xs x (ground arith) k in ground arith
  ]

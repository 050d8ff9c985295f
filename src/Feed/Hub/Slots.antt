-- ===== src/Feed/Hub/Slots.antt =====
-- Rows of the hub by their place (internal/server/feed/hub.go).
use diyddns.Prelude.{
  ℕ, zero, suc, Bool, true, false, ◌≡◌, ◌≢◌, refl, ap, some, List, [], ◌∷◌, ◌++◌, map,
  if◌then◌else◌, length, select, update_where, All, arith,
}
use diyddns.Feed.Hub.{nth, update_at}

module _ {A : Type 0} where
  pub nth-append :
      (k : ℕ) (xs : List A) (y x : A) → nth k xs ≡ some x → nth k (xs ++ y ∷ []) ≡ some x
  nth-append k [] y x h = absurd (ground arith)
  nth-append zero (z ∷ xs) y x h = h
  nth-append (suc k) (z ∷ xs) y x h = nth-append k xs y x h

  pub nth-map :
      (k : ℕ) (f : A → A) (xs : List A) (x : A) → nth k xs ≡ some x → nth k (map f xs) ≡ some (f x)
  nth-map k f [] x h = absurd (ground arith)
  nth-map zero f (z ∷ xs) x h = ground arith
  nth-map (suc k) f (z ∷ xs) x h = nth-map k f xs x h

  pub nth-update_where :
      (k : ℕ) (p : A → Bool) (f : A → A) (xs : List A) (x : A)
      → nth k xs ≡ some x
      → nth k (update_where p f xs) ≡ some (if p x then f x else x)
  nth-update_where k p f [] x h = absurd (ground arith)
  nth-update_where zero p f (z ∷ xs) x h = ground arith
  nth-update_where (suc k) p f (z ∷ xs) x h = nth-update_where k p f xs x h

  pub nth-update_same :
      (k : ℕ) (f : A → A) (xs : List A) (x : A)
      → nth k xs ≡ some x
      → nth k (update_at k f xs) ≡ some (f x)
  nth-update_same k f [] x h = absurd (ground arith)
  nth-update_same zero f (z ∷ xs) x h = ground arith
  nth-update_same (suc k) f (z ∷ xs) x h = nth-update_same k f xs x h

  pub nth-update_other :
      (k j : ℕ) (f : A → A) (xs : List A) → j ≢ k → nth k (update_at j f xs) ≡ nth k xs
  nth-update_other k j f [] h = refl
  nth-update_other zero zero f (z ∷ xs) h = absurd (h refl)
  nth-update_other zero (suc j) f (z ∷ xs) h = refl
  nth-update_other (suc k) zero f (z ∷ xs) h = refl
  nth-update_other (suc k) (suc j) f (z ∷ xs) h = nth-update_other k j f xs (λ e. h (ap suc e))

  -- A rewrite of one row that a test does not see.
  pub length-select-update_at :
      (p : A → Bool) (k : ℕ) (f : A → A) (xs : List A)
      → ((x : A) → p (f x) ≡ p x)
      → length (select p (update_at k f xs)) ≡ length (select p xs)
  length-select-update_at p k f [] h = refl
  length-select-update_at p zero f (x ∷ xs) h = ground (arith, h x)
  length-select-update_at p (suc k) f (x ∷ xs) h =
      ground (arith, length-select-update_at p k f xs h)

  -- A rewrite of one row that leaves the test.
  pub length-select-leave :
      (p : A → Bool) (k : ℕ) (f : A → A) (xs : List A) (x : A)
      → nth k xs ≡ some x
      → p x ≡ true
      → p (f x) ≡ false
      → suc (length (select p (update_at k f xs))) ≡ length (select p xs)
  length-select-leave p k f [] x h i o = absurd (ground arith)
  length-select-leave p zero f (z ∷ xs) x h i o = ground arith
  length-select-leave p (suc k) f (z ∷ xs) x h i o =
      ground (arith, length-select-leave p k f xs x h i o)

  pub length-select-map :
      (p : A → Bool) (f : A → A) (xs : List A)
      → ((x : A) → p (f x) ≡ p x)
      → length (select p (map f xs)) ≡ length (select p xs)
  length-select-map p f [] h = refl
  length-select-map p f (x ∷ xs) h = ground (arith, h x, length-select-map p f xs h)

  pub length-select-update_where :
      (p q : A → Bool) (f : A → A) (xs : List A)
      → ((x : A) → p (f x) ≡ p x)
      → length (select p (update_where q f xs)) ≡ length (select p xs)
  length-select-update_where p q f [] h = refl
  length-select-update_where p q f (x ∷ xs) h =
      ground (arith, h x, length-select-update_where p q f xs h)

  pub length-select-append :
      (p : A → Bool) (xs : List A) (y : A)
      → p y ≡ true
      → length (select p (xs ++ y ∷ [])) ≡ suc (length (select p xs))
  length-select-append p [] y h = ground arith
  length-select-append p (x ∷ xs) y h = ground (arith, length-select-append p xs y h)

  pub All-update_at :
      (P : A → Type 0) (k : ℕ) (f : A → A) (xs : List A)
      → ((x : A) → P x → P (f x))
      → All P xs
      → All P (update_at k f xs)
  All-update_at P k f [] g h = tt
  All-update_at P zero f (x ∷ xs) g h = (g x h.0, h.1)
  All-update_at P (suc k) f (x ∷ xs) g h = (h.0, All-update_at P k f xs g h.1)

  pub All-total :
      (P : A → Type 0) (f : A → A) (xs : List A) → ((x : A) → P (f x)) → All P (map f xs)
  All-total P f [] g = tt
  All-total P f (x ∷ xs) g = (g x, All-total P f xs g)

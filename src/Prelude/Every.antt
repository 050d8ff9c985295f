-- ===== src/Prelude/Every.antt =====
-- What holds of every element, through the operations on lists.
use Prim.Native.Nat.{ℕ, zero, suc}
use mathlib.Core.Path.{◌≡◌, refl, sym, ◌∙◌, subst}
use mathlib.Core.Bool.{Bool, true, false}
use mathlib.Core.Option.{Option, some}
use mathlib.Core.List.{List, [], ◌∷◌, ◌++◌, map}
use native.Mathlib.Omega.{arith}
use diyddns.Prelude.Tests.{if◌then◌else◌}
use diyddns.Prelude.Lists.{All, select, update_where, find_where, drop_first}

pub All-append :
    {A : Type 0} (P : A → Type 0) (xs : List A) (y : A) → All P xs → P y → All P (xs ++ y ∷ [])
All-append P [] y h k = (k, tt)
All-append P (x ∷ xs) y h k = (h.0, All-append P xs y h.1 k)

pub All-kept :
    {A : Type 0} (P : A → Type 0) (b : Bool) (x : A) (xs ys : List A)
    → P x
    → All P xs
    → All P ys
    → All P (if b then xs else x ∷ ys)
All-kept P true x xs ys h k l = k
All-kept P false x xs ys h k l = (h, l)

pub All-select :
    {A : Type 0} (P : A → Type 0) (p : A → Bool) (xs : List A) → All P xs → All P (select p xs)
All-select P p [] h = tt
All-select P p (x ∷ xs) h = kept (p x) (All-select P p xs h.1)
  where
    kept : (b : Bool) → All P (select p xs) → All P (if b then x ∷ select p xs else select p xs)
    kept true k = (h.0, k)
    kept false k = k

pub All-update_where :
    {A : Type 0} (P : A → Type 0) (p : A → Bool) (f : A → A) (xs : List A)
    → ((x : A) → P x → P (f x))
    → All P xs
    → All P (update_where p f xs)
All-update_where P p f [] k h = tt
All-update_where P p f (x ∷ xs) k h = (updated (p x), All-update_where P p f xs k h.1)
  where
    updated : (b : Bool) → P (if b then f x else x)
    updated true = k x h.0
    updated false = h.0

pub All-drop_first :
    {A : Type 0} (P : A → Type 0) (p : A → Bool) (batch : ℕ) (xs : List A)
    → All P xs
    → All P (drop_first p batch xs)
All-drop_first P p batch [] h = tt
All-drop_first P p zero (x ∷ xs) h = h
All-drop_first P p (suc batch) (x ∷ xs) h =
    All-kept P (p x) x (drop_first p batch xs) (drop_first p (suc batch) xs) h.0
      (All-drop_first P p batch xs h.1) (All-drop_first P p (suc batch) xs h.1)

some_inj : {A : Type 0} {a b : A} → some a ≡ some b → a ≡ b
some_inj h = ground arith

pub All-find_where :
    {A : Type 0} (P : A → Type 0) (p : A → Bool) (xs : List A) (x : A)
    → All P xs
    → find_where p xs ≡ some x
    → P x
All-find_where P p [] x h e = absurd (ground arith)
All-find_where {A} P p (y ∷ ys) x h e =
    either (p y) (find_where p ys) refl (λ k. All-find_where P p ys x h.1 k) e
  where
    either :
        (b : Bool) (o : Option A)
        → o ≡ find_where p ys
        → (find_where p ys ≡ some x → P x)
        → (if b then some y else o) ≡ some x
        → P x
    either true o q k z = subst P (some_inj z) h.0
    either false o q k z = k (sym q ∙ z)

pub All-map :
    {A B : Type 0} (P : B → Type 0) (Q : A → Type 0) (f : A → B) (xs : List A)
    → ((x : A) → Q x → P (f x))
    → All Q xs
    → All P (map f xs)
All-map P Q f [] k h = tt
All-map P Q f (x ∷ xs) k h = (k x h.0, All-map P Q f xs k h.1)

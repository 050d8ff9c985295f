-- ===== src/Feed/Hub/Order/Effects.antt =====
-- What a call may do to the buffer of one subscriber (internal/server/feed/hub.go).
use diyddns.Prelude.{
  ℕ, String, true, ◌≡◌, refl, sym, subst, ◌∙◌, Option, none, some, List, [], ◌∷◌, ◌++◌, ◌==◌,
  if◌then◌else◌, Bool-cases, inl, inr, arith,
}
use diyddns.Feed.Hub.{
  Subscriber, Hub, nth, update_at, Action, subscribes, broadcasts, closes, takes, unsubscribes,
  cancels, shuts_down, act,
}
use diyddns.Feed.Hub.Slots.{nth-update_same, nth-update_other}

abbrev pub sent_by : Action → List String
sent_by (broadcasts payload) = payload ∷ []
sent_by (subscribes token_id) = []
sent_by (closes token_id) = []
sent_by (takes k) = []
sent_by (unsubscribes k) = []
sent_by (cancels k c) = []
sent_by shuts_down = []

abbrev pub first_of : List String → List String
first_of [] = []
first_of (x ∷ xs) = x ∷ []

abbrev pub buffer : Option Subscriber → List String
buffer none = []
buffer (some s) = s.ch

-- What the pump of the k-th subscriber gets by a call.
abbrev pub written_by : ℕ → Action → Hub → List String
written_by k (takes j) h = if j == k then first_of (buffer (nth k h.subs)) else []
written_by k (broadcasts payload) h = []
written_by k (subscribes token_id) h = []
written_by k (closes token_id) h = []
written_by k (unsubscribes j) h = []
written_by k (cancels j c) h = []
written_by k shuts_down h = []

-- The buffer grows by what was sent, or it does not and then a live subscriber missed nothing.
pub data Effect (s : Subscriber) (w p : List String) (s' : Subscriber) : Type 0 where
  grew : w ++ s'.ch ≡ s.ch ++ p → s.live ≡ true → Effect s w p s'
  kept : w ++ s'.ch ≡ s.ch → (s'.live ≡ true → (s.live ≡ true) × (p ≡ [])) → Effect s w p s'

abbrev pub After : ℕ → Action → Hub → Subscriber → Type 0
After k a h s =
    (s' : Subscriber) × (nth k (act a h).subs ≡ some s')
    × Effect s (written_by k a h) (sent_by a) s'

pub alike : (s s' : Subscriber) → s'.ch ≡ s.ch → s'.live ≡ s.live → Effect s [] [] s'
alike s s' same l = kept same (λ e. (sym l ∙ e, refl))

-- One row is rewritten: this one, or another.
pub nth-update_at :
    (k j : ℕ) (f : Subscriber → Subscriber) (subs : List Subscriber) (s : Subscriber)
    → nth k subs ≡ some s
    → nth k (update_at j f subs) ≡ some (if j == k then f s else s)
nth-update_at k j f subs s h = elim (Bool-cases (j == k)) [
  | inl e ↦
      let same : j ≡ k = ground arith in
      let at = nth-update_same k f subs s h in
      subst (λ i. nth k (update_at i f subs) ≡ some (if j == k then f s else s)) (sym same)
        (ground arith)
  | inr e ↦ let other = nth-update_other k j f subs (λ i. absurd (ground arith)) in ground arith
]

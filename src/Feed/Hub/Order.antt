-- ===== src/Feed/Hub/Order.antt =====
-- The stream of a subscriber has no gap (internal/server/feed/hub.go).
pub mod Effects
pub mod Drop
pub mod Calls
use mathlib.Core.List.{append_assoc, append-nil}
use diyddns.Prelude.{
  ℕ, String, Bool, true, false, ◌≡◌, refl, sym, ap, subst, ◌∙◌, Option, none, some, List, [], ◌∷◌,
  ◌++◌, Bool-cases, inl, inr, arith,
}
use diyddns.Feed.Hub.{Subscriber, Hub, nth, Action, act, act_all}
use diyddns.Feed.Hub.Order.Effects.{sent_by, written_by, Effect, grew, kept}
use diyddns.Feed.Hub.Order.Calls.{act-After}

-- The payloads that are broadcast, and those that the pump of the k-th subscriber gets, in order.
abbrev pub sent : List Action → List String
sent [] = []
sent (a ∷ actions) = sent_by a ++ sent actions

abbrev pub written : ℕ → List Action → Hub → List String
written k [] h = []
written k (a ∷ actions) h = written_by k a h ++ written k actions (act a h)

-- What the pump got and what is still buffered make up the buffer at first and what was sent since, up
-- to a point; nothing is missed while the subscriber is in the map, and nothing comes once it is not.
abbrev pub Streamed : Subscriber → List String → List String → Subscriber → Type 0
Streamed s p w s' =
    (missed : List String) × (s.ch ++ p ≡ w ++ s'.ch ++ missed)
    × (s'.live ≡ true → (s.live ≡ true) × (missed ≡ []))
    × (s.live ≡ false → s.ch ≡ w ++ s'.ch)

regroup : (w w' ch : List String) → w ++ (w' ++ ch) ≡ w ++ w' ++ ch
regroup w w' ch = sym (append_assoc w w' ch)

regroup_missed :
    (w w' ch missed : List String) → w ++ (w' ++ ch ++ missed) ≡ w ++ w' ++ ch ++ missed
regroup_missed w w' ch missed =
    sym (append_assoc w (w' ++ ch) missed) ∙ ap (λ x. x ++ missed) (regroup w w' ch)

Streamed-step :
    (s s1 s' : Subscriber) (w p w' p' : List String)
    → Effect s w p s1
    → Streamed s1 p' w' s'
    → Streamed s (p ++ p') (w ++ w') s'
Streamed-step s s1 s' w p w' p' (grew e l) (missed, same, live, dead) = (
  missed,
  sym (append_assoc s.ch p p')
      ∙ ap (λ x. x ++ p') (sym e)
      ∙ append_assoc w s1.ch p'
      ∙ ap (λ x. w ++ x) same
      ∙ regroup_missed w w' s'.ch missed,
  λ k. (l, (live k).1),
  λ k. absurd (ground arith),
)
Streamed-step s s1 s' w p w' p' (kept e f) (missed, same, live, dead) = stayed s1.live refl
  where
    stayed : (b : Bool) → s1.live ≡ b → Streamed s (p ++ p') (w ++ w') s'
    stayed true l =
        let (was, none_sent) = f l in
        (
          missed,
          ap (λ x. s.ch ++ (x ++ p')) none_sent
              ∙ ap (λ x. x ++ p') (sym e)
              ∙ append_assoc w s1.ch p'
              ∙ ap (λ x. w ++ x) same
              ∙ regroup_missed w w' s'.ch missed,
          λ k. (was, (live k).1),
          λ k. absurd (ground arith),
        )
    stayed false l =
        let whole = sym e ∙ ap (λ x. w ++ x) (dead l) ∙ regroup w w' s'.ch in
        (
          p ++ p',
          ap (λ x. x ++ (p ++ p')) whole,
          λ k. absurd (let came = (live k).0 in ground arith),
          λ k. whole,
        )

-- Whatever calls follow, and in whatever order, what the pump of a subscriber gets and what is left in
-- its buffer are, in order and without a gap, the payloads that its buffer held and that were broadcast
-- since, up to a point; while it is in the map that point is the end, and a subscriber that is not in
-- the map gets no more than its buffer held.
pub act_all-Streamed :
    (k : ℕ) (actions : List Action) (h : Hub) (s : Subscriber)
    → nth k h.subs ≡ some s
    → (s' : Subscriber) × (nth k (act_all actions h).subs ≡ some s')
      × Streamed s (sent actions) (written k actions h) s'
act_all-Streamed k [] h s at = (s, at, ([], refl, λ l. (l, refl), λ l. refl))
act_all-Streamed k (a ∷ actions) h s at =
    let (s1, at1, effect) = act-After k a h s at in
    let (s', at', rest) = act_all-Streamed k actions (act a h) s1 at1 in
    (
      s',
      at',
      Streamed-step s s1 s' (written_by k a h) (sent_by a) (written k actions (act a h))
          (sent actions) effect rest,
    )

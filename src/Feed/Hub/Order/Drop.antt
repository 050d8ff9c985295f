-- ===== src/Feed/Hub/Order/Drop.antt =====
-- What a broadcast does to one subscriber: it gets the payload, or is dropped
-- (internal/server/feed/hub.go).
use diyddns.Prelude.{
  ℕ, zero, suc, ◌+◌, ◌-◌, String, Bool, true, false, not, ◌&&◌, ◌≡◌, refl, sym, ap, subst, ◌∙◌,
  some, List, [], ◌∷◌, ◌++◌, map, ◌==◌, if◌then◌else◌, if-both, Bool-cases, inl, inr, exists, arith,
}
use diyddns.Feed.Hub.{
  slow_consumer, Subscriber, Hub, cancel, depart, nth, update_at, live_at, unsubscribe, cancel_at,
  has_room, send, overflowed, drop_slow, broadcast, broadcasts, act,
}
use diyddns.Feed.Hub.Slots.{nth-map}
use diyddns.Feed.Hub.Order.Effects.{Effect, grew, kept, After, nth-update_at}

-- The buffer is as it was, and who was not in the map does not come back.
abbrev pub Departed : Subscriber → Subscriber → Type 0
Departed s s' = (s'.ch ≡ s.ch) × (s'.live ≡ true → s.live ≡ true)

Departed-trans : (a b c : Subscriber) → Departed a b → Departed b c → Departed a c
Departed-trans a b c f g = (g.0 ∙ f.0, λ e. f.1 (g.1 e))

not_live : (s : Subscriber) → (s.live ≡ true → ⊥) → s.live ≡ false
not_live s h = elim (Bool-cases s.live) [ inl e ↦ absurd (h e) | inr e ↦ e ]

pub unsubscribed :
    (k j : ℕ) (h : Hub) (s : Subscriber)
    → nth k h.subs ≡ some s
    → (s' : Subscriber) × (nth k (unsubscribe j h).subs ≡ some s')
      × Departed s s'
      × (j ≡ k → s'.live ≡ false)
unfolding unsubscribe
unsubscribed k j h s at = departed (live_at (nth j h.subs)) refl
  where
    left : Hub
    left = record h { subs = update_at j depart h.subs; wg = h.wg - 1 }

    out : Bool → Subscriber
    out b = if b then depart s else s

    out-Departed : (b : Bool) → Departed s (out b)
    out-Departed true = (refl, λ e. absurd (ground arith))
    out-Departed false = (refl, λ e. e)

    departed :
        (b : Bool)
        → live_at (nth j h.subs) ≡ b
        → (s' : Subscriber) × (nth k (if b then left else h).subs ≡ some s')
          × Departed s s'
          × (j ≡ k → s'.live ≡ false)
    departed true e = (
      out (j == k),
      nth-update_at k j depart h.subs s at,
      out-Departed (j == k),
      λ i. ap (λ b. (out b).live) {x = j == k} {y = true} (ground arith),
    )
    departed false e = (
      s,
      at,
      (refl, λ e. e),
      λ i. sym (ap live_at at) ∙ ap (λ n. live_at (nth n h.subs)) (sym i) ∙ e,
    )

dropped :
    (k : ℕ) (ks : List ℕ) (h : Hub) (s : Subscriber)
    → nth k h.subs ≡ some s
    → (s' : Subscriber) × (nth k (drop_slow ks h).subs ≡ some s')
      × Departed s s'
      × (exists (λ j. j == k) ks ≡ true → s'.live ≡ false)
unfolding cancel_at
dropped k [] h s at = (s, at, (refl, λ e. e), λ e. absurd (ground arith))
dropped k (j ∷ ks) h s at =
    let s1 : Subscriber = if j == k then cancel slow_consumer s else s in
    let to1 : Departed s s1 = if-both (Departed s) (j == k) _ _ (refl, λ e. e) (refl, λ e. e) in
    let at1 = nth-update_at k j (cancel slow_consumer) h.subs s at in
    let (s2, at2, to2, out2) = unsubscribed k j (cancel_at j slow_consumer h) s1 at1 in
    let (s3, at3, to3, out3) = dropped k ks (unsubscribe j (cancel_at j slow_consumer h)) s2 at2 in
    (
      s3,
      at3,
      Departed-trans s s1 s3 to1 (Departed-trans s1 s2 s3 to2 to3),
      λ e. gone s2 s3 to3 out2 out3 e (j == k) refl,
    )
  where
    gone :
        (s2 s3 : Subscriber)
        → Departed s2 s3
        → (j ≡ k → s2.live ≡ false)
        → (exists (λ i. i == k) ks ≡ true → s3.live ≡ false)
        → exists (λ i. i == k) (j ∷ ks) ≡ true
        → (b : Bool) → (j == k) ≡ b
        → s3.live ≡ false
    gone s2 s3 to out2 out3 e true i =
        not_live s3 λ l. let is = out2 (ground arith) in let l2 = to.1 l in absurd (ground arith)
    gone s2 s3 to out2 out3 e false i = out3 (ground arith)

-- Who is full is among those that are dropped.
overflowed-nth :
    (k n : ℕ) (subs : List Subscriber) (s : Subscriber)
    → nth k subs ≡ some s
    → (s.live && not (has_room s)) ≡ true
    → exists (λ j. j == n + k) (overflowed n subs) ≡ true
overflowed-nth k n [] s at full = absurd (ground arith)
overflowed-nth zero n (x ∷ subs) s at full =
    let same : x ≡ s = ground arith in
    subst (λ z. exists (λ j. j == n + 0) (overflowed n (z ∷ subs)) ≡ true) (sym same) (ground arith)
overflowed-nth (suc k) n (x ∷ subs) s at full =
    let rest = overflowed-nth k (suc n) subs s at full in
    let same : suc n + k ≡ n + suc k = omega arith in
    let rest' : exists (λ j. j == n + suc k) (overflowed (suc n) subs) ≡ true =
      subst (λ i. exists (λ j. j == i) (overflowed (suc n) subs) ≡ true) same rest in
    ground arith

ap2_and : {a b c d : Bool} → a ≡ c → b ≡ d → (a && b) ≡ (c && d)
ap2_and {a} {b} {c} {d} h k = ap (λ x. x && b) h ∙ ap (λ y. c && y) k

send_room :
    (payload : String) (s : Subscriber)
    → s.live ≡ true
    → has_room s ≡ true
    → (send payload s).ch ≡ s.ch ++ payload ∷ []
send_room payload s l r =
    ap (λ b. (if b then record s { ch = s.ch ++ payload ∷ [] } else s).ch) (ap2_and l r)

send_refused :
    (payload : String) (s : Subscriber) → (s.live && has_room s) ≡ false → send payload s ≡ s
send_refused payload s h = ap (λ b. if b then record s { ch = s.ch ++ payload ∷ [] } else s) h

pub broadcast-After :
    (k : ℕ) (payload : String) (h : Hub) (s : Subscriber)
    → nth k h.subs ≡ some s
    → After k (broadcasts payload) h s
unfolding act broadcast
broadcast-After k payload h s at =
    let mid : Hub = record h { subs = map (send payload) h.subs } in
    let (s', at', to, out) =
      dropped k (overflowed 0 h.subs) mid (send payload s) (nth-map k (send payload) h.subs s at) in
    (s', at', sent s' to out s.live refl (has_room s) refl)
  where
    sent :
        (s' : Subscriber)
        → Departed (send payload s) s'
        → (exists (λ j. j == k) (overflowed 0 h.subs) ≡ true → s'.live ≡ false)
        → (l : Bool) → s.live ≡ l
        → (r : Bool) → has_room s ≡ r
        → Effect s [] (payload ∷ []) s'
    sent s' to out true l true r = grew (to.0 ∙ send_room payload s l r) l
    sent s' to out true l false r =
        let full : (s.live && not (has_room s)) ≡ true = ap2_and l (ap not r) in
        kept (to.0 ∙ ap (λ (z : Subscriber). z.ch) (send_refused payload s (ap2_and l r))) λ e.
          absurd (
            let gone = out (
              subst (λ i. exists (λ j. j == i) (overflowed 0 h.subs) ≡ true) (omega arith)
                (overflowed-nth k 0 h.subs s at full)) in
            ground arith)
    sent s' to out false l r e =
        let same = send_refused payload s (ap (λ b. b && has_room s) l) in
        kept (to.0 ∙ ap (λ (z : Subscriber). z.ch) same) λ e.
          absurd (let was = sym (ap (λ (z : Subscriber). z.live) same) ∙ to.1 e in ground arith)

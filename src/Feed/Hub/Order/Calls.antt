-- ===== src/Feed/Hub/Order/Calls.antt =====
-- What each call does to the buffer of one subscriber (internal/server/feed/hub.go).
use diyddns.Prelude.{
  ℕ, String, Bool, true, false, ◌&&◌, ◌≡◌, refl, ap, ◌∙◌, some, List, [], ◌∷◌, ◌++◌, leb, ◌==◌,
  str_eq, if◌then◌else◌, if-both,
}
use diyddns.Feed.Hub.{
  Cause, revoked, shutdown, Subscriber, Hub, cancel, live_count, nth, Subscription, new_subscriber,
  max_stream_conns, subscribe, cancel_at, close_token, shut_down, tail, drop_head, take_one, Action,
  subscribes, broadcasts, closes, takes, unsubscribes, cancels, shuts_down, act,
}
use diyddns.Feed.Hub.Slots.{nth-append, nth-map, nth-update_where}
use diyddns.Feed.Hub.Order.Effects.{first_of, buffer, Effect, kept, After, alike, nth-update_at}
use diyddns.Feed.Hub.Order.Drop.{unsubscribed, broadcast-After}

subscribed-After :
    (k : ℕ) (token_id : String) (h : Hub) (s : Subscriber)
    → nth k h.subs ≡ some s
    → After k (subscribes token_id) h s
unfolding act subscribe
subscribed-After k token_id h s at = (
  s,
  if-both (λ (r : Subscription × Hub). nth k r.1.subs ≡ some s) h.closed _ _ at
      (if-both (λ (r : Subscription × Hub). nth k r.1.subs ≡ some s)
        (leb max_stream_conns (live_count h)) _ _ at
        (nth-append k h.subs (new_subscriber token_id) s at)),
  alike s s refl refl,
)

closed-After :
    (k : ℕ) (token_id : String) (h : Hub) (s : Subscriber)
    → nth k h.subs ≡ some s
    → After k (closes token_id) h s
unfolding act close_token
closed-After k token_id h s at =
    let p : Subscriber → Bool = λ s. s.live && str_eq s.token_id token_id in
    (
      if p s then cancel revoked s else s,
      nth-update_where k p (cancel revoked) h.subs s at,
      if-both (Effect s [] []) (p s) _ _ (alike s (cancel revoked s) refl refl)
          (alike s s refl refl),
    )

cancelled-After :
    (k j : ℕ) (c : Cause) (h : Hub) (s : Subscriber)
    → nth k h.subs ≡ some s
    → After k (cancels j c) h s
unfolding act cancel_at
cancelled-After k j c h s at = (
  if j == k then cancel c s else s,
  nth-update_at k j (cancel c) h.subs s at,
  if-both (Effect s [] []) (j == k) _ _ (alike s (cancel c s) refl refl) (alike s s refl refl),
)

shut-After : (k : ℕ) (h : Hub) (s : Subscriber) → nth k h.subs ≡ some s → After k shuts_down h s
unfolding act shut_down
shut-After k h s at = (
  cancel shutdown s,
  nth-map k (cancel shutdown) h.subs s at,
  alike s (cancel shutdown s) refl refl,
)

head-tail : (xs : List String) → first_of xs ++ tail xs ≡ xs
head-tail [] = refl
head-tail (x ∷ xs) = refl

taken-After : (k j : ℕ) (h : Hub) (s : Subscriber) → nth k h.subs ≡ some s → After k (takes j) h s
unfolding act take_one
taken-After k j h s at =
    (if j == k then drop_head s else s, nth-update_at k j drop_head h.subs s at, taken (j == k))
  where
    taken :
        (b : Bool)
        → Effect s
            (if b then first_of (buffer (nth k h.subs)) else [])
            []
            (if b then drop_head s else s)
    taken true =
        kept (ap (λ o. first_of (buffer o) ++ tail s.ch) at ∙ head-tail s.ch) (λ e. (e, refl))
    taken false = alike s s refl refl

pub act-After :
    (k : ℕ) (a : Action) (h : Hub) (s : Subscriber) → nth k h.subs ≡ some s → After k a h s
act-After k (subscribes token_id) h s at = subscribed-After k token_id h s at
act-After k (broadcasts payload) h s at = broadcast-After k payload h s at
act-After k (closes token_id) h s at = closed-After k token_id h s at
act-After k (takes j) h s at = taken-After k j h s at
act-After k (unsubscribes j) h s at =
    let (s', at', to, _) = unsubscribed k j h s at in
    (s', unfold act in at', kept to.0 (λ e. (to.1 e, refl)))
act-After k (cancels j c) h s at = cancelled-After k j c h s at
act-After k shuts_down h s at = shut-After k h s at

-- ===== src/Feed/Hub/Bounds.antt =====
-- The bounds of the hub (internal/server/feed/hub.go).
use diyddns.Prelude.{
  ℕ, suc, ◌-◌, ◌≤◌, String, Bool, true, false, ◌&&◌, ◌≡◌, refl, Option, none, some, List, [], ◌∷◌,
  ◌++◌, map, leb, str_eq, if◌then◌else◌, Option-cases, Bool-cases, inl, inr, length, length-append,
  select, update_where, All, All-append, All-map, All-update_where, arith,
}
use diyddns.Store.Db.{is_null}
use diyddns.Feed.Hub.{
  Cause, slow_consumer, revoked, shutdown, Subscriber, Hub, new_hub, cancel, depart, is_live,
  live_count, nth, update_at, Subscription, shutting_down, too_many_connections, subscribed,
  new_subscriber, max_stream_conns, live_at, subscribe, unsubscribe, cancel_at, has_room, send,
  overflowed, drop_slow, broadcast, close_token, shut_down, drop_head, tail, take_one, Action,
  subscribes, broadcasts, closes, takes, unsubscribes, cancels, shuts_down, act, act_all,
}
use diyddns.Feed.Hub.Slots.{
  All-total, All-update_at, length-select-update_at, length-select-leave, length-select-map,
  length-select-update_where, length-select-append,
}

abbrev pub Fits : Subscriber → Type 0
Fits s = length s.ch ≤ 64

abbrev pub Cut : Subscriber → Type 0
Cut s = is_null s.cause ≡ false

-- At most 32 subscribers are in the map and the wait group counts them, no buffer holds more than 64
-- payloads, and once the hub is closed every subscriber has been cancelled.
pub record Sound (h : Hub) : Type 0 where
  pub bounded : live_count h ≤ 32
  pub counted : h.wg ≡ live_count h
  pub fits : All Fits h.subs
  pub cut : h.closed ≡ true → All Cut h.subs

-- A rewrite of the rows that keeps who is in the map.
rewritten-Sound :
    (h : Hub) (subs : List Subscriber)
    → length (select is_live subs) ≡ length (select is_live h.subs)
    → (All Fits h.subs → All Fits subs)
    → (All Cut h.subs → All Cut subs)
    → Sound h
    → Sound (record h { subs = subs })
unfolding live_count
rewritten-Sound h subs same fits cut sound = record {
  bounded = ground (arith, sound.bounded);
  counted = ground (arith, sound.counted);
  fits = fits sound.fits;
  cut = λ e. cut (sound.cut e);
}

pub cancel-Cut : (c : Cause) (s : Subscriber) → Cut (cancel c s)
cancel-Cut c s = elim (Option-cases s.cause) [ inl e ↦ ground arith | inr (x, e) ↦ ground arith ]

cancel_at-Sound : (k : ℕ) (c : Cause) (h : Hub) → Sound h → Sound (cancel_at k c h)
unfolding cancel_at
cancel_at-Sound k c h sound =
    rewritten-Sound h (update_at k (cancel c) h.subs)
      (length-select-update_at is_live k (cancel c) h.subs (λ s. refl))
      (All-update_at Fits k (cancel c) h.subs (λ s f. f))
      (All-update_at Cut k (cancel c) h.subs (λ s f. cancel-Cut c s)) sound

send-Fits : (payload : String) (s : Subscriber) → Fits s → Fits (send payload s)
send-Fits payload s f = elim (Bool-cases (s.live && has_room s)) [
  | inl e ↦ ground (arith, length-append s.ch (payload ∷ []))
  | inr e ↦ ground arith
]

send_live : (payload : String) (s : Subscriber) → is_live (send payload s) ≡ is_live s
send_live payload s = ground arith

send-Cut : (payload : String) (s : Subscriber) → Cut s → Cut (send payload s)
send-Cut payload s f = ground arith

found_live :
    (o : Option Subscriber) → live_at o ≡ true → (s : Subscriber) × (o ≡ some s) × (s.live ≡ true)
found_live none h = absurd (ground arith)
found_live (some s) h = (s, refl, h)

left : ℕ → Hub → Hub
left k h = record h { subs = update_at k depart h.subs; wg = h.wg - 1 }

left-Sound : (k : ℕ) (h : Hub) → live_at (nth k h.subs) ≡ true → Sound h → Sound (left k h)
unfolding left live_count
left-Sound k h e sound =
    let (s, at, live) = found_live (nth k h.subs) e in
    let fewer = length-select-leave is_live k depart h.subs s at live refl in
    record {
      bounded = omega (arith, fewer, sound.bounded);
      counted = omega (arith, fewer, sound.counted);
      fits = All-update_at Fits k depart h.subs (λ s f. f) sound.fits;
      cut = λ c. All-update_at Cut k depart h.subs (λ s f. f) (sound.cut c);
    }

unsubscribe-Sound : (k : ℕ) (h : Hub) → Sound h → Sound (unsubscribe k h)
unfolding unsubscribe left
unsubscribe-Sound k h sound = departed (live_at (nth k h.subs)) refl
  where
    departed : (b : Bool) → live_at (nth k h.subs) ≡ b → Sound (if b then left k h else h)
    departed true e = left-Sound k h e sound
    departed false e = sound

drop_slow-Sound : (ks : List ℕ) (h : Hub) → Sound h → Sound (drop_slow ks h)
drop_slow-Sound [] h sound = sound
drop_slow-Sound (k ∷ ks) h sound =
    drop_slow-Sound ks (unsubscribe k (cancel_at k slow_consumer h))
      (unsubscribe-Sound k (cancel_at k slow_consumer h) (cancel_at-Sound k slow_consumer h sound))

broadcast-Sound : (payload : String) (h : Hub) → Sound h → Sound (broadcast payload h)
unfolding broadcast
broadcast-Sound payload h sound =
    drop_slow-Sound (overflowed 0 h.subs) (record h { subs = map (send payload) h.subs })
      (rewritten-Sound h (map (send payload) h.subs)
        (length-select-map is_live (send payload) h.subs (send_live payload))
        (All-map Fits Fits (send payload) h.subs (send-Fits payload))
        (All-map Cut Cut (send payload) h.subs (send-Cut payload)) sound)

close_token-Sound : (token_id : String) (h : Hub) → Sound h → Sound (close_token token_id h)
unfolding close_token
close_token-Sound token_id h sound =
    let p : Subscriber → Bool = λ s. s.live && str_eq s.token_id token_id in
    rewritten-Sound h (update_where p (cancel revoked) h.subs)
      (length-select-update_where is_live p (cancel revoked) h.subs (λ s. refl))
      (All-update_where Fits p (cancel revoked) h.subs (λ s f. f))
      (All-update_where Cut p (cancel revoked) h.subs (λ s f. cancel-Cut revoked s)) sound

take_one-Sound : (k : ℕ) (h : Hub) → Sound h → Sound (take_one k h)
unfolding take_one
take_one-Sound k h sound =
    rewritten-Sound h (update_at k drop_head h.subs)
      (length-select-update_at is_live k drop_head h.subs (λ s. refl))
      (All-update_at Fits k drop_head h.subs taken)
      (All-update_at Cut k drop_head h.subs (λ s f. f)) sound
  where
    taken : (s : Subscriber) → Fits s → Fits (drop_head s)
    taken s f = shorter s.ch f
      where
        shorter : (ch : List String) → length ch ≤ 64 → length (tail ch) ≤ 64
        shorter [] f = f
        shorter (x ∷ ch) f = omega (arith, f)

shut_down-Sound : (h : Hub) → Sound h → Sound (shut_down h)
unfolding shut_down live_count
shut_down-Sound h sound = record {
  bounded = ground (arith, same, sound.bounded);
  counted = ground (arith, same, sound.counted);
  fits = All-map Fits Fits (cancel shutdown) h.subs (λ s f. f) sound.fits;
  cut = λ e. All-total Cut (cancel shutdown) h.subs (cancel-Cut shutdown);
}
  where
    same : length (select is_live (map (cancel shutdown) h.subs)) ≡ length (select is_live h.subs)
    same = length-select-map is_live (cancel shutdown) h.subs (λ s. refl)

subscribe-Sound : (token_id : String) (h : Hub) → Sound h → Sound (subscribe token_id h).1
unfolding subscribe live_count
subscribe-Sound token_id h sound = entered h.closed refl (leb max_stream_conns (live_count h)) refl
  where
    more : Hub
    more = record h { subs = h.subs ++ new_subscriber token_id ∷ []; wg = suc h.wg }

    added_Sound : h.closed ≡ false → suc (live_count h) ≤ 32 → Sound more
    added_Sound unclosed room =
        let one = length-select-append is_live h.subs (new_subscriber token_id) refl in
        record {
          bounded = omega (arith, one, room);
          counted = omega (arith, one, sound.counted);
          fits = All-append Fits h.subs (new_subscriber token_id) sound.fits (omega arith);
          cut = λ e. absurd (ground arith);
        }

    entered :
        (b : Bool)
        → h.closed ≡ b
        → (c : Bool) → leb max_stream_conns (live_count h) ≡ c
        → let r : Subscription × Hub =
            if b
            then (shutting_down, h)
            else if c
            then (too_many_connections, h)
            else (subscribed (length h.subs), more) in
          Sound r.1
    entered true e c k = sound
    entered false e true k = sound
    entered false e false k = added_Sound e (ground arith)

act-Sound : (a : Action) (h : Hub) → Sound h → Sound (act a h)
unfolding act
act-Sound (subscribes token_id) h sound = subscribe-Sound token_id h sound
act-Sound (broadcasts payload) h sound = broadcast-Sound payload h sound
act-Sound (closes token_id) h sound = close_token-Sound token_id h sound
act-Sound (takes k) h sound = take_one-Sound k h sound
act-Sound (unsubscribes k) h sound = unsubscribe-Sound k h sound
act-Sound (cancels k c) h sound = cancel_at-Sound k c h sound
act-Sound shuts_down h sound = shut_down-Sound h sound

kept-Sound : (actions : List Action) (h : Hub) → Sound h → Sound (act_all actions h)
kept-Sound [] h sound = sound
kept-Sound (a ∷ actions) h sound = kept-Sound actions (act a h) (act-Sound a h sound)

-- Whatever calls are made of a new hub, and in whatever order: at most 32 subscribers are in the map, the
-- wait group counts exactly them, no buffer holds more than 64 payloads, and once `Shutdown` has begun
-- every subscriber has been cancelled.
pub act_all-Sound : (actions : List Action) → Sound (act_all actions new_hub)
unfolding live_count
act_all-Sound actions =
    kept-Sound actions new_hub
      (record { bounded = omega arith; counted = refl; fits = tt; cut = λ e. tt })

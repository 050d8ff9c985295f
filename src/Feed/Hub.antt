-- ===== src/Feed/Hub.antt =====
-- The hub of the stream's subscribers (internal/server/feed/hub.go). Each function is one call; between
-- calls others may run, but not inside one. A subscriber is known by its place in the order of
-- subscription, and the hub keeps those that left, so that the pump of one may still read its state.
pub mod Slots
pub mod Bounds
pub mod Order
use diyddns.Prelude.{
  ℕ, suc, ◌+◌, ◌-◌, String, Bool, true, false, not, ◌&&◌, List, [], ◌∷◌, ◌++◌, Option, none, some,
  ◌==◌, str_eq, leb, ltb, if◌then◌else◌, length, select, update_where, map,
}

-- The causes that a subscriber is cancelled with.
pub data Cause : Type 0 where
  shutdown ping_failed internal slow_consumer revoked peer_gone : Cause

-- `live` says whether it is in the map; `cause` is what its context was cancelled with.
pub record Subscriber : Type 0 where
  pub token_id : String
  pub ch : List String
  pub cause : Option Cause
  pub live : Bool

-- `wg` is the counter of the wait group, and `closed` says whether the hub's context is cancelled.
pub record Hub : Type 0 where
  pub subs : List Subscriber
  pub closed : Bool
  pub wg : ℕ

abbrev pub max_stream_conns : ℕ
max_stream_conns = 32

abbrev pub stream_buffer : ℕ
stream_buffer = 64

-- `New`
abbrev pub new_hub : Hub
new_hub = record { subs = []; closed = false; wg = 0 }

-- The first cause is the one that stays.
abbrev pub first_cause : Option Cause → Cause → Option Cause
first_cause none c = some c
first_cause (some x) c = some x

abbrev pub cancel : Cause → Subscriber → Subscriber
cancel c s = record s { cause = first_cause s.cause c }

abbrev pub depart : Subscriber → Subscriber
depart s = record s { live = false }

abbrev pub is_live : Subscriber → Bool
is_live s = s.live

-- `live()`
unfoldable pub live_count : Hub → ℕ
live_count h = length (select is_live h.subs)

abbrev pub update_at : {A : Type 0} → ℕ → (A → A) → List A → List A
update_at k f [] = []
update_at ℕ.zero f (x ∷ xs) = f x ∷ xs
update_at (suc k) f (x ∷ xs) = x ∷ update_at k f xs

abbrev pub nth : {A : Type 0} → ℕ → List A → Option A
nth k [] = none
nth ℕ.zero (x ∷ xs) = some x
nth (suc k) (x ∷ xs) = nth k xs

-- What `subscribe` returns: a subscriber's place, or one of the two errors.
pub data Subscription : Type 0 where
  subscribed : ℕ → Subscription
  too_many_connections shutting_down : Subscription

abbrev pub new_subscriber : String → Subscriber
new_subscriber token_id = record { token_id = token_id; ch = []; cause = none; live = true }

-- `subscribe`
unfoldable pub subscribe : String → Hub → Subscription × Hub
unfolding live_count
subscribe token_id h =
    if h.closed
    then (shutting_down, h)
    else if leb max_stream_conns (live_count h)
    then (too_many_connections, h)
    else (
      subscribed (length h.subs),
      record h { subs = h.subs ++ new_subscriber token_id ∷ []; wg = suc h.wg },
    )

abbrev pub live_at : Option Subscriber → Bool
live_at none = false
live_at (some s) = s.live

-- `unsubscribe`, which does nothing the second time
unfoldable pub unsubscribe : ℕ → Hub → Hub
unsubscribe k h =
    if live_at (nth k h.subs)
    then record h { subs = update_at k depart h.subs; wg = h.wg - 1 }
    else h

-- The cancellation of one subscriber, by the hub or by the connection's own goroutines.
unfoldable pub cancel_at : ℕ → Cause → Hub → Hub
cancel_at k c h = record h { subs = update_at k (cancel c) h.subs }

abbrev pub has_room : Subscriber → Bool
has_room s = ltb (length s.ch) stream_buffer

abbrev pub send : String → Subscriber → Subscriber
send payload s = if s.live && has_room s then record s { ch = s.ch ++ payload ∷ [] } else s

-- The places, from `n` on, of those whose buffer is full.
abbrev pub overflowed : ℕ → List Subscriber → List ℕ
overflowed n [] = []
overflowed n (s ∷ subs) =
    let rest = overflowed (suc n) subs in if s.live && not (has_room s) then n ∷ rest else rest

abbrev pub drop_slow : List ℕ → Hub → Hub
drop_slow [] h = h
drop_slow (k ∷ ks) h = drop_slow ks (unsubscribe k (cancel_at k slow_consumer h))

-- `Broadcast`
unfoldable pub broadcast : String → Hub → Hub
unfolding unsubscribe cancel_at
broadcast payload h =
    drop_slow (overflowed 0 h.subs) (record h { subs = map (send payload) h.subs })

-- `CloseToken`
unfoldable pub close_token : String → Hub → Hub
close_token token_id h = record h {
  subs = update_where (λ s. s.live && str_eq s.token_id token_id) (cancel revoked) h.subs;
}

-- The cancellation in `Shutdown`, which every subscriber's context inherits.
unfoldable pub shut_down : Hub → Hub
shut_down h = record h { subs = map (cancel shutdown) h.subs; closed = true }

-- Whether the wait in `Shutdown` is over.
abbrev pub drained : Hub → Bool
drained h = h.wg == 0

abbrev pub tail : List String → List String
tail [] = []
tail (x ∷ xs) = xs

abbrev pub drop_head : Subscriber → Subscriber
drop_head s = record s { ch = tail s.ch }

-- The pump takes one payload from its buffer.
unfoldable pub take_one : ℕ → Hub → Hub
take_one k h = record h { subs = update_at k drop_head h.subs }

-- The calls, in the order in which they take the lock.
pub data Action : Type 0 where
  subscribes broadcasts closes : String → Action
  takes unsubscribes : ℕ → Action
  cancels : ℕ → Cause → Action
  shuts_down : Action

unfoldable pub act : Action → Hub → Hub
unfolding subscribe broadcast close_token take_one unsubscribe cancel_at shut_down
act (subscribes token_id) h = (subscribe token_id h).1
act (broadcasts payload) h = broadcast payload h
act (closes token_id) h = close_token token_id h
act (takes k) h = take_one k h
act (unsubscribes k) h = unsubscribe k h
act (cancels k c) h = cancel_at k c h
act shuts_down h = shut_down h

abbrev pub act_all : List Action → Hub → Hub
act_all [] h = h
act_all (a ∷ rest) h = act_all rest (act a h)

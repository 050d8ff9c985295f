-- ===== src/Feed/Tests.antt =====
-- Instances of what is proved of the stream.
use Prim.Native.String
use diyddns.Prelude.{ℕ, suc, String, true, ◌≡◌, ◌≢◌, refl, [], ◌∷◌, some, List}
use diyddns.Store.Db.{statement, now_unix}
use diyddns.Store.Samples.{calm}
use diyddns.Store.Tokens.{create_feed_token, get_token_by_id, delete_feed_token}
use diyddns.Store.Audit.{log, append_audit}
use diyddns.Service.Credentials.{good}
use diyddns.Service.Tokens.{FeedService, mint_token, revoke_token}
use diyddns.Service.Tokens.Reaches.{here}
use diyddns.Feed.Hub.{
  Subscriber, Hub, new_hub, new_subscriber, nth, live_count, subscribe, unsubscribe, cancel_at,
  broadcast, close_token, shut_down, take_one, Action, subscribes, broadcasts, takes, shuts_down,
  act, act_all,
}
use diyddns.Feed.Hub.Bounds.{Sound, act_all-Sound}
use diyddns.Feed.Hub.Order.{Streamed, sent, written, act_all-Streamed}
use diyddns.Feed.Stream.{opened, token_still_live, serve_stream}
use diyddns.Feed.Stream.Revoked.{CutAt, revoke_token-CutAt}

abbrev repeated : ℕ → Action → List Action
repeated ℕ.zero a = []
repeated (suc n) a = a ∷ repeated n a

-- A subscriber that takes nothing is dropped by the 65th payload.
abbrev slow : Hub
slow = act_all (subscribes "t1" ∷ repeated 65 (broadcasts "x")) new_hub

drops_slow : live_count slow ≡ 0
unfolding act subscribe broadcast unsubscribe cancel_at live_count
drops_slow = refl

-- The 33rd subscriber is refused.
crowded : live_count (act_all (repeated 33 (subscribes "t1")) new_hub) ≡ 32
unfolding act subscribe live_count
crowded = refl

act_all-Sound_example : Sound slow
act_all-Sound_example = act_all-Sound (subscribes "t1" ∷ repeated 65 (broadcasts "x"))

abbrev one : Hub
one = act (subscribes "t1") new_hub

subscribed_first : nth 0 one.subs ≡ some (new_subscriber "t1")
unfolding act subscribe live_count
subscribed_first = refl

abbrev calls : List Action
calls = broadcasts "x" ∷ broadcasts "y" ∷ takes 0 ∷ shuts_down ∷ broadcasts "z" ∷ []

gets : written 0 calls one ≡ "x" ∷ []
unfolding act subscribe broadcast unsubscribe cancel_at take_one shut_down live_count
gets = refl

act_all-Streamed_example :
    (s' : Subscriber) × (nth 0 (act_all calls one).subs ≡ some s')
    × Streamed (new_subscriber "t1") (sent calls) (written 0 calls one) s'
act_all-Streamed_example = act_all-Streamed 0 calls one (new_subscriber "t1") subscribed_first

abbrev marked : String → String
marked text = String.◌++◌ "#" text

abbrev no_details : String → String
no_details label = ""

abbrev start : FeedService Hub
start =
    (mint_token Hub marked no_details close_token "t1" (some "r") "u1" "envoy"
      (record { last_touch = λ id. 0; streams = one; db = calm })).1

opens : (serve_stream "t1" start).0 ≡ opened 1
unfolding serve_stream token_still_live mint_token create_feed_token get_token_by_id act subscribe
    live_count log append_audit statement now_unix
opens = refl

revokes : (revoke_token Hub marked no_details close_token "u1" "t1" start).0 ≡ good tt
unfolding revoke_token mint_token create_feed_token delete_feed_token log append_audit statement
    now_unix
revokes = refl

abbrev ended : FeedService Hub
ended = (revoke_token Hub marked no_details close_token "u1" "t1" start).1

revoke_token-CutAt_example :
    ((k : ℕ) (sub : Subscriber)
      → nth k start.streams.subs ≡ some sub
      → sub.live ≡ true
      → sub.token_id ≡ "t1"
      → CutAt k ended.streams)
    × ((k j : ℕ) → (token_still_live k "t1" ended).0 ≢ opened j)
revoke_token-CutAt_example =
    revoke_token-CutAt marked no_details "u1" "t1" start ended revokes (here ended)

-- ===== src/Feed/Stream.antt =====
-- The admission of a stream (internal/server/feed/stream.go): a slot of the hub, and then a second look at
-- the token's row. Other calls may run between the two.
pub mod Revoked
use diyddns.Prelude.{ℕ, String}
use diyddns.Store.Db.{not_found, conflict, driver, Result, ok, err, Db}
use diyddns.Store.Tokens.{FeedToken, get_token_by_id}
use diyddns.Service.Tokens.{FeedService}
use diyddns.Feed.Hub.{
  Hub, Subscription, subscribed, too_many_connections, shutting_down, subscribe, unsubscribe,
}

-- The answers of the handler: 503 with one of two bodies, 401, 503, or the stream of a subscriber.
pub data Opening : Type 0 where
  too_many_streams closing unauthorized feed_unavailable : Opening
  opened : ℕ → Opening

-- The refusal, after which the deferred `unsubscribe` runs.
abbrev pub leave : ℕ → Opening → FeedService Hub → Opening × FeedService Hub
leave k answer s = (answer, record s { streams = unsubscribe k s.streams })

abbrev pub rechecked : ℕ → FeedService Hub → Result FeedToken × Db → Opening × FeedService Hub
rechecked k s (ok tok, db) = (opened k, record s { db = db })
rechecked k s (err not_found, db) = leave k unauthorized (record s { db = db })
rechecked k s (err conflict, db) = leave k feed_unavailable (record s { db = db })
rechecked k s (err driver, db) = leave k feed_unavailable (record s { db = db })

-- `tokenStillLive`, for the subscriber at a place of the hub
unfoldable pub token_still_live : ℕ → String → FeedService Hub → Opening × FeedService Hub
token_still_live k token_id s = rechecked k s (get_token_by_id token_id s.db)

abbrev pub admitted_stream :
    String → FeedService Hub → Subscription × Hub → Opening × FeedService Hub
admitted_stream token_id s (subscribed k, hub) =
    token_still_live k token_id (record s { streams = hub })
admitted_stream token_id s (too_many_connections, hub) =
    (too_many_streams, record s { streams = hub })
admitted_stream token_id s (shutting_down, hub) = (closing, record s { streams = hub })

-- `serveStream` up to the upgrade of the connection, where nothing runs in between.
unfoldable pub serve_stream : String → FeedService Hub → Opening × FeedService Hub
serve_stream token_id s = admitted_stream token_id s (subscribe token_id s.streams)

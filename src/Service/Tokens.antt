-- ===== src/Service/Tokens.antt =====
-- The feed tokens (the `FeedService` of internal/server/service/feed.go). The hash of a plaintext, the
-- JSON of the details, and what closes the streams of a token are parameters; what `RandToken` and
-- `NewID` return are arguments.
pub mod Gone
pub mod Reaches
pub mod Roundtrip
mod Tests
use Prim.Native.String
use diyddns.Prelude.{ℕ, String, List, Option, none, some, str_eq, if◌then◌else◌}
use diyddns.Store.Db.{Result, ok, err, Db}
use diyddns.Store.Tokens.{
  FeedToken, feed_token_prefix, create_feed_token, get_token_by_hash, list_feed_tokens,
  delete_feed_token, touch_feed_token,
}
use diyddns.Store.Audit.{entry, log}
use diyddns.Service.Credentials.{
  has_prefix, trim_space, invalid_label, malformed, no_randomness, stored, Answer, good, bad,
  LastTouch, is_stamp_due, mark, evict,
}

-- `FeedService`, with the state of its `TokenCloser` and the database.
pub record FeedService (Streams : Type 0) : Type 0 where
  pub last_touch : LastTouch
  pub streams : Streams
  pub db : Db

module _ (Streams : Type 0) (hash_token json_label : String → String)
    (close_token : String → Streams → Streams) where
  -- `ListTokens`
  unfoldable pub list_tokens : FeedService Streams → Result (List FeedToken) × FeedService Streams
  list_tokens s = let (r, db) = list_feed_tokens s.db in (r, record s { db = db })

  abbrev pub minted_token :
      FeedToken
      → String
      → FeedService Streams
      → Result (Unit {0}) × Db
      → Answer (FeedToken × String) × FeedService Streams
  minted_token tok plaintext s (err e, db) = (bad (stored e), record s { db = db })
  minted_token tok plaintext s (ok _, db) =
      let event = entry tok.created_by "feed.token_created" "feed_token" tok.id in
      let (_, db') = log (record event { details_json = json_label tok.label }) db in
      (good (tok, plaintext), record s { db = db' })

  abbrev pub new_token : String → String → String → String → ℕ → FeedToken
  new_token id plaintext actor label now = record {
    id = id;
    label = label;
    token_hash = hash_token plaintext;
    created_by = actor;
    created_at = now;
    last_used_at = 0;
  }

  abbrev pub mint_random :
      String
      → String
      → String
      → Option String
      → FeedService Streams
      → Answer (FeedToken × String) × FeedService Streams
  mint_random id actor label none s = (bad no_randomness, s)
  mint_random id actor label (some rnd) s =
      let plaintext = String.◌++◌ feed_token_prefix rnd in
      let tok = new_token id plaintext actor label s.db.clock in
      minted_token tok plaintext s (create_feed_token tok s.db)

  -- `MintToken`
  unfoldable pub mint_token :
      String
      → Option String
      → String
      → String
      → FeedService Streams
      → Answer (FeedToken × String) × FeedService Streams
  mint_token id rnd actor label s =
      let trimmed = trim_space label in
      let run = mint_random id actor trimmed rnd s in
      if str_eq trimmed "" then (bad invalid_label, s) else run

  abbrev pub revoked_answer :
      String
      → String
      → FeedService Streams
      → Result (Unit {0}) × Db
      → Answer (Unit {0}) × FeedService Streams
  revoked_answer actor id s (err e, db) = (bad (stored e), record s { db = db })
  revoked_answer actor id s (ok _, db) =
      let (_, db') = log (entry actor "feed.token_revoked" "feed_token" id) db in
      (
        good tt,
        record { last_touch = evict id s.last_touch; streams = close_token id s.streams; db = db' },
      )

  -- `RevokeToken`
  unfoldable pub revoke_token :
      String → String → FeedService Streams → Answer (Unit {0}) × FeedService Streams
  revoke_token actor id s = revoked_answer actor id s (delete_feed_token id s.db)

  -- The stamp, whose error is dropped.
  abbrev pub stamp : FeedToken → FeedService Streams → Answer FeedToken × FeedService Streams
  stamp tok s =
      let now = s.db.clock in
      let (_, db) = touch_feed_token tok.id now s.db in
      (
        good (record tok { last_used_at = now }),
        record s { last_touch = mark tok.id now s.last_touch; db = db },
      )

  abbrev pub resolved :
      FeedService Streams → Result FeedToken × Db → Answer FeedToken × FeedService Streams
  resolved s (err e, db) = (bad (stored e), record s { db = db })
  resolved s (ok tok, db) =
      let found : FeedService Streams = record s { db = db } in
      if is_stamp_due s.last_touch tok.id db.clock then stamp tok found else (good tok, found)

  -- `Authenticate`
  unfoldable pub authenticate_token :
      String → FeedService Streams → Answer FeedToken × FeedService Streams
  authenticate_token plaintext s =
      let run = resolved s (get_token_by_hash (hash_token plaintext) s.db) in
      if has_prefix plaintext feed_token_prefix then run else (bad malformed, s)

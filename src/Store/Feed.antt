-- ===== src/Store/Feed.antt =====
-- The counter of the feed (internal/store/feed_state.go).
use diyddns.Prelude.{ℕ, ◌+◌}
use diyddns.Store.Db.{ok, Sql, statement}

-- `Bump`: the new sequence number. The row of id 1 always exists.
unfoldable pub bump : ℕ → Sql ℕ
bump now =
    statement
      λ t. let seq = t.feed_seq + 1 in (ok seq, record t { feed_seq = seq; feed_changed_at = now })

-- ===== src/Service/Tokens/Reaches.antt =====
-- A token that was revoked never authenticates again (internal/server/service/feed.go).
use diyddns.Prelude.{
  String, Bool, true, false, ◌≡◌, ◌≢◌, refl, sym, ap, subst, ◌∙◌, Option, str_eq, eq_self,
  find_where-exists_other, if◌then◌else◌, arith,
}
use diyddns.Store.Db.{Result, ok, err, Db}
use diyddns.Store.Users.{delete_user}
use diyddns.Store.Tokens.{FeedToken, feed_token_prefix, has_hash, is_token, get_token_by_hash}
use diyddns.Store.Tokens.Laws.{get_token_by_hash_ok}
use diyddns.Service.Credentials.{malformed, Answer, good, bad, has_prefix}
use diyddns.Service.Tokens.{FeedService, mint_token, revoke_token, resolved, authenticate_token}
use diyddns.Service.Tokens.Gone.{
  Gone, same_tokens, delete_user-Gone, mint_token-Gone, revoke_token-Gone, revoke_token_good,
  authenticate_token-Gone,
}

module _ (Streams : Type 0) (hash_token json_label : String → String)
    (close_token : String → Streams → Streams) where
  -- What may happen after a revocation: the calls of the service, where no new token gets the old
  -- id, deletions of accounts, and writes of other tables and of the streams.
  pub data Step (id : String) : FeedService Streams → FeedService Streams → Type 0 where
    minting :
        (s : FeedService Streams) (new_id : String) (rnd : Option String) (actor label : String)
        → new_id ≢ id
        → Step id s
            (mint_token Streams hash_token json_label close_token new_id rnd actor label s).1
    revoking :
        (s : FeedService Streams) (actor id' : String)
        → Step id s (revoke_token Streams hash_token json_label close_token actor id' s).1
    authenticating :
        (s : FeedService Streams) (plaintext : String)
        → Step id s (authenticate_token Streams hash_token json_label close_token plaintext s).1
    leaving :
        (s : FeedService Streams) (user_id : String)
        → Step id s (record s { db = (delete_user user_id s.db).1 })
    elsewhere :
        (s s' : FeedService Streams)
        → s'.db.tables.feed_tokens ≡ s.db.tables.feed_tokens
        → Step id s s'

  pub data Reaches (id : String) : FeedService Streams → FeedService Streams → Type 0 where
    here : (s : FeedService Streams) → Reaches id s s
    then_step : (a b c : FeedService Streams) → Reaches id a b → Step id b c → Reaches id a c

  Step-Gone : (id : String) (a b : FeedService Streams) → Step id a b → Gone id a.db → Gone id b.db
  Step-Gone id a b (minting _ new_id rnd actor label other) h =
      mint_token-Gone Streams hash_token json_label close_token id new_id rnd actor label a other h
  Step-Gone id a b (revoking _ actor id') h =
      revoke_token-Gone Streams hash_token json_label close_token id actor id' a h
  Step-Gone id a b (authenticating _ plaintext) h =
      authenticate_token-Gone Streams hash_token json_label close_token id plaintext a h
  Step-Gone id a b (leaving _ user_id) h = delete_user-Gone id user_id a.db h
  Step-Gone id a b (elsewhere _ _ same) h = same_tokens id a.db b.db same h

  pub Reaches-Gone :
      (id : String) (a b : FeedService Streams) → Reaches id a b → Gone id a.db → Gone id b.db
  Reaches-Gone id a b (here _) h = h
  Reaches-Gone id a b (then_step _ mid _ before step) h =
      Step-Gone id mid b step (Reaches-Gone id a mid before h)

  resolved-is :
      (s : FeedService Streams) (found tok : FeedToken) (db : Db)
      → (resolved Streams hash_token json_label close_token s (ok found, db)).0 ≡ good tok
      → tok.id ≡ found.id
  resolved-is s found tok db h = ground arith

  -- A token that authenticates is one of the rows.
  authenticated :
      (id plaintext : String) (s : FeedService Streams) (tok : FeedToken)
      → (authenticate_token Streams hash_token json_label close_token plaintext s).0 ≡ good tok
      → Gone id s.db
      → tok.id ≢ id
  unfolding authenticate_token
  authenticated id plaintext s tok h gone same =
      looked_up (get_token_by_hash (hash_token plaintext) s.db).0 refl (
        prefixed (has_prefix plaintext feed_token_prefix)
          (resolved Streams hash_token json_label close_token s
            (get_token_by_hash (hash_token plaintext) s.db))
          h)
    where
      prefixed :
          (b : Bool) (run : Answer FeedToken × FeedService Streams)
          → (if b then run else (bad malformed, s)).0 ≡ good tok
          → run.0 ≡ good tok
      prefixed true run k = k
      prefixed false run k = absurd (ground arith)

      end : Db
      end = (get_token_by_hash (hash_token plaintext) s.db).1

      looked_up :
          (r : Result FeedToken)
          → (get_token_by_hash (hash_token plaintext) s.db).0 ≡ r
          → (resolved Streams hash_token json_label close_token s (r, end)).0 ≡ good tok
          → ⊥
      looked_up (err e) e' k = absurd (ground arith)
      looked_up (ok found) e k =
          let (row, at, is) = get_token_by_hash_ok (hash_token plaintext) s.db found e in
          let id' : row.id ≡ id =
            ap (λ (t : FeedToken). t.id) (sym is) ∙ sym (resolved-is s found tok end k) ∙ same in
          let present =
            find_where-exists_other (has_hash (hash_token plaintext)) (is_token id)
              s.db.tables.feed_tokens row at
              (subst (λ x. str_eq x id ≡ true) (sym id') (eq_self id)) in
          ground (arith, present, gone)

  -- Once a token was revoked, no plaintext authenticates as it, whatever is done in between by the steps
  -- of `Reaches`.
  pub revoke_token-Reaches :
      (actor id plaintext : String) (s later : FeedService Streams) (tok : FeedToken)
      → (revoke_token Streams hash_token json_label close_token actor id s).0 ≡ good tt
      → Reaches id (revoke_token Streams hash_token json_label close_token actor id s).1 later
      → (authenticate_token Streams hash_token json_label close_token plaintext later).0 ≡ good tok
      → tok.id ≢ id
  revoke_token-Reaches actor id plaintext s later tok h reach k =
      authenticated id plaintext later tok k (
        Reaches-Gone id (revoke_token Streams hash_token json_label close_token actor id s).1 later
          reach (revoke_token_good Streams hash_token json_label close_token id actor s h).0)

-- ===== src/Service/Tokens/Roundtrip.antt =====
-- A token that was minted authenticates (internal/server/service/feed.go).
use Prim.Native.String
use text.Mathlib.TextEquality.{starts_with_iff}
use diyddns.Prelude.{
  ℕ, String, Bool, true, false, ◌≡◌, refl, sym, ap, subst, ◌∙◌, Option, none, some, [], str_eq,
  if◌then◌else◌, find_where, arith,
}
use diyddns.Store.Db.{Result, ok, err, FeedTokenRow, Tables, Db, statement}
use diyddns.Store.Tokens.{
  FeedToken, feed_token_prefix, scan_feed_token, feed_token_row, has_hash, create_feed_token,
  get_token_by_hash,
}
use diyddns.Store.Tokens.Laws.{create_feed_token-found}
use diyddns.Store.Audit.{AuditEntry, log}
use diyddns.Store.Audit.Laws.{log_frame}
use diyddns.Service.Checkin.Family.{scan-null_if_empty}
use diyddns.Service.Credentials.{
  Answer, good, bad, invalid_label, malformed, no_randomness, has_prefix, trim_space, is_stamp_due,
}
use diyddns.Service.Tokens.{
  FeedService, minted_token, new_token, mint_random, mint_token, resolved, authenticate_token,
}

has_prefix-append : (p s : String) → has_prefix (String.◌++◌ p s) p ≡ true
has_prefix-append p s = (starts_with_iff (String.◌++◌ p s) p).1 (s, refl)

scan_feed_token-row : (k : FeedToken) → k.last_used_at ≡ 0 → scan_feed_token (feed_token_row k) ≡ k
scan_feed_token-row k h = ground (arith, scan-null_if_empty k.created_by)

-- A lookup that the driver does not fail.
calm_lookup :
    (hash : String) (row : FeedTokenRow) (db : Db)
    → db.weather ≡ []
    → find_where (has_hash hash) db.tables.feed_tokens ≡ some row
    → (get_token_by_hash hash db).0 ≡ ok (scan_feed_token row)
unfolding get_token_by_hash statement
calm_lookup hash row db calm h = ground arith

log-found :
    (hash : String) (row : FeedTokenRow) (e : AuditEntry) (db : Db)
    → find_where (has_hash hash) db.tables.feed_tokens ≡ some row
    → find_where (has_hash hash) (log e db).1.tables.feed_tokens ≡ some row
log-found hash row e db h =
    let (_, (_, _, same)) = log_frame e db in
    subst (λ (t : Tables). find_where (has_hash hash) t.feed_tokens ≡ some row) (sym same) h

good-injective : {A : Type 0} {a b : A} → good a ≡ good b → a ≡ b
good-injective h = ground arith

module _ (Streams : Type 0) (hash_token json_label : String → String)
    (close_token : String → Streams → Streams) where
  -- What a minted token is, and that its hash finds it.
  abbrev pub IsMinted : FeedToken → String → Db → Type 0
  IsMinted tok plaintext db =
      (has_prefix plaintext feed_token_prefix ≡ true)
      × (tok.last_used_at ≡ 0)
      × (find_where (has_hash (hash_token plaintext)) db.tables.feed_tokens
          ≡ some (feed_token_row tok))

  minted_token-IsMinted :
      (tok made : FeedToken) (rnd plaintext : String) (s : FeedService Streams)
      (r : Result (Unit {0}))
      → (create_feed_token tok s.db).0 ≡ r
      → tok.token_hash ≡ hash_token (String.◌++◌ feed_token_prefix rnd)
      → tok.last_used_at ≡ 0
      → (minted_token Streams hash_token json_label close_token tok
          (String.◌++◌ feed_token_prefix rnd)
          s
          (r, (create_feed_token tok s.db).1)).0
        ≡ good (made, plaintext)
      → IsMinted made plaintext
          (minted_token Streams hash_token json_label close_token tok
            (String.◌++◌ feed_token_prefix rnd)
            s
            (r, (create_feed_token tok s.db).1)).1.db
  minted_token-IsMinted tok made rnd plaintext s (err e) k hash unused h = absurd (ground arith)
  minted_token-IsMinted tok made rnd plaintext s (ok _) k hash unused h =
      let text = String.◌++◌ feed_token_prefix rnd in
      let end : Db =
        (minted_token Streams hash_token json_label close_token tok text s
          (ok tt, (create_feed_token tok s.db).1)).1.db in
      subst (λ (w : FeedToken × String). IsMinted w.0 w.1 end) (good-injective h)
        (
          has_prefix-append feed_token_prefix rnd,
          unused,
          log-found (hash_token text) (feed_token_row tok) _ (create_feed_token tok s.db).1 (
              subst
                (λ x.
                  find_where (has_hash x) (create_feed_token tok s.db).1.tables.feed_tokens
                  ≡ some (feed_token_row tok))
                hash (create_feed_token-found tok s.db k)),
        )

  labelled :
      (b : Bool) (run : Answer (FeedToken × String) × FeedService Streams) (s : FeedService Streams)
      (made : FeedToken × String)
      → (if b then (bad invalid_label, s) else run).0 ≡ good made
      → ((if b then (bad invalid_label, s) else run) ≡ run) × (run.0 ≡ good made)
  labelled true run s made h = absurd (ground arith)
  labelled false run s made h = (refl, h)

  mint_token-IsMinted :
      (id : String) (rnd : Option String) (actor label plaintext : String) (s : FeedService Streams)
      (made : FeedToken)
      → (mint_token Streams hash_token json_label close_token id rnd actor label s).0
        ≡ good (made, plaintext)
      → IsMinted made plaintext
          (mint_token Streams hash_token json_label close_token id rnd actor label s).1.db
  unfolding mint_token
  mint_token-IsMinted id none actor label plaintext s made h =
      let (_, k) =
        labelled (str_eq (trim_space label) "") (bad no_randomness, s) s (made, plaintext) h in
      absurd (ground arith)
  mint_token-IsMinted id (some rnd) actor label plaintext s made h =
      let text = String.◌++◌ feed_token_prefix rnd in
      let tok =
        new_token Streams hash_token json_label close_token id text actor (trim_space label)
          s.db.clock in
      let run =
        mint_random Streams hash_token json_label close_token id actor (trim_space label) (some rnd)
          s in
      let (same, k) = labelled (str_eq (trim_space label) "") run s (made, plaintext) h in
      subst
        (λ (r : Answer (FeedToken × String) × FeedService Streams). IsMinted made plaintext r.1.db)
        (sym same)
        (minted_token-IsMinted tok made rnd plaintext s (create_feed_token tok s.db).0 refl refl
          refl k)

  authenticate_token-IsMinted :
      (tok : FeedToken) (plaintext : String) (s : FeedService Streams)
      → s.db.weather ≡ []
      → IsMinted tok plaintext s.db
      → (last : ℕ) × ((authenticate_token Streams hash_token json_label close_token plaintext s).0
          ≡ good (record tok { last_used_at = last }))
  unfolding authenticate_token
  authenticate_token-IsMinted tok plaintext s calm (is, unused, at) =
      let hash = hash_token plaintext in
      let found : (get_token_by_hash hash s.db).0 ≡ ok tok =
        calm_lookup hash (feed_token_row tok) s.db calm at
        ∙ ap (λ (t : FeedToken). ok t) (scan_feed_token-row tok unused) in
      looked_up (get_token_by_hash hash s.db).0 (get_token_by_hash hash s.db).1 found
        (has_prefix plaintext feed_token_prefix) is
    where
      looked_up :
          (r : Result FeedToken) (db : Db)
          → r ≡ ok tok
          → (b : Bool) → b ≡ true
          → (last : ℕ) × ((if b
                then resolved Streams hash_token json_label close_token s (r, db)
                else (bad malformed, s)).0
              ≡ good (record tok { last_used_at = last }))
      looked_up (err e) db h b k = absurd (ground arith)
      looked_up (ok x) db h b k =
          (if is_stamp_due s.last_touch tok.id db.clock then db.clock else 0, ground arith)

  -- A token that was minted authenticates by the plaintext that was returned, right afterwards and while
  -- the driver fails no statement: the answer is that token, but for the instant of its last use.
  pub mint_token-authenticate :
      (id : String) (rnd : Option String) (actor label plaintext : String) (s : FeedService Streams)
      (made : FeedToken)
      → (mint_token Streams hash_token json_label close_token id rnd actor label s).0
        ≡ good (made, plaintext)
      → (mint_token Streams hash_token json_label close_token id rnd actor label s).1.db.weather
        ≡ []
      → (last : ℕ) × ((authenticate_token Streams hash_token json_label close_token plaintext
            (mint_token Streams hash_token json_label close_token id rnd actor label s).1).0
          ≡ good (record made { last_used_at = last }))
  mint_token-authenticate id rnd actor label plaintext s made h calm =
      authenticate_token-IsMinted made plaintext
        (mint_token Streams hash_token json_label close_token id rnd actor label s).1 calm
        (mint_token-IsMinted id rnd actor label plaintext s made h)

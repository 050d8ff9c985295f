-- ===== src/Service/Tokens/Gone.antt =====
-- What the calls leave of a token that is gone (internal/server/service/feed.go).
use Prim.Native.String
use diyddns.Prelude.{
  ℕ, String, false, not, ◌≡◌, ◌≢◌, refl, sym, ap, subst, ◌∙◌, inl, inr, Option, none, some, str_eq,
  eq_iff, Bool-cases, if-both, exists, exists-filtered, exists-dropped, exists-appended,
  exists-update_same, exists-map_same, arith,
}
use diyddns.Store.Db.{Result, ok, err, Tables, Db}
use diyddns.Store.Db.Laws.{statement_cases}
use diyddns.Store.Users.{has_user_id, remove_user, delete_user, forget_user}
use diyddns.Store.Tokens.{
  FeedToken, feed_token_prefix, feed_token_row, is_token, create_feed_token, get_token_by_hash,
  delete_feed_token, touch_feed_token, used_at,
}
use diyddns.Store.Tokens.Laws.{
  create_feed_token_ok, create_feed_token_err, delete_feed_token_ok, delete_feed_token_err,
  tables-get_token_by_hash, touch_feed_token_cases,
}
use diyddns.Store.Audit.{AuditEntry, log}
use diyddns.Store.Audit.Laws.{log_frame}
use diyddns.Service.Credentials.{Answer, good, has_prefix, trim_space, is_stamp_due}
use diyddns.Service.Tokens.{
  FeedService, minted_token, new_token, mint_token, revoked_answer, revoke_token, resolved,
  authenticate_token,
}

-- No row has the id.
abbrev pub Gone : String → Db → Type 0
Gone id db = exists (is_token id) db.tables.feed_tokens ≡ false

pub same_tokens :
    (id : String) (db db' : Db)
    → db'.tables.feed_tokens ≡ db.tables.feed_tokens
    → Gone id db
    → Gone id db'
same_tokens id db db' e h = subst (λ rows. exists (is_token id) rows ≡ false) (sym e) h

pub same_tables : (id : String) (db db' : Db) → db'.tables ≡ db.tables → Gone id db → Gone id db'
same_tables id db db' e = same_tokens id db db' (ap (λ (t : Tables). t.feed_tokens) e)

pub log-Gone : (id : String) (e : AuditEntry) (db : Db) → Gone id db → Gone id (log e db).1
log-Gone id e db =
    let (_, (_, _, same)) = log_frame e db in
    same_tokens id db (log e db).1 (ap (λ (t : Tables). t.feed_tokens) same)

pub delete_user-Gone :
    (id user_id : String) (db : Db) → Gone id db → Gone id (delete_user user_id db).1
unfolding delete_user
delete_user-Gone id user_id db h = elim (statement_cases {0} (remove_user user_id) db) [
  | inl (_, e) ↦ same_tables id db (delete_user user_id db).1 e h
  | inr (_, e) ↦
      subst (λ (t : Tables). exists (is_token id) t.feed_tokens ≡ false) (sym e)
        (if-both (λ (r : Result (Unit {0}) × Tables). exists (is_token id) r.1.feed_tokens ≡ false)
          (exists (has_user_id user_id) db.tables.users) _ _
          (exists-map_same (is_token id) (forget_user user_id) db.tables.feed_tokens
              (λ r. ground arith)
            ∙ h)
          h)
]

not_same : {id : String} (other : String) → other ≢ id → str_eq other id ≡ false
not_same {id} other h = elim (Bool-cases (str_eq other id)) [
  | inl e ↦ absurd (h ((eq_iff other id).0 e))
  | inr e ↦ e
]

module _ (Streams : Type 0) (hash_token json_label : String → String)
    (close_token : String → Streams → Streams) (id : String) where
  minted_token-Gone :
      (tok : FeedToken) (plaintext : String) (s : FeedService Streams)
      → tok.id ≢ id
      → Gone id s.db
      → (r : Result (Unit {0})) → (create_feed_token tok s.db).0 ≡ r
      → Gone id
          (minted_token Streams hash_token json_label close_token tok plaintext s
            (r, (create_feed_token tok s.db).1)).1.db
  minted_token-Gone tok plaintext s other h (err e) k =
      same_tables id s.db (create_feed_token tok s.db).1 (create_feed_token_err tok s.db e k) h
  minted_token-Gone tok plaintext s other h (ok _) k =
      log-Gone id _ (create_feed_token tok s.db).1 (
        subst (λ (t : Tables). exists (is_token id) t.feed_tokens ≡ false)
          (sym (create_feed_token_ok tok s.db k).1)
          (exists-appended (is_token id) s.db.tables.feed_tokens (feed_token_row tok) h
            (not_same tok.id other)))

  -- Minting a token of another id.
  pub mint_token-Gone :
      (new_id : String) (rnd : Option String) (actor label : String) (s : FeedService Streams)
      → new_id ≢ id
      → Gone id s.db
      → Gone id (mint_token Streams hash_token json_label close_token new_id rnd actor label s).1.db
  unfolding mint_token
  mint_token-Gone new_id none actor label s other h =
      if-both (λ (r : Answer (FeedToken × String) × FeedService Streams). Gone id r.1.db)
        (str_eq (trim_space label) "") _ _ h h
  mint_token-Gone new_id (some rnd) actor label s other h =
      let plaintext = String.◌++◌ feed_token_prefix rnd in
      let tok =
        new_token Streams hash_token json_label close_token new_id plaintext actor
          (trim_space label) s.db.clock in
      if-both (λ (r : Answer (FeedToken × String) × FeedService Streams). Gone id r.1.db)
        (str_eq (trim_space label) "") _ _ h
        (minted_token-Gone tok plaintext s other h (create_feed_token tok s.db).0 refl)

  deleted-Gone :
      (db : Db) (id' : String)
      → Gone id db
      → (r : Result (Unit {0})) → (delete_feed_token id' db).0 ≡ r
      → Gone id (delete_feed_token id' db).1
  deleted-Gone db id' h (err e) k =
      same_tables id db (delete_feed_token id' db).1 (delete_feed_token_err id' db e k) h
  deleted-Gone db id' h (ok _) k =
      subst (λ (t : Tables). exists (is_token id) t.feed_tokens ≡ false)
        (sym (delete_feed_token_ok id' db k))
        (exists-filtered (is_token id) (λ r. not (is_token id' r)) db.tables.feed_tokens h)

  -- What is gone is gone after a revocation.
  pub revoke_token-Gone :
      (actor id' : String) (s : FeedService Streams)
      → Gone id s.db
      → Gone id (revoke_token Streams hash_token json_label close_token actor id' s).1.db
  unfolding revoke_token
  revoke_token-Gone actor id' s h =
      answered (delete_feed_token id' s.db).0
        (deleted-Gone s.db id' h (delete_feed_token id' s.db).0 refl)
    where
      answered :
          (r : Result (Unit {0}))
          → Gone id (delete_feed_token id' s.db).1
          → Gone id
              (revoked_answer Streams hash_token json_label close_token actor id' s
                (r, (delete_feed_token id' s.db).1)).1.db
      answered (err e) k = k
      answered (ok _) k = log-Gone id _ (delete_feed_token id' s.db).1 k

  -- A revocation that succeeds: the token is gone, its stamp evicted, and its streams closed.
  pub revoke_token_good :
      (actor : String) (s : FeedService Streams)
      → (revoke_token Streams hash_token json_label close_token actor id s).0 ≡ good tt
      → Gone id (revoke_token Streams hash_token json_label close_token actor id s).1.db
        × ((revoke_token Streams hash_token json_label close_token actor id s).1.streams
            ≡ close_token id s.streams)
  unfolding revoke_token
  revoke_token_good actor s h = answered (delete_feed_token id s.db).0 refl h
    where
      end : Db
      end = (delete_feed_token id s.db).1

      answered :
          (r : Result (Unit {0}))
          → (delete_feed_token id s.db).0 ≡ r
          → (revoked_answer Streams hash_token json_label close_token actor id s (r, end)).0
            ≡ good tt
          → Gone id
              (revoked_answer Streams hash_token json_label close_token actor id s (r, end)).1.db
            × ((revoked_answer Streams hash_token json_label close_token actor id s
                  (r, end)).1.streams
                ≡ close_token id s.streams)
      answered (err e) k h = absurd (ground arith)
      answered (ok _) k h = (
        log-Gone id _ end (
            subst (λ (t : Tables). exists (is_token id) t.feed_tokens ≡ false)
              (sym (delete_feed_token_ok id s.db k))
              (exists-dropped (is_token id) (λ r. not (is_token id r)) s.db.tables.feed_tokens
                (λ r e. ground arith))),
        refl,
      )

  resolved-Gone :
      (hash : String) (s : FeedService Streams) (r : Result FeedToken)
      → Gone id s.db
      → Gone id
          (resolved Streams hash_token json_label close_token s
            (r, (get_token_by_hash hash s.db).1)).1.db
  resolved-Gone hash s (err e) h =
      same_tables id s.db (get_token_by_hash hash s.db).1 (tables-get_token_by_hash hash s.db) h
  resolved-Gone hash s (ok tok) h =
      let db = (get_token_by_hash hash s.db).1 in
      let gone = same_tables id s.db db (tables-get_token_by_hash hash s.db) h in
      if-both (λ (r : Answer FeedToken × FeedService Streams). Gone id r.1.db)
        (is_stamp_due s.last_touch tok.id db.clock) _ _ (touched-Gone tok.id db.clock db gone) gone
    where
      touched-Gone :
          (k : String) (now : ℕ) (db : Db) → Gone id db → Gone id (touch_feed_token k now db).1
      touched-Gone k now db h = elim (touch_feed_token_cases k now db) [
        | inl e ↦
            subst (λ (t : Tables). exists (is_token id) t.feed_tokens ≡ false) (sym e)
              (exists-update_same (is_token id) (is_token k) (used_at now) db.tables.feed_tokens
                  (λ r. refl)
                ∙ h)
        | inr e ↦ same_tables id db (touch_feed_token k now db).1 e h
      ]

  pub authenticate_token-Gone :
      (plaintext : String) (s : FeedService Streams)
      → Gone id s.db
      → Gone id (authenticate_token Streams hash_token json_label close_token plaintext s).1.db
  unfolding authenticate_token
  authenticate_token-Gone plaintext s h =
      if-both (λ (r : Answer FeedToken × FeedService Streams). Gone id r.1.db)
        (has_prefix plaintext feed_token_prefix) _ _
        (resolved-Gone (hash_token plaintext) s (get_token_by_hash (hash_token plaintext) s.db).0 h)
        h

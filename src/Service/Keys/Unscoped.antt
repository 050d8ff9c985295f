-- ===== src/Service/Keys/Unscoped.antt =====
-- No API key has the scope of an administrator (internal/server/service/apikeys.go).
use Prim.Native.String
use diyddns.Prelude.{
  ℕ, String, Bool, true, false, not, ◌≡◌, refl, sym, ap, subst, inl, inr, Option, none, some,
  str_eq, if◌then◌else◌, if-both, exists, All, All-append, All-select, All-update_where,
  All-find_where, arith,
}
use diyddns.Store.Db.{Result, ok, err, ApiKeyRow, Tables, Db}
use diyddns.Store.Db.Laws.{statement_cases}
use diyddns.Store.Users.{has_user_id, remove_user, delete_user}
use diyddns.Store.Keys.{
  ApiKey, api_key_prefix, api_key_row, is_key, has_key_hash, create_api_key, get_key_by_hash,
  touch_api_key,
}
use diyddns.Store.Keys.Laws.{
  create_api_key_cases, tables-get_key_by_hash, get_key_by_hash_ok, key_used_at,
  touch_api_key_cases,
}
use diyddns.Service.Credentials.{Answer, good, bad, malformed, has_prefix, trim_space, is_stamp_due}
use diyddns.Service.Keys.{
  ApiKeyService, revoke_key, minted_key, new_key, mint_key, resolved_key, authenticate_key,
}
use diyddns.Service.Keys.Revoked.{keys-log, Revoked, revoke_key-Revoked}

-- No row has the scope.
abbrev pub Unscoped : Db → Type 0
Unscoped db = All (λ (r : ApiKeyRow). r.admin_scope ≡ false) db.tables.api_keys

abbrev P : ApiKeyRow → Type 0
P r = r.admin_scope ≡ false

same_keys : (db db' : Db) → db'.tables.api_keys ≡ db.tables.api_keys → Unscoped db → Unscoped db'
same_keys db db' e h = subst (All P) (sym e) h

same_tables : (db db' : Db) → db'.tables ≡ db.tables → Unscoped db → Unscoped db'
same_tables db db' e = same_keys db db' (ap (λ (t : Tables). t.api_keys) e)

delete_user-Unscoped :
    (user_id : String) (db : Db) → Unscoped db → Unscoped (delete_user user_id db).1
unfolding delete_user
delete_user-Unscoped user_id db h = elim (statement_cases {0} (remove_user user_id) db) [
  | inl (_, e) ↦ same_tables db (delete_user user_id db).1 e h
  | inr (_, e) ↦
      subst (λ (t : Tables). All P t.api_keys) (sym e)
        (if-both (λ (r : Result (Unit {0}) × Tables). All P r.1.api_keys)
          (exists (has_user_id user_id) db.tables.users) _ _
          (All-select P (λ r. not (str_eq r.user_id user_id)) db.tables.api_keys h) h)
]

-- A revocation removes rows, or none.
revoke_key-Unscoped :
    (user_id id : String) (s : ApiKeyService)
    → Unscoped s.db
    → Unscoped (revoke_key user_id id s).1.db
revoke_key-Unscoped user_id id s h =
    outcome (revoke_key user_id id s).0 (revoke_key user_id id s).1
      (revoke_key-Revoked user_id id s)
  where
    outcome :
        (r : Answer (Unit {0})) (s' : ApiKeyService) → Revoked user_id id s (r, s') → Unscoped s'.db
    outcome (good _) s' (_, left, _) =
        subst (All P) (sym left) (All-select P (λ r. not (is_key id r)) s.db.tables.api_keys h)
    outcome (bad e) s' same = same_tables s.db s'.db same h

module _ (hash_token json_label : String → String) where
  minted_key-Unscoped :
      (key : ApiKey) (plaintext : String) (s : ApiKeyService)
      → key.admin_scope ≡ false
      → Unscoped s.db
      → Unscoped (minted_key hash_token json_label key plaintext s (create_api_key key s.db)).1.db
  minted_key-Unscoped key plaintext s unscoped h = logged (create_api_key key s.db).0 created
    where
      end : Db
      end = (create_api_key key s.db).1

      created : Unscoped end
      created = elim (create_api_key_cases key s.db) [
        | inl e ↦
            subst (λ (t : Tables). All P t.api_keys) (sym e)
              (All-append P s.db.tables.api_keys (api_key_row key) h unscoped)
        | inr e ↦ same_tables s.db end e h
      ]

      logged :
          (r : Result (Unit {0}))
          → Unscoped end
          → Unscoped (minted_key hash_token json_label key plaintext s (r, end)).1.db
      logged (err e) k = k
      logged (ok _) k = subst (All P) (sym (keys-log _ end)) k

  mint_key-Unscoped :
      (id : String) (rnd : Option String) (user_id label : String) (s : ApiKeyService)
      → Unscoped s.db
      → Unscoped (mint_key hash_token json_label id rnd user_id label s).1.db
  unfolding mint_key
  mint_key-Unscoped id none user_id label s h =
      if-both (λ (r : Answer (ApiKey × String) × ApiKeyService). Unscoped r.1.db)
        (str_eq (trim_space label) "") _ _ h h
  mint_key-Unscoped id (some rnd) user_id label s h =
      let text = String.◌++◌ api_key_prefix rnd in
      let key = new_key hash_token json_label id text user_id (trim_space label) s.db.clock in
      if-both (λ (r : Answer (ApiKey × String) × ApiKeyService). Unscoped r.1.db)
        (str_eq (trim_space label) "") _ _ h (minted_key-Unscoped key text s refl h)

  resolved_key-Unscoped :
      (hash : String) (s : ApiKeyService) (r : Result ApiKey)
      → Unscoped s.db
      → Unscoped (resolved_key hash_token json_label s (r, (get_key_by_hash hash s.db).1)).1.db
  resolved_key-Unscoped hash s (err e) h =
      same_tables s.db (get_key_by_hash hash s.db).1 (tables-get_key_by_hash hash s.db) h
  resolved_key-Unscoped hash s (ok key) h =
      let db = (get_key_by_hash hash s.db).1 in
      let unscoped = same_tables s.db db (tables-get_key_by_hash hash s.db) h in
      if-both (λ (r : Answer ApiKey × ApiKeyService). Unscoped r.1.db)
        (is_stamp_due s.last_touch key.id db.clock) _ _ (touched key.id db.clock db unscoped)
        unscoped
    where
      touched :
          (id : String) (now : ℕ) (db : Db) → Unscoped db → Unscoped (touch_api_key id now db).1
      touched id now db h = elim (touch_api_key_cases id now db) [
        | inl e ↦
            subst (λ (t : Tables). All P t.api_keys) (sym e)
              (All-update_where P (is_key id) (key_used_at now) db.tables.api_keys (λ r k. k) h)
        | inr e ↦ same_tables db (touch_api_key id now db).1 e h
      ]

  authenticate_key-Unscoped :
      (plaintext : String) (s : ApiKeyService)
      → Unscoped s.db
      → Unscoped (authenticate_key hash_token json_label plaintext s).1.db
  unfolding authenticate_key
  authenticate_key-Unscoped plaintext s h =
      if-both (λ (r : Answer ApiKey × ApiKeyService). Unscoped r.1.db)
        (has_prefix plaintext api_key_prefix) _ _
        (resolved_key-Unscoped (hash_token plaintext) s
          (get_key_by_hash (hash_token plaintext) s.db).0 h)
        h

  -- The calls of the service, deletions of accounts, and writes of other tables.
  pub data Step : ApiKeyService → ApiKeyService → Type 0 where
    minting :
        (s : ApiKeyService) (id : String) (rnd : Option String) (user_id label : String)
        → Step s (mint_key hash_token json_label id rnd user_id label s).1
    revoking : (s : ApiKeyService) (user_id id : String) → Step s (revoke_key user_id id s).1
    authenticating :
        (s : ApiKeyService) (plaintext : String)
        → Step s (authenticate_key hash_token json_label plaintext s).1
    leaving :
        (s : ApiKeyService) (user_id : String)
        → Step s (record s { db = (delete_user user_id s.db).1 })
    elsewhere : (s s' : ApiKeyService) → s'.db.tables.api_keys ≡ s.db.tables.api_keys → Step s s'

  pub data Reaches : ApiKeyService → ApiKeyService → Type 0 where
    here : (s : ApiKeyService) → Reaches s s
    then_step : (a b c : ApiKeyService) → Reaches a b → Step b c → Reaches a c

  Step-Unscoped : (a b : ApiKeyService) → Step a b → Unscoped a.db → Unscoped b.db
  Step-Unscoped a b (minting _ id rnd user_id label) h = mint_key-Unscoped id rnd user_id label a h
  Step-Unscoped a b (revoking _ user_id id) h = revoke_key-Unscoped user_id id a h
  Step-Unscoped a b (authenticating _ plaintext) h = authenticate_key-Unscoped plaintext a h
  Step-Unscoped a b (leaving _ user_id) h = delete_user-Unscoped user_id a.db h
  Step-Unscoped a b (elsewhere _ _ same) h = same_keys a.db b.db same h

  Reaches-Unscoped : (a b : ApiKeyService) → Reaches a b → Unscoped a.db → Unscoped b.db
  Reaches-Unscoped a b (here _) h = h
  Reaches-Unscoped a b (then_step _ mid _ before step) h =
      Step-Unscoped mid b step (Reaches-Unscoped a mid before h)

  -- From tables where no key has the scope of an administrator, none has it after any number of the steps
  -- of `Reaches`, and no key that then authenticates has it.
  pub authenticate_key-Reaches :
      (s later : ApiKeyService) (plaintext : String) (key : ApiKey)
      → Unscoped s.db
      → Reaches s later
      → (authenticate_key hash_token json_label plaintext later).0 ≡ good key
      → Unscoped later.db × (key.admin_scope ≡ false)
  unfolding authenticate_key
  authenticate_key-Reaches s later plaintext key h reach k =
      let kept = Reaches-Unscoped s later reach h in
      (
        kept,
        looked_up (get_key_by_hash hash later.db).0 refl kept (
            prefixed (has_prefix plaintext api_key_prefix)
              (resolved_key hash_token json_label later (get_key_by_hash hash later.db)) k),
      )
    where
      hash : String
      hash = hash_token plaintext

      end : Db
      end = (get_key_by_hash hash later.db).1

      prefixed :
          (b : Bool) (run : Answer ApiKey × ApiKeyService)
          → (if b then run else (bad malformed, later)).0 ≡ good key
          → run.0 ≡ good key
      prefixed true run k = k
      prefixed false run k = absurd (ground arith)

      looked_up :
          (r : Result ApiKey)
          → (get_key_by_hash hash later.db).0 ≡ r
          → Unscoped later.db
          → (resolved_key hash_token json_label later (r, end)).0 ≡ good key
          → key.admin_scope ≡ false
      looked_up (err e) e' kept k = absurd (ground arith)
      looked_up (ok found) e kept k =
          let (row, at, is) = get_key_by_hash_ok hash later.db found e in
          let unscoped : row.admin_scope ≡ false =
            All-find_where P (has_key_hash hash) later.db.tables.api_keys row kept at in
          let same : key.admin_scope ≡ found.admin_scope = ground arith in ground arith

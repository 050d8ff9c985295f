-- ===== src/Service/Keys/Revoked.antt =====
-- The revocation of an API key (internal/server/service/apikeys.go).
use diyddns.Prelude.{
  String, true, not, ◌≡◌, refl, sym, ap, ◌∙◌, some, inl, inr, find_where, select, str_eq, eq_iff,
  Bool-cases, arith,
}
use diyddns.Store.Db.{Result, ok, err, ApiKeyRow, Tables, Db}
use diyddns.Store.Keys.{ApiKey, is_key, get_key_by_id, delete_api_key}
use diyddns.Store.Keys.Laws.{
  get_key_by_id_ok, tables-get_key_by_id, delete_api_key_ok, delete_api_key_err,
}
use diyddns.Store.Audit.{AuditEntry, log}
use diyddns.Store.Audit.Laws.{log_frame}
use diyddns.Service.Credentials.{Answer, good, bad}
use diyddns.Service.Keys.{
  ApiKeyService, owned_by_user, owned_key, deleted_key, revoke_owned, revoke_key,
}

-- The two outcomes: the caller's own key is gone and its stamp evicted, or no table has changed.
abbrev pub Revoked : String → String → ApiKeyService → Answer (Unit {0}) × ApiKeyService → Type 0
Revoked user_id id s (good _, s') =
    ((row : ApiKeyRow) × (find_where (is_key id) s.db.tables.api_keys ≡ some row)
      × (row.user_id ≡ user_id))
    × (s'.db.tables.api_keys ≡ select (λ r. not (is_key id r)) s.db.tables.api_keys)
    × (s'.last_touch id ≡ 0)
Revoked user_id id s (bad e, s') = s'.db.tables ≡ s.db.tables

-- A key of the caller that was read.
abbrev Owned : String → String → Db → ApiKey → Type 0
Owned user_id id db key =
    (key.id ≡ id)
    × ((row : ApiKeyRow) × (find_where (is_key id) db.tables.api_keys ≡ some row)
        × (row.user_id ≡ user_id))

pub keys-log : (e : AuditEntry) (db : Db) → (log e db).1.tables.api_keys ≡ db.tables.api_keys
keys-log e db = let (_, (_, _, same)) = log_frame e db in ap (λ (t : Tables). t.api_keys) same

module _ (user_id id : String) (s : ApiKeyService) where
  owned : (key : ApiKey) → (owned_key user_id id s.db).0 ≡ ok key → Owned user_id id s.db key
  unfolding owned_key
  owned key h = read (get_key_by_id id s.db).0 refl h
    where
      end : Db
      end = (get_key_by_id id s.db).1

      read :
          (r : Result ApiKey)
          → (get_key_by_id id s.db).0 ≡ r
          → (owned_by_user user_id (r, end)).0 ≡ ok key
          → Owned user_id id s.db key
      read (err e) k h = absurd (ground arith)
      read (ok x) k h =
          let (row, at, scanned, is) = get_key_by_id_ok id s.db x k in
          let same : (x ≡ key) × (str_eq x.user_id user_id ≡ true) =
            elim (Bool-cases (str_eq x.user_id user_id)) [
              | inl e ↦ (ground arith, e)
              | inr e ↦ absurd (ground arith)
            ] in
          (
            ap (λ (k : ApiKey). k.id) (sym same.0) ∙ is,
            (
              row,
              at,
              ap (λ (k : ApiKey). k.user_id) (sym scanned) ∙ (eq_iff x.user_id user_id).0 same.1,
            ),
          )

  tables-owned_key : (owned_key user_id id s.db).1.tables ≡ s.db.tables
  unfolding owned_key
  tables-owned_key = read (get_key_by_id id s.db).0
    where
      end : Db
      end = (get_key_by_id id s.db).1

      read : (r : Result ApiKey) → (owned_by_user user_id (r, end)).1.tables ≡ s.db.tables
      read (err e) = tables-get_key_by_id id s.db
      read (ok x) = elim (Bool-cases (str_eq x.user_id user_id)) [
        | inl e ↦ ground (arith, tables-get_key_by_id id s.db)
        | inr e ↦ ground (arith, tables-get_key_by_id id s.db)
      ]

  deleted_key-Revoked :
      (key : ApiKey) (db : Db) (r : Result (Unit {0}))
      → db.tables ≡ s.db.tables
      → Owned user_id id s.db key
      → (delete_api_key key.id db).0 ≡ r
      → Revoked user_id id s (deleted_key user_id key.id s (r, (delete_api_key key.id db).1))
  deleted_key-Revoked key db (err e) same (is, row) k = delete_api_key_err key.id db e k ∙ same
  deleted_key-Revoked key db (ok _) same (is, row) k =
      let left =
        keys-log _ (delete_api_key key.id db).1
        ∙ ap (λ (t : Tables). t.api_keys) (delete_api_key_ok key.id db k)
        ∙ ap (λ (t : Tables). select (λ r. not (is_key key.id r)) t.api_keys) same
        ∙ ap (λ i. select (λ r. not (is_key i r)) s.db.tables.api_keys) is in
      (row, left, ground (arith, eq_iff id key.id))

  -- A revocation that returns no error was of a key of the caller, removes the row of that id, leaves the
  -- others and evicts the stamp; one that returns an error, as for the key of another user, has changed
  -- no table.
  pub revoke_key-Revoked : Revoked user_id id s (revoke_key user_id id s)
  unfolding revoke_key
  revoke_key-Revoked = read (owned_key user_id id s.db).0 refl
    where
      end : Db
      end = (owned_key user_id id s.db).1

      read :
          (r : Result ApiKey)
          → (owned_key user_id id s.db).0 ≡ r
          → Revoked user_id id s (revoke_owned user_id s (r, end))
      read (err e) k = tables-owned_key
      read (ok key) k =
          deleted_key-Revoked key end (delete_api_key key.id end).0 tables-owned_key (owned key k)
            refl

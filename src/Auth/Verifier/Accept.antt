-- ===== src/Auth/Verifier/Accept.antt =====
-- What it takes to be accepted (`Verify`, internal/auth/hmac.go).
use diyddns.Prelude.{
  ℕ, ◌^◌, ◌<◌, String, false, ◌≡◌, ◌⊎◌, sym, ap, ◌∙◌, subst, List, Option, none, some, find_where,
  arith,
}
use diyddns.Prelude.Int.{ℤ}
use diyddns.Store.Db.{UserRow, DeviceRow, Tables, Db, has_id}
use diyddns.Store.Devices.Rows.{Device, scan_device}
use diyddns.Store.Devices.Writes.{get_by_id}
use diyddns.Store.Devices.Writes.Laws.{get_by_id_ok, tables-get_by_id}
use diyddns.Store.Nonces.Laws.{noted}
use diyddns.Store.Users.{User, has_user_id}
use diyddns.Store.Users.Laws.{get_user_by_id_ok}
use diyddns.Auth.Timestamp.{
  parse_int, seconds, nonce_expiry, Drift, out_of_skew-Drift, parse_int-Int64,
}
use diyddns.Auth.Verifier.{
  RequestParts, Context, Verifier, secret_for, check_device, verify, cached,
}
use diyddns.Auth.Verifier.Steps.{
  Judged, Judged-weaken, Signed, ByDevice, device-Judged, secret_cases,
}

module _ {Key Secret : Type 0} (open_secret : Key → String → Option Secret)
    (sign : Secret → String → String) (body_hash_hex : List ℕ → String) where
  -- The secret is the cached one, or the one that the stored text opens to.
  abbrev pub SecretOf : Verifier Key Secret → Device → Secret → Type 0
  SecretOf v dev secret =
      (cached dev.id v.cache ≡ some secret)
      ⊎ (cached dev.id v.cache ≡ none) × (open_secret v.key dev.secret_hash ≡ some secret)

  pub record Accepted (p : RequestParts) (now : ℕ) (v : Verifier Key Secret) (old : Tables)
      (id : String) (new : Tables) : Type 0 where
    pub row : DeviceRow
    pub found_row : find_where (has_id p.device) old.devices ≡ some row
    pub is_id : id ≡ row.id
    pub enabled : row.disabled ≡ false
    pub owner : UserRow
    pub found_owner : find_where (has_user_id row.user_id) old.users ≡ some owner
    pub owner_enabled : owner.disabled ≡ false
    pub ts : ℤ
    pub parsed : parse_int p.timestamp ≡ some ts
    pub in_skew : Drift now ts (seconds v.skew)
    pub secret : Secret
    pub held : SecretOf v (scan_device row) secret
    pub signed : Signed open_secret sign body_hash_hex p secret ts v.nonce_ttl old new

  found-Accepted :
      (p : RequestParts) (now : ℕ) (v : Verifier Key Secret) (db : Db) (id : String) (t : Tables)
      → now < 2 ^ 62
      → v.skew < 2 ^ 63
      → ByDevice open_secret sign body_hash_hex p now v
          (get_by_id p.device db).1
          (get_by_id p.device db).0
          id
          t
      → Accepted p now v db.tables id t
  unfolding scan_device
  found-Accepted p now v db id t hn hs
        (dev, e, en, (owner, eo, oen, (ts, parse, skew, (secret, held, is, signed)))) =
      let db' = (get_by_id p.device db).1 in
      let same = tables-get_by_id p.device db in
      let (row, there, scanned, _, _) = get_by_id_ok p.device db dev e in
      let (owner_row, owned, read) = get_user_by_id_ok dev.user_id db' owner eo in
      record {
        row = row;
        found_row = there;
        is_id = is ∙ ap (λ (d : Device). d.id) scanned;
        enabled = ap (λ (d : Device). d.disabled) (sym scanned) ∙ en;
        owner = owner_row;
        found_owner =
            ap (λ (d : Device). find_where (has_user_id d.user_id) db.tables.users) (sym scanned)
            ∙ ap (λ (x : Tables). find_where (has_user_id dev.user_id) x.users) (sym same)
            ∙ owned;
        owner_enabled = ap (λ (u : User). u.disabled) (sym read) ∙ oen;
        ts = ts;
        parsed = parse;
        in_skew = out_of_skew-Drift now ts v.skew hn hs (parse_int-Int64 p.timestamp ts parse) skew;
        secret = secret;
        held =
            subst (λ d. SecretOf v d secret) scanned
              (secret_cases open_secret sign body_hash_hex v dev secret held);
        signed =
            subst (λ x. Signed open_secret sign body_hash_hex p secret ts v.nonce_ttl x t) same
              signed;
      }

  -- For a clock below 2^62 and an int64 of nanoseconds for the skew, a request that is accepted names
  -- an enabled device of an enabled user, carries a decimal timestamp that is at most the skew away
  -- from the clock, and carries the signature, under the cached or the stored secret, of its method,
  -- path, timestamp, nonce and body; that signature was not recorded before, and recording it, until
  -- the timestamp plus the lifetime, is all that happened to the tables. A request that is rejected,
  -- whatever the database did, has changed no table.
  pub verify-Judged :
      (p : RequestParts) (ctx : Context) (now : ℕ) (v : Verifier Key Secret) (db : Db)
      → now < 2 ^ 62
      → v.skew < 2 ^ 63
      → let (verdict, _, end) = verify open_secret sign body_hash_hex p ctx now v db in
        Judged db.tables (Accepted p now v db.tables) verdict end.tables
  unfolding verify
  verify-Judged p ctx now v db hn hs =
      let (dev, db') = get_by_id p.device db in
      let out = check_device open_secret sign body_hash_hex dev p ctx now v db' in
      Judged-weaken db.tables db'.tables out.2.tables out.0 (tables-get_by_id p.device db)
        (λ id t x. found-Accepted p now v db id t hn hs x)
        (device-Judged open_secret sign body_hash_hex p now v ctx db' dev)

  -- Whatever happens, at most one signature is recorded.
  pub verify-noted :
      (p : RequestParts) (ctx : Context) (now : ℕ) (v : Verifier Key Secret) (db : Db)
      → let (verdict, _, end) = verify open_secret sign body_hash_hex p ctx now v db in
        Judged db.tables
          (λ _ new. (s : String) × (e : ℤ) × (new ≡ noted s e db.tables))
          verdict
          end.tables
  unfolding verify
  verify-noted p ctx now v db =
      let (dev, db') = get_by_id p.device db in
      let out = check_device open_secret sign body_hash_hex dev p ctx now v db' in
      let same = tables-get_by_id p.device db in
      Judged-weaken db.tables db'.tables out.2.tables out.0 same
        (λ id t (_, _, _, (_, _, _, (ts, _, _, (_, _, _, signed)))). (
          p.signature,
          nonce_expiry ts v.nonce_ttl,
          signed.recorded ∙ ap (noted p.signature (nonce_expiry ts v.nonce_ttl)) same,
        ))
        (device-Judged open_secret sign body_hash_hex p now v ctx db' dev)

  -- Verifying changes nothing of the verifier but its cache.
  pub verify_config :
      (p : RequestParts) (ctx : Context) (now : ℕ) (v : Verifier Key Secret) (db : Db)
      → let (_, v', _) = verify open_secret sign body_hash_hex p ctx now v db in
        (v'.skew ≡ v.skew) × (v'.nonce_ttl ≡ v.nonce_ttl)
  unfolding verify secret_for
  verify_config p ctx now v db = ground arith

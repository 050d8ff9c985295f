-- ===== src/Auth/Verifier/Steps.antt =====
-- The checks of `Verify`, one after the other (internal/auth/hmac.go).
use diyddns.Prelude.{
  ℕ, String, Bool, true, false, not, ◌≡◌, ◌⊎◌, inl, inr, refl, ◌∙◌, subst, List, Option, none, some,
  str_eq, eq_iff, if◌then◌else◌, exists, arith,
}
use diyddns.Prelude.Int.{ℤ}
use diyddns.Store.Db.{Error, not_found, conflict, driver, Result, ok, err, Tables, Db}
use diyddns.Store.Devices.Rows.{Device}
use diyddns.Store.Users.{User, get_user_by_id}
use diyddns.Store.Nonces.{has_signature, insert}
use diyddns.Store.Nonces.Laws.{noted, insert_cases}
use diyddns.Store.Users.Laws.{tables-get_user_by_id}
use diyddns.Auth.Timestamp.{parse_int, out_of_skew, nonce_expiry}
use diyddns.Auth.Verifier.{
  RequestParts, Context, Verdict, accepted, rejected, bad_signature, clock_skew, user_disabled,
  device_disabled, Verifier, Reply, expected, secret_for, record_signature, check_signature,
  check_timestamp, check_user, check_device, cached,
}

-- A rejected request has changed no table, and an accepted one has done what `P` says.
abbrev pub Judged : Tables → (String → Tables → Type 0) → Verdict → Tables → Type 0
Judged old P (accepted id) new = P id new
Judged old P (rejected r) new = new ≡ old

pub Judged-weaken :
    {P Q : String → Tables → Type 0} (old mid new : Tables) (verdict : Verdict)
    → mid ≡ old
    → ((id : String) → (t : Tables) → P id t → Q id t)
    → Judged mid P verdict new
    → Judged old Q verdict new
Judged-weaken old mid new (accepted id) same f h = f id new h
Judged-weaken old mid new (rejected r) same f h = h ∙ same

module _ {Key Secret : Type 0} (open_secret : Key → String → Option Secret)
    (sign : Secret → String → String) (body_hash_hex : List ℕ → String) where
  -- The signature is the one of the secret, was not recorded before, and is recorded now.
  pub record Signed (p : RequestParts) (secret : Secret) (ts : ℤ) (nonce_ttl : ℕ) (old new : Tables)
      : Type 0 where
    pub matches : expected open_secret sign body_hash_hex secret p ≡ p.signature
    pub fresh : exists (has_signature p.signature) old.nonces ≡ false
    pub recorded : new ≡ noted p.signature (nonce_expiry ts nonce_ttl) old

  module _ (p : RequestParts) (dev : Device) (ts : ℤ) (v : Verifier Key Secret) (db : Db)
      (secret : Secret) where
    abbrev BySignature : String → Tables → Type 0
    BySignature id new = (id ≡ dev.id) × Signed p secret ts v.nonce_ttl db.tables new

    abbrev Inserted : Result (Unit {0}) → Tables → Type 0
    Inserted r new =
        (r ≡ ok tt)
          × (exists (has_signature p.signature) db.tables.nonces ≡ false)
          × (new ≡ noted p.signature (nonce_expiry ts v.nonce_ttl) db.tables)
        ⊎ (e : Error) × (r ≡ err e) × (new ≡ db.tables)

    recorded-Judged :
        (r : Result (Unit {0})) (new : Tables)
        → expected open_secret sign body_hash_hex secret p ≡ p.signature
        → Inserted r new
        → Judged db.tables BySignature
            (record_signature open_secret sign body_hash_hex dev.id r)
            new
    recorded-Judged (ok _) new m (inl (_, fresh, t)) =
        (refl, record { matches = m; fresh = fresh; recorded = t })
    recorded-Judged (ok _) new m (inr (e, h, t)) = absurd (ground arith)
    recorded-Judged (err x) new m (inl (h, _, t)) = absurd (ground arith)
    recorded-Judged (err conflict) new m (inr (e, h, t)) = t
    recorded-Judged (err not_found) new m (inr (e, h, t)) = t
    recorded-Judged (err driver) new m (inr (e, h, t)) = t

    compared-Judged :
        (b : Bool)
        → str_eq (expected open_secret sign body_hash_hex secret p) p.signature ≡ b
        → let out : Reply open_secret sign body_hash_hex =
            if not b
            then (rejected bad_signature, v, db)
            else let (r, end) = insert p.signature (nonce_expiry ts v.nonce_ttl) db in
              (record_signature open_secret sign body_hash_hex dev.id r, v, end) in
          Judged db.tables BySignature out.0 out.2.tables
    compared-Judged false h = refl
    compared-Judged true h =
        recorded-Judged (insert p.signature (nonce_expiry ts v.nonce_ttl) db).0
          (insert p.signature (nonce_expiry ts v.nonce_ttl) db).1.tables
          ((eq_iff (expected open_secret sign body_hash_hex secret p) p.signature).0 h)
          (insert_cases p.signature (nonce_expiry ts v.nonce_ttl) db)

  pub secret_cases :
      (v : Verifier Key Secret) (dev : Device) (secret : Secret)
      → (secret_for open_secret sign body_hash_hex v dev).0 ≡ some secret
      → (cached dev.id v.cache ≡ some secret)
        ⊎ (cached dev.id v.cache ≡ none) × (open_secret v.key dev.secret_hash ≡ some secret)
  unfolding secret_for
  secret_cases v dev secret h = ground arith

  pub secret_config :
      (v : Verifier Key Secret) (dev : Device)
      → ((secret_for open_secret sign body_hash_hex v dev).1.nonce_ttl ≡ v.nonce_ttl)
        × ((secret_for open_secret sign body_hash_hex v dev).1.skew ≡ v.skew)
  unfolding secret_for
  secret_config v dev = ground arith

  module _ (p : RequestParts) (now : ℕ) (v : Verifier Key Secret) where
    abbrev pub BySecret : Device → ℤ → Tables → String → Tables → Type 0
    BySecret dev ts old id new =
        (secret : Secret) × ((secret_for open_secret sign body_hash_hex v dev).0 ≡ some secret)
        × (id ≡ dev.id)
        × Signed p secret ts v.nonce_ttl old new

    abbrev pub ByTimestamp : Device → Tables → String → Tables → Type 0
    ByTimestamp dev old id new =
        (ts : ℤ) × (parse_int p.timestamp ≡ some ts)
        × (out_of_skew now ts v.skew ≡ false)
        × BySecret dev ts old id new

    abbrev pub ByUser : Device → Result User → Tables → String → Tables → Type 0
    ByUser dev r old id new =
        (owner : User) × (r ≡ ok owner) × (owner.disabled ≡ false) × ByTimestamp dev old id new

    secret-Judged :
        (dev : Device) (ts : ℤ) (db : Db) (s : Option Secret)
        → (secret_for open_secret sign body_hash_hex v dev).0 ≡ s
        → let out =
            check_signature open_secret sign body_hash_hex s p dev ts
              (secret_for open_secret sign body_hash_hex v dev).1
              db in
          Judged db.tables (BySecret dev ts db.tables) out.0 out.2.tables
    secret-Judged dev ts db none h = refl
    secret-Judged dev ts db (some secret) h =
        let v' = (secret_for open_secret sign body_hash_hex v dev).1 in
        let out = check_signature open_secret sign body_hash_hex (some secret) p dev ts v' db in
        Judged-weaken db.tables db.tables out.2.tables out.0 refl
          (λ id t (is, signed). (
            secret,
            h,
            is,
            subst (λ n. Signed p secret ts n db.tables t) (secret_config v dev).0 signed,
          ))
          (compared-Judged p dev ts v' db secret
            (str_eq (expected open_secret sign body_hash_hex secret p) p.signature) refl)

    skew-Judged :
        (dev : Device) (ts : ℤ) (db : Db) (b : Bool)
        → out_of_skew now ts v.skew ≡ b
        → parse_int p.timestamp ≡ some ts
        → let out : Reply open_secret sign body_hash_hex =
            if b
            then (rejected clock_skew, v, db)
            else let (s, v') = secret_for open_secret sign body_hash_hex v dev in
              check_signature open_secret sign body_hash_hex s p dev ts v' db in
          Judged db.tables (ByTimestamp dev db.tables) out.0 out.2.tables
    skew-Judged dev ts db true h e = refl
    skew-Judged dev ts db false h e =
        let (s, v') = secret_for open_secret sign body_hash_hex v dev in
        let out = check_signature open_secret sign body_hash_hex s p dev ts v' db in
        Judged-weaken db.tables db.tables out.2.tables out.0 refl (λ id t x. (ts, e, h, x))
          (secret-Judged dev ts db s refl)

    timestamp-Judged :
        (dev : Device) (db : Db) (o : Option ℤ)
        → parse_int p.timestamp ≡ o
        → let out = check_timestamp open_secret sign body_hash_hex o p now dev v db in
          Judged db.tables (ByTimestamp dev db.tables) out.0 out.2.tables
    timestamp-Judged dev db none h = refl
    timestamp-Judged dev db (some ts) h = skew-Judged dev ts db (out_of_skew now ts v.skew) refl h

    user-Judged :
        (dev : Device) (ctx : Context) (db : Db) (r : Result User)
        → let out = check_user open_secret sign body_hash_hex r p ctx now dev v db in
          Judged db.tables (ByUser dev r db.tables) out.0 out.2.tables
    user-Judged dev ctx db (err e) = refl
    user-Judged dev ctx db (ok usr) = enabled usr.disabled refl
      where
        enabled :
            (b : Bool)
            → usr.disabled ≡ b
            → let out : Reply open_secret sign body_hash_hex =
                if b
                then (rejected user_disabled, v, db)
                else check_timestamp open_secret sign body_hash_hex
                    (parse_int p.timestamp)
                    p
                    now
                    dev
                    v
                    db in
              Judged db.tables (ByUser dev (ok usr) db.tables) out.0 out.2.tables
        enabled true h = refl
        enabled false h =
            let out =
              check_timestamp open_secret sign body_hash_hex (parse_int p.timestamp) p now dev v
                db in
            Judged-weaken db.tables db.tables out.2.tables out.0 refl (λ id t x. (usr, refl, h, x))
              (timestamp-Judged dev db (parse_int p.timestamp) refl)

    abbrev pub ByDevice : Db → Result Device → String → Tables → Type 0
    ByDevice db r id new =
        (dev : Device) × (r ≡ ok dev)
        × (dev.disabled ≡ false)
        × ByUser dev (get_user_by_id dev.user_id db).0 db.tables id new

    pub device-Judged :
        (ctx : Context) (db : Db) (r : Result Device)
        → let out = check_device open_secret sign body_hash_hex r p ctx now v db in
          Judged db.tables (ByDevice db r) out.0 out.2.tables
    device-Judged ctx db (err e) = refl
    device-Judged ctx db (ok dev) = enabled dev.disabled refl
      where
        enabled :
            (b : Bool)
            → dev.disabled ≡ b
            → let out : Reply open_secret sign body_hash_hex =
                if b
                then (rejected device_disabled, v, db)
                else let (usr, db') = get_user_by_id dev.user_id db in
                  check_user open_secret sign body_hash_hex usr p ctx now dev v db' in
              Judged db.tables (ByDevice db (ok dev)) out.0 out.2.tables
        enabled true h = refl
        enabled false h =
            let (usr, db') = get_user_by_id dev.user_id db in
            let out = check_user open_secret sign body_hash_hex usr p ctx now dev v db' in
            let same = tables-get_user_by_id dev.user_id db in
            Judged-weaken db.tables db'.tables out.2.tables out.0 same
              (λ id t x. (dev, refl, h, subst (λ tables. ByUser dev usr tables id t) same x))
              (user-Judged dev ctx db' usr)

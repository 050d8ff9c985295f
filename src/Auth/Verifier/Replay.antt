-- ===== src/Auth/Verifier/Replay.antt =====
-- A signature is accepted once (internal/auth/hmac.go, internal/store/replay_nonces.go).
use diyddns.Prelude.{
  ℕ, ◌^◌, ◌≤◌, ◌<◌, String, Bool, true, false, not, ◌&&◌, ◌≡◌, ◌≢◌, refl, sym, ap, ◌∙◌, subst, List,
  [], ◌∷◌, Option, some, str_eq, eq_self, exists, length, select, exists-append, exists-append_last,
  exists-select, exists-weaken, arith,
}
use diyddns.Prelude.Int.{ℤ, pos, negsuc, leb_ℤ}
use diyddns.Store.Db.{ok, Nonce, Tables, Db}
use diyddns.Store.Db.Laws.{statement_cases}
use diyddns.Store.Nonces.{has_signature, is_expired, prune_expired}
use diyddns.Store.Nonces.Laws.{noted}
use diyddns.Auth.Timestamp.{parse_int, seconds, Drift, nonce_expiry, nonce_expiry-Drift}
use diyddns.Auth.Verifier.{
  RequestParts, Context, Verdict, accepted, rejected, Verifier, verify, invalidate,
}
use diyddns.Auth.Verifier.Steps.{Judged}
use diyddns.Auth.Verifier.Accept.{Accepted, verify-Judged, verify-noted, verify_config}

-- A row of that signature that is kept at least until `e`.
abbrev kept_until : String → ℤ → Nonce → Bool
kept_until s e n = str_eq n.signature s && leb_ℤ e n.expires_at

abbrev Kept : String → ℤ → Tables → Type 0
Kept s e t = exists (kept_until s e) t.nonces ≡ true

not_expired :
    (s : String) (e : ℤ) (now : ℕ) (n : Nonce)
    → leb_ℤ (pos now) e ≡ true
    → kept_until s e n ≡ true
    → not (is_expired now n) ≡ true
not_expired s (pos e) now n h k = ground arith
not_expired s (negsuc e) now n h k = absurd (ground arith)

-- Pruning keeps a row until it expires.
Kept-prune :
    (s : String) (e : ℤ) (now : ℕ) (db : Db)
    → leb_ℤ (pos now) e ≡ true
    → Kept s e db.tables
    → Kept s e (prune_expired now db).1.tables
unfolding prune_expired
Kept-prune s e now db h k =
    let keep : Nonce → Bool = λ n. not (is_expired now n) in
    ground (
      arith,
      statement_cases {0}
          (λ (t : Tables). (
            ok (length (select (is_expired now) t.nonces)),
            record t { nonces = select (λ n. not (is_expired now n)) t.nonces },
          ))
          db,
      exists-select (kept_until s e) keep db.tables.nonces (λ n. not_expired s e now n h) k,
    )

Kept-noted :
    (s : String) (e : ℤ) (s' : String) (e' : ℤ) (t : Tables) → Kept s e t → Kept s e (noted s' e' t)
Kept-noted s e s' e' t k =
    exists-append (kept_until s e) t.nonces (record { signature = s'; expires_at = e' } ∷ []) k

leb_ℤ-refl : (e : ℤ) → leb_ℤ e e ≡ true
leb_ℤ-refl (pos n) = ground arith
leb_ℤ-refl (negsuc n) = ground arith

Kept-noted_self : (s : String) (e : ℤ) (t : Tables) → Kept s e (noted s e t)
Kept-noted_self s e t =
    exists-append_last (kept_until s e) t.nonces (record { signature = s; expires_at = e })
      (ground (arith, eq_self s, leb_ℤ-refl e))

accepted-injective : {a b : String} → accepted a ≡ accepted b → a ≡ b
accepted-injective h = ground arith

some_int : {a b : ℤ} → some a ≡ some b → a ≡ b
some_int h = ground arith

leb_ℤ-earlier : (t now : ℕ) (e : ℤ) → t ≤ now → leb_ℤ (pos now) e ≡ true → leb_ℤ (pos t) e ≡ true
leb_ℤ-earlier t now (pos e) h k = ground arith
leb_ℤ-earlier t now (negsuc e) h k = ground arith

module _ {Key Secret : Type 0} (open_secret : Key → String → Option Secret)
    (sign : Secret → String → String) (body_hash_hex : List ℕ → String) where
  -- What can happen to a verifier and its database, at instants that do not decrease: requests are
  -- verified, nonces pruned, secrets evicted, and other tables written.
  pub data Reaches (start : ℕ) (v₀ : Verifier Key Secret) (db₀ : Db)
      : ℕ → Verifier Key Secret → Db → Type 0 where
    here : Reaches start v₀ db₀ start v₀ db₀
    verified :
        (t now : ℕ) (v : Verifier Key Secret) (db : Db) (p : RequestParts) (ctx : Context)
        → Reaches start v₀ db₀ t v db
        → t ≤ now
        → Reaches start v₀ db₀ now
            (verify open_secret sign body_hash_hex p ctx now v db).1
            (verify open_secret sign body_hash_hex p ctx now v db).2
    pruned :
        (t now : ℕ) (v : Verifier Key Secret) (db : Db)
        → Reaches start v₀ db₀ t v db
        → t ≤ now
        → Reaches start v₀ db₀ now v (prune_expired now db).1
    invalidated :
        (t : ℕ) (v : Verifier Key Secret) (db : Db) (id : String)
        → Reaches start v₀ db₀ t v db
        → Reaches start v₀ db₀ t (invalidate v id) db
    elsewhere :
        (t : ℕ) (v : Verifier Key Secret) (db db' : Db)
        → Reaches start v₀ db₀ t v db
        → db'.tables.nonces ≡ db.tables.nonces
        → Reaches start v₀ db₀ t v db'

  verify-Kept :
      (s : String) (e : ℤ) (old new : Tables) (verdict : Verdict)
      → Judged old (λ _ new. (s' : String) × (e' : ℤ) × (new ≡ noted s' e' old)) verdict new
      → Kept s e old
      → Kept s e new
  verify-Kept s e old new (accepted id) (s', e', h) k =
      subst (Kept s e) (sym h) (Kept-noted s e s' e' old k)
  verify-Kept s e old new (rejected r) h k = subst (Kept s e) (sym h) k

  module _ (start : ℕ) (v₀ : Verifier Key Secret) (db₀ : Db) where
    Reaches-later :
        (t : ℕ) (v : Verifier Key Secret) (db : Db) → Reaches start v₀ db₀ t v db → start ≤ t
    Reaches-later t v db here = omega arith
    Reaches-later t v db (verified t' now w db' p ctx r le) =
        omega (arith, Reaches-later t' w db' r)
    Reaches-later t v db (pruned t' now w db' r le) = omega (arith, Reaches-later t' w db' r)
    Reaches-later t v db (invalidated t' w db' id r) = Reaches-later t' w db' r
    Reaches-later t v db (elsewhere t' w db' db'' r same) = Reaches-later t' w db' r

    -- The durations of a verifier never change.
    Reaches-config :
        (t : ℕ) (v : Verifier Key Secret) (db : Db)
        → Reaches start v₀ db₀ t v db
        → (v.skew ≡ v₀.skew) × (v.nonce_ttl ≡ v₀.nonce_ttl)
    unfolding invalidate
    Reaches-config t v db here = (refl, refl)
    Reaches-config t v db (verified t' now w db' p ctx r le) =
        let (a, b) = Reaches-config t' w db' r in
        let (c, d) = verify_config open_secret sign body_hash_hex p ctx now w db' in (c ∙ a, d ∙ b)
    Reaches-config t v db (pruned t' now w db' r le) = Reaches-config t' w db' r
    Reaches-config t v db (invalidated t' w db' id r) = Reaches-config t' w db' r
    Reaches-config t v db (elsewhere t' w db' db'' r same) = Reaches-config t' w db' r

    module _ (s : String) (e : ℤ) (k : Kept s e db₀.tables) where
      Reaches-Kept :
          (t : ℕ) (v : Verifier Key Secret) (db : Db)
          → Reaches start v₀ db₀ t v db
          → leb_ℤ (pos t) e ≡ true
          → Kept s e db.tables
      Reaches-Kept t v db here h = k
      Reaches-Kept t v db (verified t' now w db' p ctx r le) h =
          let out = verify open_secret sign body_hash_hex p ctx now w db' in
          verify-Kept s e db'.tables out.2.tables out.0
            (verify-noted open_secret sign body_hash_hex p ctx now w db')
            (Reaches-Kept t' w db' r (leb_ℤ-earlier t' now e le h))
      Reaches-Kept t v db (pruned t' now w db' r le) h =
          Kept-prune s e now db' h (Reaches-Kept t' w db' r (leb_ℤ-earlier t' now e le h))
      Reaches-Kept t v db (invalidated t' w db' id r) h = Reaches-Kept t' w db' r h
      Reaches-Kept t v db (elsewhere t' w db' db'' r same) h =
          ap (exists (kept_until s e)) same ∙ Reaches-Kept t' w db' r h

  Accepted-noted :
      (p : RequestParts) (now : ℕ) (v : Verifier Key Secret) (db : Db) (id : String)
      (verdict : Verdict) (end : Tables)
      → verdict ≡ accepted id
      → Judged db.tables (Accepted open_secret sign body_hash_hex p now v db.tables) verdict end
      → Accepted open_secret sign body_hash_hex p now v db.tables id end
  Accepted-noted p now v db id (rejected r) end h j = absurd (ground arith)
  Accepted-noted p now v db id (accepted x) end h j =
      subst (λ y. Accepted open_secret sign body_hash_hex p now v db.tables y end)
        (accepted-injective h) j

  accepted-Accepted :
      (p : RequestParts) (ctx : Context) (now : ℕ) (v : Verifier Key Secret) (db : Db) (id : String)
      → now < 2 ^ 62
      → v.skew < 2 ^ 63
      → (verify open_secret sign body_hash_hex p ctx now v db).0 ≡ accepted id
      → Accepted open_secret sign body_hash_hex p now v db.tables id
          (verify open_secret sign body_hash_hex p ctx now v db).2.tables
  accepted-Accepted p ctx now v db id hn hs h =
      let out = verify open_secret sign body_hash_hex p ctx now v db in
      Accepted-noted p now v db id out.0 out.2.tables h
        (verify-Judged open_secret sign body_hash_hex p ctx now v db hn hs)

  -- While the lifetime of a signature is no shorter than the skew, and both are int64 durations: once
  -- a request has been accepted, no request with its signature and timestamp is accepted again before
  -- 2^62, however many requests are verified, nonces pruned, secrets evicted and other tables
  -- written in between, at instants that do not decrease.
  pub verify-Reaches :
      (p p' : RequestParts) (ctx ctx' : Context) (now t now' : ℕ)
      → (v v' : Verifier Key Secret) (db db' : Db) (id id' : String) → v.skew ≤ v.nonce_ttl
      → v.nonce_ttl < 2 ^ 63
      → (verify open_secret sign body_hash_hex p ctx now v db).0 ≡ accepted id
      → Reaches now
          (verify open_secret sign body_hash_hex p ctx now v db).1
          (verify open_secret sign body_hash_hex p ctx now v db).2
          t
          v'
          db'
      → t ≤ now'
      → now' < 2 ^ 62
      → p'.signature ≡ p.signature
      → p'.timestamp ≡ p.timestamp
      → (verify open_secret sign body_hash_hex p' ctx' now' v' db').0 ≢ accepted id'
  verify-Reaches p p' ctx ctx' now t now' v v' db db' id id' ttl small h r le bound sig stamp
        again =
      let out = verify open_secret sign body_hash_hex p ctx now v db in
      let (skew, lifetime) = Reaches-config now out.1 out.2 t v' db' r in
      let (skew0, lifetime0) = verify_config open_secret sign body_hash_hex p ctx now v db in
      let first =
        accepted-Accepted p ctx now v db id
          (omega (arith, Reaches-later now out.1 out.2 t v' db' r)) (omega arith) h in
      let second =
        accepted-Accepted p' ctx' now' v' db' id' bound (ground (arith, skew, skew0)) again in
      let same_ts : second.ts ≡ first.ts =
        some_int (sym second.parsed ∙ ap parse_int stamp ∙ first.parsed) in
      let drift : Drift now' first.ts (seconds v.skew) =
        subst (λ n. Drift now' first.ts (seconds n)) (skew ∙ skew0)
          (subst (λ x. Drift now' x (seconds v'.skew)) same_ts second.in_skew) in
      let e = nonce_expiry first.ts v.nonce_ttl in
      let kept : Kept p.signature e out.2.tables =
        subst (Kept p.signature e) (sym first.signed.recorded)
          (Kept-noted_self p.signature e db.tables) in
      let alive : leb_ℤ (pos now') e ≡ true =
        nonce_expiry-Drift now' first.ts v.skew v.nonce_ttl bound ttl small drift in
      let there =
        Reaches-Kept now out.1 out.2 p.signature e kept t v' db' r
          (leb_ℤ-earlier t now' e le alive) in
      let recorded : exists (has_signature p.signature) db'.tables.nonces ≡ true =
        exists-weaken (kept_until p.signature e) (has_signature p.signature) db'.tables.nonces
          (λ n k. ground arith) there in
      let fresh : exists (has_signature p.signature) db'.tables.nonces ≡ false =
        subst (λ x. exists (has_signature x) db'.tables.nonces ≡ false) sig second.signed.fresh in
      absurd (ground (arith, recorded, fresh))

-- ===== src/Auth/Verifier.antt =====
-- The verifier of the agents' requests (internal/auth/hmac.go) and the canonical request that is signed
-- (internal/shared/hmac.go). Cryptography is a parameter: how a sealed secret opens, the HMAC, and
-- the digest of the body.
pub mod Steps
pub mod Accept
pub mod Replay
use Prim.Native.String
use diyddns.Prelude.{
  ℕ, String, Bool, true, false, not, List, [], ◌∷◌, ◌++◌, Option, none, some, str_eq, if◌then◌else◌,
}
use diyddns.Prelude.Int.{ℤ}
use diyddns.Store.Db.{Error, not_found, conflict, driver, Result, ok, err, Db}
use diyddns.Store.Devices.Rows.{Device}
use diyddns.Store.Devices.Writes.{get_by_id}
use diyddns.Store.Users.{User, get_user_by_id}
use diyddns.Store.Nonces.{insert}
use diyddns.Auth.Timestamp.{parse_int, out_of_skew, nonce_expiry}

-- The reasons of a `rejection`, for the log only.
pub data Reason : Type 0 where
  unknown_device device_lookup_cancelled device_store_error device_disabled unknown_user
        user_lookup_cancelled user_store_error user_disabled bad_timestamp clock_skew
        secret_unavailable bad_signature replay nonce_store_error :
      Reason

pub record RequestParts : Type 0 where
  pub device : String
  pub timestamp : String
  pub nonce : String
  pub signature : String
  pub method : String
  pub path : String
  pub body : List ℕ

-- Whether the request's context is done at each of the two lookups.
pub record Context : Type 0 where
  pub done_at_device : Bool
  pub done_at_user : Bool

-- `ctx.Err() != nil`, the error, and the three reasons.
abbrev pub store_rejection : Bool → Error → Reason → Reason → Reason → Reason
store_rejection done not_found missing cancelled broken = missing
store_rejection done conflict missing cancelled broken = if done then cancelled else broken
store_rejection done driver missing cancelled broken = if done then cancelled else broken

pub data Verdict : Type 0 where
  accepted : String → Verdict
  rejected : Reason → Verdict

pub record Verifier (Key Secret : Type 0) : Type 0 where
  pub key : Key
  pub skew : ℕ
  pub nonce_ttl : ℕ
  pub cache : List (String × Secret)

-- `strings.Join`
abbrev join : String → List String → String
join sep [] = ""
join sep (x ∷ []) = x
join sep (x ∷ y ∷ xs) = String.◌++◌ x (String.◌++◌ sep (join sep (y ∷ xs)))

-- `METHOD\nPATH\nTIMESTAMP\nNONCE\nBODYHASH`
abbrev pub canonical_request : String → String → String → String → String → String
canonical_request method path timestamp nonce body_hash_hex =
    join "\n" (method ∷ path ∷ timestamp ∷ nonce ∷ body_hash_hex ∷ [])

abbrev cached {ℓ} : {A : Type ℓ} → String → List (String × A) → Option A
cached id [] = none
cached id ((k, s) ∷ m) = let rest = cached id m in if str_eq k id then some s else rest

-- `delete(v.cache, deviceID)`
abbrev evicted {ℓ} : {A : Type ℓ} → String → List (String × A) → List (String × A)
evicted id [] = []
evicted id ((k, s) ∷ m) = let rest = evicted id m in if str_eq k id then rest else (k, s) ∷ rest

unfoldable pub invalidate :
    {Key Secret : Type 0} → Verifier Key Secret → String → Verifier Key Secret
invalidate v device_id = record v { cache = evicted device_id v.cache }

module _ {Key Secret : Type 0} (open_secret : Key → String → Option Secret)
    (sign : Secret → String → String) (body_hash_hex : List ℕ → String) where
  abbrev pub Reply : Type 0
  Reply = Verdict × Verifier Key Secret × Db

  abbrev opened : Option Secret → Verifier Key Secret → String → Option Secret × Verifier Key Secret
  opened none v id = (none, v)
  opened (some secret) v id = (some secret, record v { cache = (id, secret) ∷ v.cache })

  -- `secretFor`
  unfoldable pub secret_for : Verifier Key Secret → Device → Option Secret × Verifier Key Secret
  secret_for v dev = elim (cached dev.id v.cache) [
    | some secret ↦ (some secret, v)
    | none ↦ opened (open_secret v.key dev.secret_hash) v dev.id
  ]

  abbrev pub expected : Secret → RequestParts → String
  expected secret p =
      sign secret (canonical_request p.method p.path p.timestamp p.nonce (body_hash_hex p.body))

  -- The last step: recording the signature.
  abbrev record_signature : String → Result (Unit {0}) → Verdict
  record_signature id (ok _) = accepted id
  record_signature id (err conflict) = rejected replay
  record_signature id (err not_found) = rejected nonce_store_error
  record_signature id (err driver) = rejected nonce_store_error

  abbrev check_signature :
      Option Secret → RequestParts → Device → ℤ → Verifier Key Secret → Db → Reply
  check_signature none p dev ts v db = (rejected secret_unavailable, v, db)
  check_signature (some secret) p dev ts v db =
      if not (str_eq (expected secret p) p.signature)
      then (rejected bad_signature, v, db)
      else let (r, db') = insert p.signature (nonce_expiry ts v.nonce_ttl) db in
        (record_signature dev.id r, v, db')

  abbrev check_timestamp : Option ℤ → RequestParts → ℕ → Device → Verifier Key Secret → Db → Reply
  check_timestamp none p now dev v db = (rejected bad_timestamp, v, db)
  check_timestamp (some ts) p now dev v db =
      if out_of_skew now ts v.skew
      then (rejected clock_skew, v, db)
      else let (s, v') = secret_for v dev in check_signature s p dev ts v' db

  abbrev check_user :
      Result User → RequestParts → Context → ℕ → Device → Verifier Key Secret → Db → Reply
  check_user (err e) p ctx now dev v db = (
    rejected
        (store_rejection ctx.done_at_user e unknown_user user_lookup_cancelled user_store_error),
    v,
    db,
  )
  check_user (ok usr) p ctx now dev v db =
      if usr.disabled
      then (rejected user_disabled, v, db)
      else check_timestamp (parse_int p.timestamp) p now dev v db

  abbrev check_device :
      Result Device → RequestParts → Context → ℕ → Verifier Key Secret → Db → Reply
  check_device (err e) p ctx now v db = (
    rejected (
        store_rejection ctx.done_at_device e unknown_device device_lookup_cancelled
          device_store_error),
    v,
    db,
  )
  check_device (ok dev) p ctx now v db =
      if dev.disabled
      then (rejected device_disabled, v, db)
      else let (usr, db') = get_user_by_id dev.user_id db in check_user usr p ctx now dev v db'

  -- `Verify`
  unfoldable pub verify : RequestParts → Context → ℕ → Verifier Key Secret → Db → Reply
  verify p ctx now v db = let (dev, db') = get_by_id p.device db in check_device dev p ctx now v db'

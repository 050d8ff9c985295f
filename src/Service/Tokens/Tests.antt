-- ===== src/Service/Tokens/Tests.antt =====
-- Instances of what is proved of the feed tokens.
use Prim.Native.String
use diyddns.Prelude.{ℕ, suc, String, ◌≡◌, ◌≢◌, refl, [], some, eq_iff, arith}
use diyddns.Store.Db.{statement, now_unix}
use diyddns.Store.Samples.{calm}
use diyddns.Store.Tokens.{
  FeedToken, create_feed_token, get_token_by_hash, delete_feed_token, touch_feed_token,
}
use diyddns.Store.Audit.{log, append_audit}
use diyddns.Service.Credentials.{good, bad, malformed, invalid_label}
use diyddns.Service.Tokens.{FeedService, mint_token, revoke_token, authenticate_token}
use diyddns.Service.Tokens.Roundtrip.{mint_token-authenticate}
use diyddns.Service.Tokens.Reaches.{minting, then_step, here, revoke_token-Reaches}

abbrev marked : String → String
marked text = String.◌++◌ "#" text

abbrev no_details : String → String
no_details label = ""

-- A closer that counts its calls.
abbrev counting : String → ℕ → ℕ
counting id n = suc n

abbrev start : FeedService ℕ
start = record { last_touch = λ id. 0; streams = 0; db = calm }

abbrev envoy : FeedToken
envoy = record {
  id = "t1";
  label = "envoy";
  token_hash = "#ddf_r";
  created_by = "u1";
  created_at = 2000;
  last_used_at = 0;
}

abbrev minted_service : FeedService ℕ
minted_service = (mint_token ℕ marked no_details counting "t1" (some "r") "u1" " envoy\n" start).1

mints :
    (mint_token ℕ marked no_details counting "t1" (some "r") "u1" " envoy\n" start).0
    ≡ good (envoy, "ddf_r")
unfolding mint_token create_feed_token log append_audit statement now_unix
mints = refl

no_label :
    (mint_token ℕ marked no_details counting "t1" (some "r") "u1" " \t" start).0 ≡ bad invalid_label
unfolding mint_token create_feed_token log append_audit statement now_unix
no_label = refl

no_prefix :
    (authenticate_token ℕ marked no_details counting "dak_r" minted_service).0 ≡ bad malformed
unfolding authenticate_token
no_prefix = refl

calm_after : minted_service.db.weather ≡ []
unfolding mint_token create_feed_token log append_audit statement now_unix
calm_after = refl

mint_token-authenticate_example :
    (last : ℕ) × ((authenticate_token ℕ marked no_details counting "ddf_r" minted_service).0
      ≡ good (record envoy { last_used_at = last }))
mint_token-authenticate_example =
    mint_token-authenticate ℕ marked no_details counting "t1" (some "r") "u1" " envoy\n" "ddf_r"
      start envoy mints calm_after

abbrev revoked_service : FeedService ℕ
revoked_service = (revoke_token ℕ marked no_details counting "u1" "t1" minted_service).1

revokes : (revoke_token ℕ marked no_details counting "u1" "t1" minted_service).0 ≡ good tt
unfolding revoke_token mint_token create_feed_token delete_feed_token log append_audit statement
    now_unix
revokes = refl

abbrev again : FeedService ℕ
again = (mint_token ℕ marked no_details counting "t2" (some "s") "u1" "envoy" revoked_service).1

abbrev second : FeedToken
second = record envoy { id = "t2"; token_hash = "#ddf_s"; last_used_at = 2000 }

authenticates : (authenticate_token ℕ marked no_details counting "ddf_s" again).0 ≡ good second
unfolding revoke_token mint_token create_feed_token delete_feed_token authenticate_token
    get_token_by_hash touch_feed_token log append_audit statement now_unix
authenticates = refl

abbrev second_id : String
second_id = "t2"

other : second_id ≢ "t1"
other e = absurd (ground (arith, (eq_iff second_id "t1").1 e))

revoke_token-Reaches_example : second.id ≢ "t1"
revoke_token-Reaches_example =
    revoke_token-Reaches ℕ marked no_details counting "u1" "t1" "ddf_s" minted_service again second
      revokes
      (then_step revoked_service revoked_service again (here revoked_service)
        (minting revoked_service "t2" (some "s") "u1" "envoy" other))
      authenticates

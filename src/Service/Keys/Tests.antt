-- ===== src/Service/Keys/Tests.antt =====
-- Instances of what is proved of the API keys.
use Prim.Native.String
use diyddns.Prelude.{String, ◌≡◌, false, refl, some}
use diyddns.Store.Db.{not_found, statement, now_unix}
use diyddns.Store.Samples.{calm}
use diyddns.Store.Keys.{
  ApiKey, create_api_key, get_key_by_hash, get_key_by_id, delete_api_key, touch_api_key,
}
use diyddns.Store.Audit.{log, append_audit}
use diyddns.Service.Credentials.{good, bad, stored}
use diyddns.Service.Keys.{ApiKeyService, owned_key, mint_key, revoke_key, authenticate_key}
use diyddns.Service.Keys.Revoked.{Revoked, revoke_key-Revoked}
use diyddns.Service.Keys.Unscoped.{Unscoped, here, then_step, minting, authenticate_key-Reaches}

abbrev marked : String → String
marked text = String.◌++◌ "#" text

abbrev no_details : String → String
no_details label = ""

abbrev start : ApiKeyService
start = record { last_touch = λ id. 0; db = calm }

abbrev keyed : ApiKeyService
keyed = (mint_key marked no_details "k1" (some "r") "u1" "laptop" start).1

abbrev laptop : ApiKey
laptop = record {
  id = "k1";
  user_id = "u1";
  label = "laptop";
  key_hash = "#dak_r";
  admin_scope = false;
  created_at = 2000;
  last_used_at = 2000;
}

others_key : (revoke_key "u2" "k1" keyed).0 ≡ bad (stored not_found)
unfolding revoke_key owned_key get_key_by_id mint_key create_api_key log append_audit statement
    now_unix
others_key = refl

own_key : (revoke_key "u1" "k1" keyed).0 ≡ good tt
unfolding revoke_key owned_key get_key_by_id delete_api_key mint_key create_api_key log append_audit
    statement now_unix
own_key = refl

revoke_key-Revoked_example : Revoked "u1" "k1" keyed (revoke_key "u1" "k1" keyed)
revoke_key-Revoked_example = revoke_key-Revoked "u1" "k1" keyed

authenticates : (authenticate_key marked no_details "dak_r" keyed).0 ≡ good laptop
unfolding authenticate_key get_key_by_hash touch_api_key mint_key create_api_key log append_audit
    statement now_unix
authenticates = refl

authenticate_key-Reaches_example : Unscoped keyed.db × (laptop.admin_scope ≡ false)
authenticate_key-Reaches_example =
    authenticate_key-Reaches marked no_details start keyed "dak_r" laptop tt
      (then_step start start keyed (here start) (minting start "k1" (some "r") "u1" "laptop"))
      authenticates

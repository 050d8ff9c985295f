-- ===== src/Auth/Session/Tests.antt =====
-- A session, and instances of what is proved of it.
use diyddns.Prelude.{◌≡◌, refl, [], ◌∷◌, none, false, arith}
use diyddns.Store.Db.{SessionRow, Db, Tables, statement}
use diyddns.Store.Samples.{calm, tables}
use diyddns.Store.Users.{get_user_by_id}
use diyddns.Store.Sessions.{Session, get_session}
use diyddns.Auth.Session.{SessionManager, denied, session_expired, authenticate, valid_csrf}
use diyddns.Auth.Session.Contract.{Decided}
use diyddns.Auth.Session.Valid.{authenticate-Decided}
use diyddns.Auth.Session.Alive.{Alive}

-- A TTL of a day and a slide of an hour.
abbrev manager : SessionManager
manager = record { ttl = 86400000000000; slide = 3600000000000 }

abbrev signed_in : SessionRow
signed_in = record {
  id = "s1";
  user_id = "u1";
  csrf_token = "t1";
  ip = none;
  user_agent = none;
  created_at = 1000;
  last_seen_at = 1000;
  expires_at = 87400;
}

abbrev with_session : Tables
with_session = record tables { sessions = signed_in ∷ [] }

abbrev in_use : Db
in_use = record calm { tables = with_session }

late-denied :
    (authenticate manager false false "s1" (record in_use { clock = 87400 })).0
    ≡ denied session_expired
unfolding authenticate get_session get_user_by_id statement
late-denied = refl

no_csrf : (s : Session) → s.csrf_token ≡ "" → valid_csrf s "" ≡ false
unfolding valid_csrf
no_csrf s h = ground arith

-- An hour after it was last seen the session slides: the read of the account takes a second.
abbrev later : Db
later = record in_use {
  clock = 4600;
  weather = record { elapsed = 0; fails = false } ∷ record { elapsed = 1; fails = false } ∷ [];
}

authenticate-Decided_example :
    Decided manager "s1" false false later (authenticate manager false false "s1" later)
authenticate-Decided_example = authenticate-Decided manager "s1" false false later

abbrev made : Session
made = record {
  id = "s2";
  user_id = "u1";
  csrf_token = "t2";
  ip = "";
  user_agent = "";
  created_at = 2000;
  last_seen_at = 2000;
  expires_at = 88400;
}

-- ===== src/Auth/Session/Created.antt =====
-- A new session is alive (internal/auth/session.go).
use diyddns.Prelude.{ℕ, ◌+◌, String, str_eq, ◌==◌, if◌then◌else◌}
use diyddns.Store.Db.{Db}
use diyddns.Store.Sessions.{Session}
use diyddns.Auth.Timestamp.{seconds}
use diyddns.Auth.Session.{SessionManager}
use diyddns.Auth.Session.Alive.{Alive}

-- The session that `Create` inserts at `now`.
abbrev new_session : SessionManager → String → String → String → String → String → ℕ → Session
new_session m id csrf user_id ip user_agent now = record {
  id = id;
  user_id = user_id;
  csrf_token = csrf;
  ip = ip;
  user_agent = user_agent;
  created_at = now;
  last_seen_at = now;
  expires_at = now + seconds m.ttl;
}

-- What `Create` of the store makes of its argument.
abbrev stamped : String → ℕ → Session → Session
stamped new_id now s = record s {
  id = if str_eq s.id "" then new_id else s.id;
  created_at = now;
  last_seen_at = if s.last_seen_at == 0 then now else s.last_seen_at;
}

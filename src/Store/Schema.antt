-- ===== src/Store/Schema.antt =====
-- The tables of migrations/ as lists of rows. A nullable column is an `Option`, and instants are unix
-- seconds.
use diyddns.Prelude.{ℕ, String, Bool, List, Option}
use diyddns.Prelude.Int.{ℤ}

pub record UserRow : Type 0 where
  pub id : String
  pub email : String
  pub role : String
  pub oidc_provider : Option String
  pub oidc_subject : Option String
  pub disabled : Bool
  pub created_at : ℕ
  pub updated_at : ℕ
  pub pending_email : Option String
  pub pending_email_token_hash : Option String
  pub pending_email_expires_at : Option ℕ

pub record SessionRow : Type 0 where
  pub id : String
  pub user_id : String
  pub csrf_token : String
  pub ip : Option String
  pub user_agent : Option String
  pub created_at : ℕ
  pub last_seen_at : ℕ
  pub expires_at : ℕ

pub record CodeRow : Type 0 where
  pub code : String
  pub user_id : String
  pub label : String
  pub expires_at : ℕ
  pub used_at : Option ℕ
  pub device_id : Option String

pub record RecoveryRow : Type 0 where
  pub token_hash : String
  pub user_id : String
  pub reason : String
  pub expires_at : ℕ
  pub used_at : Option ℕ

-- The row of id 1.
pub record BootstrapRow : Type 0 where
  pub token_hash : Option String
  pub created_at : ℕ
  pub consumed_at : Option ℕ

pub record FeedTokenRow : Type 0 where
  pub id : String
  pub label : String
  pub token_hash : String
  pub created_by : Option String
  pub created_at : ℕ
  pub last_used_at : Option ℕ

pub record ApiKeyRow : Type 0 where
  pub id : String
  pub user_id : String
  pub label : String
  pub key_hash : String
  pub admin_scope : Bool
  pub created_at : ℕ
  pub last_used_at : Option ℕ

pub record AuditRow : Type 0 where
  pub id : ℕ
  pub actor_user_id : Option String
  pub event_type : String
  pub target_type : Option String
  pub target_id : Option String
  pub details_json : Option String
  pub ip : Option String
  pub user_agent : Option String
  pub created_at : ℕ

pub record DeviceRow : Type 0 where
  pub id : String
  pub user_id : String
  pub label : String
  pub secret_hash : String
  pub current_ipv4 : Option String
  pub current_ipv6 : Option String
  pub hostname : Option String
  pub os : Option String
  pub client_version : Option String
  pub last_seen_at : Option ℕ
  pub disabled : Bool
  pub created_at : ℕ
  pub updated_at : ℕ
  pub v4_confirmed_at : Option ℕ
  pub v6_confirmed_at : Option ℕ
  pub v4_warn_level : ℕ
  pub v6_warn_level : ℕ

pub record HistoryRow : Type 0 where
  pub id : ℕ
  pub device_id : String
  pub ipv4 : Option String
  pub ipv6 : Option String
  pub observed_at : ℕ
  pub client_version : Option String

pub record Nonce : Type 0 where
  pub signature : String
  pub expires_at : ℤ

pub record EndpointRow : Type 0 where
  pub id : String
  pub label : String
  pub url : String
  pub secret_sealed : String
  pub enabled : Bool
  pub created_at : ℕ
  pub updated_at : ℕ

-- `DeliveryPending`, `DeliveryDelivered`, `DeliveryFailed`
pub data Status : Type 0 where
  pending delivered failed : Status

-- The failure classes of internal/server/notify/worker.go.
pub data Failure : Type 0 where
  blocked unreachable tls rejected gone internal : Failure

pub record DeliveryRow : Type 0 where
  pub id : ℕ
  pub endpoint_id : String
  pub event_type : String
  pub event_id : ℕ
  pub payload : String
  pub attempts : ℕ
  pub next_attempt_at : Option ℕ
  pub status : Status
  pub last_failure : Option Failure
  pub created_at : ℕ
  pub updated_at : ℕ

-- `history_seq`, `delivery_seq` and `audit_seq` are the largest ids that AUTOINCREMENT has given out.
pub record Tables : Type 0 where
  pub users : List UserRow
  pub sessions : List SessionRow
  pub codes : List CodeRow
  pub recoveries : List RecoveryRow
  pub bootstrap : Option BootstrapRow
  pub feed_tokens : List FeedTokenRow
  pub api_keys : List ApiKeyRow
  pub audit : List AuditRow
  pub audit_seq : ℕ
  pub devices : List DeviceRow
  pub history : List HistoryRow
  pub history_seq : ℕ
  pub nonces : List Nonce
  pub feed_seq : ℕ
  pub feed_changed_at : ℕ
  pub endpoints : List EndpointRow
  pub deliveries : List DeliveryRow
  pub delivery_seq : ℕ

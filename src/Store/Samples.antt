-- ===== src/Store/Samples.antt =====
-- A database with one user and one device, for the tests.
use diyddns.Prelude.{true, false, [], ◌∷◌, none, some}
use diyddns.Store.Db.{UserRow, DeviceRow, EndpointRow, DeliveryRow, pending, rejected, Tables, Db}

abbrev pub ann : UserRow
ann = record {
  id = "u1";
  email = "ann@example.com";
  role = "user";
  oidc_provider = none;
  oidc_subject = none;
  disabled = false;
  created_at = 700;
  updated_at = 700;
  pending_email = none;
  pending_email_token_hash = none;
  pending_email_expires_at = none;
}

abbrev pub nas : DeviceRow
nas = record {
  id = "d1";
  user_id = "u1";
  label = "nas";
  secret_hash = "sealed";
  current_ipv4 = some "192.0.2.1";
  current_ipv6 = some "2001:db8::1";
  hostname = none;
  os = none;
  client_version = none;
  last_seen_at = some 1000;
  disabled = false;
  created_at = 900;
  updated_at = 1000;
  v4_confirmed_at = some 1000;
  v6_confirmed_at = some 950;
  v4_warn_level = 1;
  v6_warn_level = 2;
}

abbrev pub hook : EndpointRow
hook = record {
  id = "e1";
  label = "gateway";
  url = "https://gw.example.com/hook";
  secret_sealed = "sealed";
  enabled = true;
  created_at = 800;
  updated_at = 800;
}

abbrev pub event : DeliveryRow
event = record {
  id = 3;
  endpoint_id = "e1";
  event_type = "device.ip_changed";
  event_id = 4;
  payload = "{}";
  attempts = 1;
  next_attempt_at = some 1500;
  status = pending;
  last_failure = some rejected;
  created_at = 1400;
  updated_at = 1450;
}

abbrev pub tables : Tables
tables = record {
  users = ann ∷ [];
  sessions = [];
  codes = [];
  recoveries = [];
  bootstrap = none;
  feed_tokens = [];
  api_keys = [];
  audit = [];
  audit_seq = 0;
  devices = nas ∷ [];
  history = [];
  history_seq = 4;
  nonces = [];
  feed_seq = 8;
  feed_changed_at = 1000;
  endpoints = hook ∷ [];
  deliveries = event ∷ [];
  delivery_seq = 3;
}

abbrev pub calm : Db
calm = record { tables = tables; clock = 2000; weather = [] }

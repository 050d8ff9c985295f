-- ===== src/Lib.antt =====
-- DIYDDNS: a self-hosted tracker of public addresses. A client agent discovers its own address by a
-- quorum of providers and checks in with a server, which keeps the addresses of each device in SQLite,
-- warns the owner of an address that is no longer confirmed, and removes it from its feed.
--
-- The files and what they model:
-- - Prelude: shared names, Boolean tests, lists over the native numbers, signed differences.
-- - Store/Schema: the tables of migrations/ as lists of rows. Store/Db: SQL statements as a state
--   monad. A statement takes its turn in a list of `Weather`, which says how much time passes and
--   whether the driver fails it; transactions restore the tables on every error. Store/Db/Instants reads
--   off that list the clock after so many statements, and Store/Db/Calm what succeeds when none fails.
--   Store/Devices, Store/History and Store/Checkin are internal/store/devices.go, ip_history.go and
--   checkin.go.
-- - Store/Users, Store/Sessions, Store/Codes, Store/Recovery and Store/Audit: the files users.go,
--   sessions.go, enrollment_codes.go, account_recovery.go with bootstrap.go, and audit_log.go of
--   internal/store.
-- - Service/Checkin: internal/server/service/checkin.go, over the store. Service/Enrollment:
--   enrollment.go; what GenerateSecret and SealSecret return is an argument. Service/Membership and
--   Service/Devices: the membership of the feed in feed.go, and device.go; a call returns the events
--   that it fires, and what the notifier does with one is a parameter. Service/Admin: the writes of
--   accounts in admin.go, with their guards.
-- - Auth/Session: internal/auth/session.go and csrf.go, over Store/Sessions, with Auth/Session/Contract
--   for what an admission and each refusal mean.
-- - Auth/Timestamp and Auth/Verifier: internal/auth/hmac.go and the canonical request of
--   internal/shared/hmac.go, over Store/Nonces (internal/store/replay_nonces.go). The cipher, the HMAC
--   and the digest are parameters.
-- - Client/Discovery: internal/client/ipdiscovery/discover.go. Client/Poller:
--   internal/client/poller/poller.go.
-- - Store/Tokens and Store/Keys: internal/store/feed_tokens.go and api_keys.go. Service/Tokens and
--   Service/Keys: the FeedService of internal/server/service/feed.go and apikeys.go, with
--   Service/Credentials for what they share; the hash of a plaintext and the JSON of the audit
--   details are parameters, and so is what closes the streams of a token.
-- - Feed/Hub: internal/server/feed/hub.go as a state machine whose steps are whole calls, with the
--   pump's reads. Feed/Stream: the admission of a stream in internal/server/feed/stream.go, over
--   Service/Tokens and the hub.
-- - Stale/Window: internal/server/stale/window.go and the recipients of notice.go.
-- - Server/Fanout: ExpireAddresses of internal/server/fanout.go. Server/Notices and Server/Sweep:
--   internal/server/sweep.go and internal/server/stale/dispatch.go, over the store; Server/Sweep/Keep
--   and its neighbours say what a tick does to the rows. Server/Pruner: the tick of
--   internal/server/pruner.go, over Store/History/Prune (the reads and Prune of ip_history.go) and the
--   other stores.
-- - Notify/Worker: internal/server/notify/worker.go over the outbox of Store/Notifications
--   (internal/store/notifications.go). Notify/Policy: internal/server/notify/policy.go.
--
-- Numbers: instants and durations are natural numbers, an elapsed time is a signed integer of
-- Prelude/Int, and the doubling of the client's backoff is an int64 bit pattern with its wrap-around; a
-- request's timestamp is a signed integer, and what is computed of it wraps around as int64 does. A
-- nullable column is an `Option`. Loops run over lists, but for the pruner's drains, which are on fuel,
-- with bounds that are enough. The jitter of a backoff is a float computation and a parameter.
--
-- Not modelled: HTTP, the web UI, logging, telemetry, the SQLite driver beyond the effect of each
-- statement, and cryptography.
pub mod Prelude
pub mod Store
pub mod Service
pub mod Auth
pub mod Client
pub mod Stale
pub mod Server
pub mod Notify
pub mod Feed

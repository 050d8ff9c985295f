-- ===== src/Server/Fanout.antt =====
-- The expiry of addresses and its event (internal/server/fanout.go). An event is rendered from texts and
-- numbers, which does not fail; the outbox and the hub take it as it is.
use diyddns.Prelude.{ℕ, Bool, true, false, if◌then◌else◌, none, some, List, [], ◌∷◌}
use diyddns.Store.Db.{ok, Sql, pure, now_unix, ◌>>=◌}
use diyddns.Store.Devices.Rows.{Device}
use diyddns.Store.Devices.Expiry.{expire_families}
use diyddns.Store.Feed.{bump}
use diyddns.Service.Checkin.{IpChangeEvent}

-- The confirmations that the sweep read.
pub record Confirmed : Type 0 where
  pub v4 : ℕ
  pub v6 : ℕ

-- The device with the due families emptied.
abbrev pub emptied : Device → Bool → Bool → Device
emptied d v4_due v6_due = record d {
  current_ipv4 = if v4_due then "" else d.current_ipv4;
  current_ipv6 = if v6_due then "" else d.current_ipv6;
}

-- After the write: the bump, whose failure is only logged, and the event that is dispatched.
unfoldable pub expired_event : Device → Bool → Bool → ℕ → ℕ → Sql (Bool × List IpChangeEvent)
expired_event d v4_due v6_due now history_id db =
    let after = emptied d v4_due v6_due in
    let (_, db') = bump now db in
    (
      ok (
        true,
        record {
          event_id = history_id;
          occurred_at = now;
          device = after;
          prev_ipv4 = d.current_ipv4;
          prev_ipv6 = d.current_ipv6;
          curr_ipv4 = after.current_ipv4;
          curr_ipv6 = after.current_ipv6;
        }
            ∷ [],
      ),
      db',
    )

-- `ExpireAddresses`: whether a row changed, and the events that were dispatched.
unfoldable pub expire_addresses : Device → Bool → Bool → Confirmed → Sql (Bool × List IpChangeEvent)
unfolding expired_event
expire_addresses d v4_due v6_due pin = do
  now ← now_unix
  history_id ← expire_families d.id v4_due v6_due pin.v4 pin.v6 now
  elim history_id [ none ↦ pure (false, []) | some n ↦ expired_event d v4_due v6_due now n ]

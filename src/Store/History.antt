-- ===== src/Store/History.antt =====
-- The ip_history table (internal/store/ip_history.go).
pub mod Laws
pub mod Prune
use diyddns.Prelude.{ℕ, suc, String, [], ◌∷◌, ◌++◌, ◌==◌, if◌then◌else◌, exists}
use diyddns.Store.Db.{
  Result, ok, err, driver, has_id, HistoryRow, Tables, Sql, statement, now_unix, ◌>>=◌,
  null_if_empty, scan_string,
}

pub record IpHistory : Type 0 where
  pub id : ℕ
  pub device_id : String
  pub ipv4 : String
  pub ipv6 : String
  pub observed_at : ℕ
  pub client_version : String

unfoldable pub scan_ip_history : HistoryRow → IpHistory
scan_ip_history r = record {
  id = r.id;
  device_id = r.device_id;
  ipv4 = scan_string r.ipv4;
  ipv6 = scan_string r.ipv6;
  observed_at = r.observed_at;
  client_version = scan_string r.client_version;
}

-- The INSERT: the foreign key wants the device, and AUTOINCREMENT gives an id above every id that was
-- ever given.
unfoldable pub insert_history : IpHistory → Tables → Result IpHistory × Tables
insert_history h t =
    let id = suc t.history_seq in
    let row : HistoryRow = record {
      id = id;
      device_id = h.device_id;
      ipv4 = null_if_empty h.ipv4;
      ipv6 = null_if_empty h.ipv6;
      observed_at = h.observed_at;
      client_version = null_if_empty h.client_version;
    } in
    if exists (has_id h.device_id) t.devices
    then (ok (record h { id = id }), record t { history = t.history ++ row ∷ []; history_seq = id })
    else (err driver, t)

-- `appendIPHistory`
unfoldable pub append_ip_history : IpHistory → Sql IpHistory
unfolding insert_history
append_ip_history h = do
  now ← now_unix
  let at = if h.observed_at == 0 then now else h.observed_at
  statement (insert_history (record h { observed_at = at }))

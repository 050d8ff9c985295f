-- ===== src/Store/History/Laws.antt =====
-- What an INSERT into ip_history does (internal/store/ip_history.go).
use diyddns.Prelude.{ℕ, suc, ◌<◌, ◌≡◌, [], ◌∷◌, ◌++◌, arith}
use diyddns.Store.Db.{ok, HistoryRow, Tables, Db, null_if_empty, now_unix}
use diyddns.Store.Db.Laws.{statement_ok}
use diyddns.Store.History.{IpHistory, insert_history, append_ip_history}

abbrev pub row_of : IpHistory → ℕ → HistoryRow
row_of h id = record {
  id = id;
  device_id = h.device_id;
  ipv4 = null_if_empty h.ipv4;
  ipv6 = null_if_empty h.ipv6;
  observed_at = h.observed_at;
  client_version = null_if_empty h.client_version;
}

abbrev pub appended : IpHistory → Tables → Tables
appended h t = record t {
  history = t.history ++ row_of h (suc t.history_seq) ∷ [];
  history_seq = suc t.history_seq;
}

-- An entry that carries its instant is appended under a new id.
pub append_ip_history_ok :
    (h : IpHistory) (db : Db) (row : IpHistory)
    → 0 < h.observed_at
    → (append_ip_history h db).0 ≡ ok row
    → (row ≡ record h { id = suc db.tables.history_seq })
      × ((append_ip_history h db).1.tables ≡ appended h db.tables)
unfolding append_ip_history now_unix
append_ip_history_ok h db row p e = ground (arith, statement_ok (insert_history h) db row)

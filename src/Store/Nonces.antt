-- ===== src/Store/Nonces.antt =====
-- The signatures that were seen (internal/store/replay_nonces.go).
pub mod Laws
use diyddns.Prelude.{
  ℕ, String, Bool, not, List, [], ◌∷◌, ◌++◌, str_eq, if◌then◌else◌, find_where, exists, select,
  length,
}
use diyddns.Prelude.Int.{ℤ, pos, ltb_ℤ}
use diyddns.Store.Db.{conflict, Result, ok, err, Nonce, Tables, Sql, statement}
use diyddns.Store.Devices.Writes.{found}

abbrev pub has_signature : String → Nonce → Bool
has_signature signature n = str_eq n.signature signature

abbrev pub record_nonce : String → ℤ → Tables → Result (Unit {0}) × Tables
record_nonce signature expires_at t =
    if exists (has_signature signature) t.nonces then (err conflict, t) else (
      ok tt,
      record t {
        nonces = t.nonces ++ record { signature = signature; expires_at = expires_at } ∷ [];
      },
    )

unfoldable pub insert : String → ℤ → Sql (Unit {0})
insert signature expires_at = statement (record_nonce signature expires_at)

abbrev pub is_expired : ℕ → Nonce → Bool
is_expired now n = ltb_ℤ n.expires_at (pos now)

-- `PruneExpired`: the number of rows deleted.
unfoldable pub prune_expired : ℕ → Sql ℕ
prune_expired now = statement λ t. (
  ok (length (select (is_expired now) t.nonces)),
  record t { nonces = select (λ n. not (is_expired now n)) t.nonces },
)

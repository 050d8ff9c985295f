-- ===== src/Store/Nonces/Laws.antt =====
-- What the INSERT leaves behind (internal/store/replay_nonces.go).
use diyddns.Prelude.{◌≡◌, ◌⊎◌, ◌++◌, [], ◌∷◌, false, true, String, exists, arith}
use diyddns.Prelude.Int.{ℤ}
use diyddns.Store.Db.{Error, ok, err, Tables, Db}
use diyddns.Store.Db.Laws.{statement_cases}
use diyddns.Store.Nonces.{has_signature, record_nonce, insert}

abbrev pub noted : String → ℤ → Tables → Tables
noted signature expires_at t = record t {
  nonces = t.nonces ++ record { signature = signature; expires_at = expires_at } ∷ [];
}

-- An INSERT records a signature that was not recorded, or changes no table.
pub insert_cases :
    (signature : String) (expires_at : ℤ) (db : Db)
    → ((insert signature expires_at db).0 ≡ ok tt)
        × (exists (has_signature signature) db.tables.nonces ≡ false)
        × ((insert signature expires_at db).1.tables ≡ noted signature expires_at db.tables)
      ⊎ (e : Error) × ((insert signature expires_at db).0 ≡ err e)
        × ((insert signature expires_at db).1.tables ≡ db.tables)
unfolding insert
insert_cases signature expires_at db =
    ground (arith, statement_cases {0} (record_nonce signature expires_at) db)

pub insert_twice :
    (signature : String) (expires_at : ℤ) (db : Db)
    → exists (has_signature signature) db.tables.nonces ≡ true
    → (e : Error) × ((insert signature expires_at db).0 ≡ err e)
insert_twice signature expires_at db h = ground (arith, insert_cases signature expires_at db)

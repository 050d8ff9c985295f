-- ===== src/Store/History/Prune/Newest.antt =====
-- Pruning leaves the newest entry of every device (internal/store/ip_history.go).
use diyddns.Prelude.{
  ℕ, zero, suc, ◌≤◌, String, Bool, true, false, ◌&&◌, ◌≡◌, refl, sym, subst, ◌∙◌, List, [], ◌∷◌,
  ◌==◌, eq_iff, Bool-cases, inl, inr, select, drop_first, exists, arith,
}
use diyddns.Prelude.Int.{ℤ}
use diyddns.Store.Db.{HistoryRow, Tables}
use diyddns.Store.History.Prune.{of_device, max_id, history_prunable, pruned_history}

-- The entry of a device and an id.
abbrev pub is_entry : String → ℕ → HistoryRow → Bool
is_entry device_id id r = of_device device_id r && r.id == id

-- The newest entry of a device has this id.
abbrev pub Newest : String → ℕ → Tables → Type 0
Newest device_id id t =
    (exists (is_entry device_id id) t.history ≡ true)
    × (max_id (select (of_device device_id) t.history) ≡ id)

-- The newest entry of every device stays, and stays the newest.
abbrev pub KeepsNewest : Tables → Tables → Type 0
KeepsNewest t t' = (device_id : String) (id : ℕ) → Newest device_id id t → Newest device_id id t'

pub same_newest : (t : Tables) → KeepsNewest t t
same_newest t device_id id h = h

pub newest_trans : (a b c : Tables) → KeepsNewest a b → KeepsNewest b c → KeepsNewest a c
newest_trans a b c f g device_id id h = g device_id id (f device_id id h)

exists-drop_first :
    (p q : HistoryRow → Bool) (batch : ℕ) (rows : List HistoryRow)
    → ((r : HistoryRow) → q r ≡ true → p r ≡ false)
    → exists q (drop_first p batch rows) ≡ exists q rows
exists-drop_first p q batch [] h = refl
exists-drop_first p q zero (r ∷ rows) h = refl
exists-drop_first p q (suc batch) (r ∷ rows) h =
    ground
      (arith, h r, exists-drop_first p q batch rows h, exists-drop_first p q (suc batch) rows h)

-- The maximum of fewer rows is no larger.
max_id-drop_first :
    (device_id : String) (p : HistoryRow → Bool) (batch : ℕ) (rows : List HistoryRow)
    → max_id (select (of_device device_id) (drop_first p batch rows))
      ≤ max_id (select (of_device device_id) rows)
max_id-drop_first device_id p batch [] = omega arith
max_id-drop_first device_id p zero (r ∷ rows) = omega arith
max_id-drop_first device_id p (suc batch) (r ∷ rows) = ground (
  arith,
  max_id-drop_first device_id p batch rows,
  max_id-drop_first device_id p (suc batch) rows,
)

-- It is no smaller than the id of a row.
max_id-exists :
    (device_id : String) (id : ℕ) (rows : List HistoryRow)
    → exists (is_entry device_id id) rows ≡ true
    → id ≤ max_id (select (of_device device_id) rows)
max_id-exists device_id id [] h = absurd (ground arith)
max_id-exists device_id id (r ∷ rows) h = ground (arith, max_id-exists device_id id rows)

module _ (device_id : String) (older_than : ℤ) (cap batch : ℕ) where
  -- One batch of `Prune` keeps the newest entries.
  pub pruned_history-KeepsNewest :
      (t : Tables) → KeepsNewest t (pruned_history device_id older_than cap batch t).1
  pruned_history-KeepsNewest t other id (present, is_max) =
      let p : HistoryRow → Bool = history_prunable device_id older_than cap t.history in
      let still =
        exists-drop_first p (is_entry other id) batch t.history (spared t other id is_max)
        ∙ present in
      let upper = max_id-drop_first other p batch t.history in
      let lower = max_id-exists other id (drop_first p batch t.history) still in
      (still, omega (arith, upper, lower, is_max))
    where
      spared :
          (t : Tables) (other : String) (id : ℕ)
          → max_id (select (of_device other) t.history) ≡ id
          → (r : HistoryRow) → is_entry other id r ≡ true
          → history_prunable device_id older_than cap t.history r ≡ false
      spared t other id is_max r e = elim (Bool-cases (of_device device_id r)) [
        | inl own ↦
            let here : r.device_id ≡ other = (eq_iff r.device_id other).0 (ground arith) in
            let same : other ≡ device_id = sym here ∙ (eq_iff r.device_id device_id).0 own in
            let top : max_id (select (of_device device_id) t.history) ≡ id =
              subst (λ d. max_id (select (of_device d) t.history) ≡ id) same is_max in
            ground arith
        | inr own ↦ ground arith
      ]

-- ===== src/Store/Codes/Once.antt =====
-- A code that is used stays used (internal/store/enrollment_codes.go).
use diyddns.Prelude.{
  ℕ, ◌≤◌, String, true, false, not, ◌≡◌, ◌≢◌, inl, inr, refl, sym, subst, List, [], ◌∷◌, str_eq,
  eq_iff, exists, select, update_where, length, All, All-append, All-select, All-update_where,
  All-map, arith, if◌then◌else◌, Bool-cases, if-both, ◌&&◌,
}
use diyddns.Store.Db.{
  Error, Result, ok, err, CodeRow, DeviceRow, Tables, Db, Sql, pure, statement, ◌>>=◌, is_null,
  has_id, null_if_empty,
}
use diyddns.Store.Db.Laws.{statement_ok, bind_ok, not_ok}
use diyddns.Store.Db.Moves.{Moves, Moves-statement, Moves-bind}
use diyddns.Store.Users.{forget_devices, holds, delete_user, remove_user, has_user_id}
use diyddns.Store.Devices.Expiry.{delete, remove_device}
use diyddns.Store.Codes.{
  EnrollmentCode, scan_enrollment_code, is_code, code_row, references, insert_code, create_code,
  read_code, get_code, redeemable, redeemed, mark_used, consume_enrollment_code, code_expired,
  prune_codes,
}

-- Every row of the code is used.
abbrev pub UsedRow : String → CodeRow → Type 0
UsedRow code r = is_code code r ≡ true → is_null r.used_at ≡ false

abbrev pub Spent : String → Tables → Type 0
Spent code t = All (UsedRow code) t.codes

-- The primary key.
abbrev pub Single : String → Tables → Type 0
Single code t = length (select (is_code code) t.codes) ≤ 1

Spent-none :
    (code : String) (now : ℕ) (rows : List CodeRow)
    → All (UsedRow code) rows
    → exists (redeemable code now) rows ≡ false
Spent-none code now [] h = refl
Spent-none code now (r ∷ rows) h = ground (arith, h.0, Spent-none code now rows h.1)

redeemed-UsedRow :
    (code device_id : String) (now : ℕ) (r : CodeRow)
    → redeemable code now r ≡ true
    → UsedRow code (if redeemable code now r then redeemed device_id now r else r)
redeemed-UsedRow code device_id now r h = ground arith

other-UsedRow :
    (code device_id : String) (now : ℕ) (r : CodeRow)
    → is_code code r ≡ false
    → UsedRow code (if redeemable code now r then redeemed device_id now r else r)
other-UsedRow code device_id now r h = ground arith

none-UsedRow :
    (code device_id : String) (now : ℕ) (rows : List CodeRow)
    → length (select (is_code code) rows) ≡ 0
    → All (UsedRow code) (update_where (redeemable code now) (redeemed device_id now) rows)
none-UsedRow code device_id now [] h = tt
none-UsedRow code device_id now (r ∷ rows) h = (
  other-UsedRow code device_id now r (ground arith),
  none-UsedRow code device_id now rows (ground arith),
)

none-redeemable :
    (code : String) (now : ℕ) (rows : List CodeRow)
    → length (select (is_code code) rows) ≡ 0
    → exists (redeemable code now) rows ≡ false
none-redeemable code now [] h = refl
none-redeemable code now (r ∷ rows) h = ground (arith, none-redeemable code now rows)

-- The UPDATE of a single row that it finds.
mark_used-Spent :
    (code device_id : String) (now : ℕ) (rows : List CodeRow)
    → length (select (is_code code) rows) ≤ 1
    → exists (redeemable code now) rows ≡ true
    → All (UsedRow code) (update_where (redeemable code now) (redeemed device_id now) rows)
mark_used-Spent code device_id now [] h e = tt
mark_used-Spent code device_id now (r ∷ rows) h e = elim (Bool-cases (is_code code r)) [
  | inl is ↦
      let rest : length (select (is_code code) rows) ≡ 0 = ground arith in
      let none_else : exists (redeemable code now) rows ≡ false =
        none-redeemable code now rows rest in
      (
        redeemed-UsedRow code device_id now r (ground arith),
        none-UsedRow code device_id now rows rest,
      )
  | inr is ↦ (
    other-UsedRow code device_id now r is,
    mark_used-Spent code device_id now rows (ground arith) (ground arith),
  )
]

module _ (code : String) where
  abbrev KeepsSpent : Tables → Tables → Type 0
  KeepsSpent t t' = Spent code t → Spent code t'

  abbrev pub Quiet : {A : Type 0} → Sql A → Type 0
  Quiet m = Moves KeepsSpent (λ _ h. h) (λ _ _ _ f g h. g (f h)) m

  pub Quiet-statement :
      {A : Type 0} (f : Tables → Result A × Tables)
      → ((t : Tables) → Spent code t → Spent code (f t).1)
      → Quiet (statement f)
  Quiet-statement f = Moves-statement KeepsSpent (λ _ h. h) (λ _ _ _ f g h. g (f h)) f

  pub Quiet-bind :
      {A B : Type 0} (m : Sql A) (f : A → Sql B)
      → Quiet m
      → ((a : A) → Quiet (f a))
      → Quiet (m >>= f)
  Quiet-bind m f = Moves-bind KeepsSpent (λ _ h. h) (λ _ _ _ f g h. g (f h)) m f

  pub get_code-Quiet : (c : String) → Quiet (get_code c)
  unfolding get_code
  get_code-Quiet c =
      Quiet-bind (statement (read_code c)) (λ row. pure (scan_enrollment_code row))
        (Quiet-statement (read_code c) (λ t h. h)) (λ _ db h. h)

  again-UsedRow :
      (device_id : String) (now : ℕ) (r : CodeRow)
      → UsedRow code r
      → UsedRow code (redeemed device_id now r)
  again-UsedRow device_id now r h e = refl

  -- No statement on the codes makes a used code usable, but for a new one of the same text.
  pub consume_enrollment_code-Quiet :
      (c device_id : String) (now : ℕ) → Quiet (consume_enrollment_code c device_id now)
  unfolding consume_enrollment_code
  consume_enrollment_code-Quiet c device_id now =
      Quiet-bind (statement (mark_used c device_id now)) (λ _. get_code c)
        (Quiet-statement (mark_used c device_id now) marked) (λ _. get_code-Quiet c)
    where
      marked : (t : Tables) → Spent code t → Spent code (mark_used c device_id now t).1
      marked t h =
          let P : Result (Unit {0}) × Tables → Type 0 = λ r. Spent code r.1 in
          if-both P (exists (redeemable c now) t.codes) _ _
            (if-both P (exists (has_id device_id) t.devices) _ _
              (All-update_where (UsedRow code) (redeemable c now) (redeemed device_id now) t.codes
                (again-UsedRow device_id now) h)
              h)
            h

  pub create_code-Quiet : (c : EnrollmentCode) → c.code ≢ code → Quiet (create_code c)
  unfolding create_code
  create_code-Quiet c other = Quiet-statement (insert_code c) inserted
    where
      inserted : (t : Tables) → Spent code t → Spent code (insert_code c t).1
      inserted t h =
          let P : Result EnrollmentCode × Tables → Type 0 = λ r. Spent code r.1 in
          if-both P (exists (is_code c.code) t.codes) _ _ h (
            if-both P
              (exists (has_user_id c.user_id) t.users
                && references t.devices (null_if_empty c.device_id))
              _ _
              (All-append (UsedRow code) t.codes (code_row c) h
                (λ is. absurd (other ((eq_iff c.code code).0 is))))
              h)

  pub prune_codes-Quiet : (now : ℕ) → Quiet (prune_codes now)
  unfolding prune_codes
  prune_codes-Quiet now =
      Quiet-statement _ (λ t h. All-select (UsedRow code) (λ r. not (code_expired now r)) t.codes h)

  forget_devices-UsedRow :
      (gone : List DeviceRow) (r : CodeRow) → UsedRow code r → UsedRow code (forget_devices gone r)
  forget_devices-UsedRow gone r h =
      if-both (UsedRow code) (exists (λ d. holds d.id r.device_id) gone) _ _ h h

  pub delete-Quiet : (id : String) → Quiet (delete id)
  unfolding delete
  delete-Quiet id = Quiet-statement (remove_device id) deleted
    where
      deleted : (t : Tables) → Spent code t → Spent code (remove_device id t).1
      deleted t h =
          let P : Result (Unit {0}) × Tables → Type 0 = λ r. Spent code r.1 in
          if-both P (exists (has_id id) t.devices) _ _
            (All-map (UsedRow code) (UsedRow code) (forget_devices (select (has_id id) t.devices))
              t.codes (forget_devices-UsedRow (select (has_id id) t.devices)) h)
            h

  pub delete_user-Quiet : (id : String) → Quiet (delete_user id)
  unfolding delete_user
  delete_user-Quiet id = Quiet-statement (remove_user id) deleted
    where
      deleted : (t : Tables) → Spent code t → Spent code (remove_user id t).1
      deleted t h =
          let P : Result (Unit {0}) × Tables → Type 0 = λ r. Spent code r.1 in
          let owned : List DeviceRow = select (λ (d : DeviceRow). str_eq d.user_id id) t.devices in
          if-both P (exists (has_user_id id) t.users) _ _
            (All-map (UsedRow code) (UsedRow code) (forget_devices owned)
              (select (λ c. not (str_eq c.user_id id)) t.codes) (forget_devices-UsedRow owned)
              (All-select (UsedRow code) (λ c. not (str_eq c.user_id id)) t.codes h))
            h

-- A code that is used is not consumed.
pub consume-Spent :
    (code device_id : String) (now : ℕ) (db : Db)
    → Spent code db.tables
    → (e : Error) × ((consume_enrollment_code code device_id now db).0 ≡ err e)
unfolding consume_enrollment_code
consume-Spent code device_id now db h =
    not_ok (consume_enrollment_code code device_id now db).0 λ c e.
      let (u, marked, _, _) =
        bind_ok (statement (mark_used code device_id now)) (λ _. get_code code) db c e in
      let done = statement_ok (mark_used code device_id now) db u marked in
      absurd (ground (arith, Spent-none code now db.tables.codes h))

-- A code that was consumed is used.
pub consumed-Spent :
    (code device_id : String) (now : ℕ) (db : Db) (c : EnrollmentCode)
    → Single code db.tables
    → (consume_enrollment_code code device_id now db).0 ≡ ok c
    → Spent code (consume_enrollment_code code device_id now db).1.tables
unfolding consume_enrollment_code
consumed-Spent code device_id now db c single h =
    let (u, marked, _, end) =
      bind_ok (statement (mark_used code device_id now)) (λ _. get_code code) db c h in
    let mid = (statement (mark_used code device_id now) db).1 in
    let done = statement_ok (mark_used code device_id now) db u marked in
    subst (λ (d : Db). Spent code d.tables) (sym end)
      (get_code-Quiet code code mid (subst (Spent code) (sym done.1) (marked_ok u done.0)))
  where
    marked_ok :
        (u : Unit {0})
        → (mark_used code device_id now db.tables).0 ≡ ok u
        → Spent code (mark_used code device_id now db.tables).1
    marked_ok u e =
        let rows : List CodeRow =
          update_where (redeemable code now) (redeemed device_id now) db.tables.codes in
        let written : (mark_used code device_id now db.tables).1.codes ≡ rows = ground arith in
        subst (All (UsedRow code)) (sym written)
          (mark_used-Spent code device_id now db.tables.codes single (ground arith))

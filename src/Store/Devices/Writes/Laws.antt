-- ===== src/Store/Devices/Writes/Laws.antt =====
-- What an UPDATE of one device does (internal/store/devices.go).
use diyddns.Prelude.{
  ◌≤◌, List, [], ◌∷◌, Option, none, some, eq_iff, find_where, ap, ◌∙◌, sym, subst, String, true,
  ◌≡◌, refl, arith, exists, update_where, false, ◌++◌, str_eq, if◌then◌else◌,
}
use diyddns.Store.Db.{
  Error, Result, ok, err, Tables, pure, DeviceRow, Db, has_id, statement, now_unix,
}
use diyddns.Store.Db.Instants.{clock_after, weather_after, statement_end}
use diyddns.Store.Db.Laws.{statement_ok, statement_cases, statement_clock, bind_ok}
use diyddns.Store.Devices.Rows.{Device, scan_device, device_row}
use diyddns.Store.Devices.Writes.{update_device, found, get_by_id, create, insert_device}

-- An UPDATE that returns no error has found the device, and has changed no other table.
pub update_device_ok :
    (id : String) (f : DeviceRow → DeviceRow) (db : Db) (u : Unit {0})
    → (statement (update_device id f) db).0 ≡ ok u
    → (exists (has_id id) db.tables.devices ≡ true)
      × ((statement (update_device id f) db).1.tables
          ≡ record (db.tables) { devices = update_where (has_id id) f db.tables.devices })
update_device_ok id f db u h = ground (arith, statement_ok (update_device id f) db u)

pub find_has_id :
    (id : String) (rows : List DeviceRow) (row : DeviceRow)
    → find_where (has_id id) rows ≡ some row
    → row.id ≡ id
find_has_id id [] row h = absurd (ground arith)
find_has_id id (x ∷ rows) row h = ground (arith, find_has_id id rows row, eq_iff x.id id)

found_ok : (o : Option DeviceRow) (row : DeviceRow) → found o ≡ ok row → o ≡ some row
found_ok none row h = absurd (ground arith)
found_ok (some x) row h = ground arith

-- A device that was read is the row of its id, and reading changes no table.
pub get_by_id_ok :
    (id : String) (db : Db) (dev : Device)
    → (get_by_id id db).0 ≡ ok dev
    → (row : DeviceRow) × (find_where (has_id id) db.tables.devices ≡ some row)
      × (dev ≡ scan_device row)
      × ((get_by_id id db).1.tables ≡ db.tables)
      × (db.clock ≤ (get_by_id id db).1.clock)
unfolding get_by_id
get_by_id_ok id db dev h =
    let read : Tables → Result DeviceRow × Tables =
      λ t. (found (find_where (has_id id) t.devices), t) in
    let (row, e, h1, end) = bind_ok (statement read) (λ row. pure (scan_device row)) db dev h in
    let done = statement_ok read db row e in
    (
      row,
      found_ok _ row done.0,
      ground arith,
      ap (λ (d : Db). d.tables) end ∙ done.1,
      subst (λ (d : Db). db.clock ≤ d.clock) (sym end) (statement_clock read db),
    )

pub get_by_id_end :
    (id : String) (db : Db)
    → ((get_by_id id db).1.clock ≡ clock_after 1 db.weather db.clock)
      × ((get_by_id id db).1.weather ≡ weather_after db.weather)
unfolding get_by_id
get_by_id_end id db =
    let read : Tables → Result DeviceRow × Tables =
      λ t. (found (find_where (has_id id) t.devices), t) in
    ground (arith, statement_end read db)

pub get_by_id_err :
    (id : String) (db : Db) (e : Error)
    → (get_by_id id db).0 ≡ err e
    → (get_by_id id db).1.tables ≡ db.tables
unfolding get_by_id
get_by_id_err id db e h =
    let read : Tables → Result DeviceRow × Tables =
      λ t. (found (find_where (has_id id) t.devices), t) in
    ground (arith, statement_cases {0} read db)

-- An UPDATE that returns an error has changed nothing.
pub update_device_err :
    (id : String) (f : DeviceRow → DeviceRow) (db : Db) (e : Error)
    → (statement (update_device id f) db).0 ≡ err e
    → (statement (update_device id f) db).1.tables ≡ db.tables
update_device_err id f db e h = ground (arith, statement_cases {0} (update_device id f) db)

abbrev pub with_device : Device → Tables → Tables
with_device d t = record t { devices = t.devices ++ device_row d ∷ [] }

inserted_ok :
    (d : Device) (t : Tables) (dev : Device)
    → (insert_device d t).0 ≡ ok dev
    → (dev ≡ d)
      × (exists (has_id d.id) t.devices ≡ false)
      × ((insert_device d t).1 ≡ with_device d t)
unfolding insert_device
inserted_ok d t dev h = (ground arith, ground arith, ground arith)

-- A device that was created has a new id, its row is appended, and no other table changes.
pub create_ok :
    (new_id : String) (d : Device) (db : Db) (dev : Device)
    → (create new_id d db).0 ≡ ok dev
    → (dev ≡ record d { id = dev.id; created_at = db.clock; updated_at = db.clock })
      × (exists (has_id dev.id) db.tables.devices ≡ false)
      × ((create new_id d db).1.tables ≡ with_device dev db.tables)
unfolding create now_unix
create_ok new_id d db dev h =
    let id = if str_eq d.id "" then new_id else d.id in
    let stamped : Device = record d { id = id; created_at = db.clock; updated_at = db.clock } in
    let done = statement_ok (insert_device stamped) db dev h in
    let (is, fresh, new) = inserted_ok stamped db.tables dev done.0 in
    (
      is
          ∙ ap (λ i. record d { id = i; created_at = db.clock; updated_at = db.clock })
              (ap (λ (x : Device). x.id) (sym is)),
      subst (λ (x : Device). exists (has_id x.id) db.tables.devices ≡ false) (sym is) fresh,
      done.1 ∙ new ∙ ap (λ x. with_device x db.tables) (sym is),
    )

-- A device that was not created has changed no table.
pub create_err :
    (new_id : String) (d : Device) (db : Db) (e : Error)
    → (create new_id d db).0 ≡ err e
    → (create new_id d db).1.tables ≡ db.tables
unfolding create now_unix insert_device
create_err new_id d db e h =
    let id = if str_eq d.id "" then new_id else d.id in
    let stamped : Device = record d { id = id; created_at = db.clock; updated_at = db.clock } in
    ground (arith, statement_cases {0} (insert_device stamped) db)

-- Reading a device changes no table.
pub tables-get_by_id : (id : String) (db : Db) → (get_by_id id db).1.tables ≡ db.tables
tables-get_by_id id db = read (get_by_id id db).0 refl
  where
    read : (r : Result Device) → (get_by_id id db).0 ≡ r → (get_by_id id db).1.tables ≡ db.tables
    read (ok dev) h = let (_, _, _, kept, _) = get_by_id_ok id db dev h in kept
    read (err e) h = get_by_id_err id db e h

-- ===== src/Auth/Session/Valid.antt =====
-- `Authenticate` admits and denies for its reasons (internal/auth/session.go).
use diyddns.Prelude.{
  ◌<◌, String, Bool, true, false, ◌≡◌, ◌⊎◌, inl, inr, refl, sym, ap, ◌∙◌, subst, some, none,
  find_where, leb, leb→lt, if◌then◌else◌, arith,
}
use diyddns.Store.Db.{Error, not_found, driver, Result, ok, err, UserRow, SessionRow, Tables, Db}
use diyddns.Store.Db.Instants.{clock_after, weather_after, IsFailed, IsFailed-suc, clock_after-suc}
use diyddns.Store.Users.{User, scan_user, has_user_id, get_user_by_id}
use diyddns.Store.Users.Laws.{
  get_user_by_id_ok, get_user_by_id_err, get_user_by_id_end, tables-get_user_by_id,
}
use diyddns.Store.Sessions.{Session, scan_session, is_session, get_session}
use diyddns.Store.Sessions.Laws.{
  tables-get_session, get_session_ok, get_session_err, get_session_end,
}
use diyddns.Auth.Session.{
  SessionManager, Login, admitted, denied, slid, idle, check_owner, check_session, authenticate,
  session_expired, user_disabled,
}
use diyddns.Auth.Session.Contract.{judged, Decided}
use diyddns.Auth.Session.Branches.{session-Refused, user-Refused, admitted-Decided}

module _ (m : SessionManager) (id : String) (done_at_session done_at_user : Bool) (db : Db) where
  -- The state after the read of the session.
  abbrev mid : Db
  mid = (get_session id db).1

  now : mid.clock ≡ judged db
  now = (get_session_end id db).0

  abbrev DecidedHere : Login × Db → Type 0
  DecidedHere = Decided m id done_at_session done_at_user db

  module _ (row : SessionRow) (found : find_where (is_session id) db.tables.sessions ≡ some row)
      (live : judged db < row.expires_at) where
    -- The state after the read of the account.
    abbrev read : Db
    read = (get_user_by_id row.user_id mid).1

    kept : read.tables ≡ db.tables
    kept = tables-get_user_by_id row.user_id mid ∙ tables-get_session id db

    read_clock : read.clock ≡ clock_after 2 db.weather db.clock
    read_clock =
        (get_user_by_id_end row.user_id mid).0
        ∙ ap (λ ws. clock_after 1 ws mid.clock) (get_session_end id db).1
        ∙ ap (clock_after 1 (weather_after db.weather)) now
        ∙ clock_after-suc 1 db.weather db.clock

    second-IsFailed : IsFailed 0 mid.weather → IsFailed 1 db.weather
    second-IsFailed h =
        IsFailed-suc 0 db.weather (subst (λ ws. IsFailed 0 ws) (get_session_end id db).1 h)

    third-IsFailed : IsFailed 0 read.weather → IsFailed 2 db.weather
    third-IsFailed h = IsFailed-suc 1 db.weather (
        IsFailed-suc 0 (weather_after db.weather) (
          subst (λ ws. IsFailed 0 ws)
            ((get_user_by_id_end row.user_id mid).1 ∙ ap weather_after (get_session_end id db).1)
            h))

    owned_at :
        (o : UserRow)
        → find_where (has_user_id row.user_id) mid.tables.users ≡ some o
        → find_where (has_user_id row.user_id) db.tables.users ≡ some o
    owned_at o h =
        ap (λ (t : Tables). find_where (has_user_id row.user_id) t.users)
          (sym (tables-get_session id db))
        ∙ h

    unowned :
        (e : Error)
        → (e ≡ driver) × IsFailed 0 mid.weather
          ⊎ (e ≡ not_found) × (find_where (has_user_id row.user_id) mid.tables.users ≡ none)
        → (e ≡ driver) × IsFailed 1 db.weather
          ⊎ (e ≡ not_found) × (find_where (has_user_id row.user_id) db.tables.users ≡ none)
    unowned e (inl (h, f)) = inl (h, second-IsFailed f)
    unowned e (inr (h, f)) = inr (
      h,
      ap (λ (t : Tables). find_where (has_user_id row.user_id) t.users)
            (sym (tables-get_session id db))
          ∙ f,
    )

    enabled-Decided :
        (owner : UserRow)
        → find_where (has_user_id row.user_id) db.tables.users ≡ some owner
        → (b : Bool) → owner.disabled ≡ b
        → let run : Login × Db =
            if b
            then (denied user_disabled, read)
            else if idle m (judged db) (scan_session row)
            then slid m (judged db) (scan_session row) (scan_user owner) read
            else (admitted (scan_user owner) (scan_session row), read) in
          DecidedHere run
    enabled-Decided owner owned true e = ((row, owner, found, live, owned, e), kept)
    enabled-Decided owner owned false e =
        admitted-Decided m id done_at_session done_at_user db row found live owner owned e read
          (idle m (judged db) (scan_session row)) refl kept read_clock third-IsFailed

    owner-Decided :
        (r : Result User)
        → (get_user_by_id row.user_id mid).0 ≡ r
        → DecidedHere (check_owner m done_at_user (judged db) (scan_session row) r read)
    owner-Decided (err e) h = (
      user-Refused id done_at_session done_at_user db row e found live
          (unowned e (get_user_by_id_err row.user_id mid e h)),
      kept,
    )
    owner-Decided (ok usr) h =
        let (owner, owned, is) = get_user_by_id_ok row.user_id mid usr h in
        subst
          (λ u. DecidedHere (check_owner m done_at_user (judged db) (scan_session row) (ok u) read))
          (sym is) (enabled-Decided owner (owned_at owner owned) owner.disabled refl)

  checked-Decided :
      (row : SessionRow)
      → find_where (is_session id) db.tables.sessions ≡ some row
      → DecidedHere (check_session m done_at_session done_at_user (ok (scan_session row)) mid)
  checked-Decided row found =
      subst
        (λ c. DecidedHere (
          if leb row.expires_at c
          then (denied session_expired, mid)
          else check_owner m done_at_user c (scan_session row) run.0 run.1))
        (sym now) (tested (leb row.expires_at (judged db)) refl)
    where
      run : Result User × Db
      run = get_user_by_id row.user_id mid

      tested :
          (b : Bool)
          → leb row.expires_at (judged db) ≡ b
          → DecidedHere (
              if b
              then (denied session_expired, mid)
              else check_owner m done_at_user (judged db) (scan_session row) run.0 run.1)
      tested true h = ((row, found, ground arith), tables-get_session id db)
      tested false h = owner-Decided row found (leb→lt row.expires_at (judged db) h) run.0 refl

  -- From any state and under any failures of the driver, a session is admitted only where the cookie's
  -- session is stored and expires after the clock of its read, and its owner is stored and enabled; it
  -- is left as it was if it was seen less than a slide ago, and from then on recorded as seen and as
  -- expiring a TTL after that clock, unless the driver fails this third statement. It is denied only
  -- for the reason that the refusal names: the driver failed the first or the second statement, with
  -- the request cancelled or not; the session or its owner is not stored, the session has expired, or
  -- the owner is disabled. A denied request has changed no table.
  pub authenticate-Decided :
      Decided m id done_at_session done_at_user db
        (authenticate m done_at_session done_at_user id db)
  unfolding authenticate
  authenticate-Decided = looked_up (get_session id db).0 refl
    where
      looked_up :
          (r : Result Session)
          → (get_session id db).0 ≡ r
          → DecidedHere (check_session m done_at_session done_at_user r mid)
      looked_up (err e) h = (
        session-Refused id done_at_session done_at_user db e (get_session_err id db e h),
        tables-get_session id db,
      )
      looked_up (ok s) h =
          let (row, found, is, later) = get_session_ok id db s h in
          subst (λ x. DecidedHere (check_session m done_at_session done_at_user (ok x) mid))
            (sym is) (checked-Decided row found)

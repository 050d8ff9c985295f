-- ===== src/Auth/Session/Branches.antt =====
-- The branches of `Authenticate` (internal/auth/session.go).
use diyddns.Prelude.{
  ℕ, ◌+◌, ◌≤◌, ◌<◌, String, Bool, true, false, ◌≡◌, ◌⊎◌, inl, inr, refl, sym, ap, ◌∙◌, subst, some,
  none, find_where, find_where-exists, eq_iff, if◌then◌else◌, exists, arith,
}
use diyddns.Prelude.Int.{leb_ℤ-sub_ℕ}
use diyddns.Store.Db.{
  Error, not_found, conflict, driver, Result, ok, err, UserRow, SessionRow, Tables, Db,
}
use diyddns.Store.Db.Instants.{clock_after, IsFailed}
use diyddns.Store.Users.{scan_user, has_user_id}
use diyddns.Store.Sessions.{Session, scan_session, is_session, touch_session}
use diyddns.Store.Sessions.Laws.{slid_to, touch_session_cases, touch_session-IsFailed}
use diyddns.Auth.Timestamp.{seconds}
use diyddns.Auth.Session.{
  SessionManager, admitted, touched, slid, idle, session_rejection, unknown_session,
  session_lookup_cancelled, session_store_error, unknown_user, user_lookup_cancelled,
  user_store_error,
}
use diyddns.Auth.Session.Contract.{judged, Slides, Admitted, Refused, Decided}

-- The refusal of a lookup that failed, by its error and the state of the context.
pub session-Refused :
    (id : String) (done done_at_user : Bool) (db : Db) (e : Error)
    → (e ≡ driver) × IsFailed 0 db.weather
      ⊎ (e ≡ not_found) × (find_where (is_session id) db.tables.sessions ≡ none)
    → Refused id done done_at_user db
        (session_rejection done e unknown_session session_lookup_cancelled session_store_error)
session-Refused id done done_at_user db not_found (inl (h, f)) = absurd (ground arith)
session-Refused id done done_at_user db not_found (inr (h, f)) = f
session-Refused id done done_at_user db conflict (inl (h, f)) = absurd (ground arith)
session-Refused id done done_at_user db conflict (inr (h, f)) = absurd (ground arith)
session-Refused id true done_at_user db driver (inl (h, f)) = (f, refl)
session-Refused id false done_at_user db driver (inl (h, f)) = (f, refl)
session-Refused id done done_at_user db driver (inr (h, f)) = absurd (ground arith)

pub user-Refused :
    (id : String) (done_at_session done : Bool) (db : Db) (row : SessionRow) (e : Error)
    → find_where (is_session id) db.tables.sessions ≡ some row
    → judged db < row.expires_at
    → (e ≡ driver) × IsFailed 1 db.weather
      ⊎ (e ≡ not_found) × (find_where (has_user_id row.user_id) db.tables.users ≡ none)
    → Refused id done_at_session done db
        (session_rejection done e unknown_user user_lookup_cancelled user_store_error)
user-Refused id d done db row not_found found live (inl (h, f)) = absurd (ground arith)
user-Refused id d done db row not_found found live (inr (h, f)) = (row, found, live, f)
user-Refused id d done db row conflict found live (inl (h, f)) = absurd (ground arith)
user-Refused id d done db row conflict found live (inr (h, f)) = absurd (ground arith)
user-Refused id d true db row driver found live (inl (h, f)) = (f, refl)
user-Refused id d false db row driver found live (inl (h, f)) = (f, refl)
user-Refused id d done db row driver found live (inr (h, f)) = absurd (ground arith)

module _ (m : SessionManager) (id : String) (done_at_session done_at_user : Bool) (db : Db)
    (row : SessionRow) (found : find_where (is_session id) db.tables.sessions ≡ some row)
    (live : judged db < row.expires_at) (owner : UserRow)
    (owned : find_where (has_user_id row.user_id) db.tables.users ≡ some owner)
    (enabled : owner.disabled ≡ false) where
  Admitted-row :
      (s : Session) (new : Tables)
      → s ≡ record (scan_session row) { expires_at = s.expires_at }
      → Slides m db row s.expires_at new
      → Admitted m id db (scan_user owner) s new
  Admitted-row s new same written = record {
    row = row;
    found_row = found;
    owner = owner;
    found_owner = owned;
    returned = refl;
    enabled = enabled;
    live = live;
    same_session = same;
    written = written;
  }

  -- The third statement, in the state after the two reads.
  touched-Admitted :
      (r : Result (Unit {0})) (at : ℕ) (end new : Tables)
      → row.last_seen_at + seconds m.slide ≤ judged db
      → at ≡ clock_after 2 db.weather db.clock
      → end ≡ db.tables
      → (r ≡ ok tt)
          × (exists (is_session row.id) end.sessions ≡ true)
          × (new ≡ slid_to row.id at (judged db + seconds m.ttl) end)
        ⊎ (e : Error) × (r ≡ err e) × (new ≡ end)
      → ((e : Error) → r ≡ err e → IsFailed 2 db.weather)
      → Admitted m id db
          (scan_user owner)
          (touched (judged db + seconds m.ttl) (scan_session row) r)
          new
  touched-Admitted (ok _) at end new old now same (inl (_, _, wrote)) failed =
      let ttl = seconds m.ttl in
      Admitted-row (touched (judged db + ttl) (scan_session row) (ok tt)) new refl (
        inr (
          old,
          inl (
            wrote
                ∙ ap (λ x. slid_to row.id x (judged db + ttl) end) now
                ∙ ap (slid_to row.id (clock_after 2 db.weather db.clock) (judged db + ttl)) same,
            refl,
          ),
        ))
  touched-Admitted (ok _) at end new old now same (inr (e, h, _)) failed = absurd (ground arith)
  touched-Admitted (err x) at end new old now same (inl (h, _, _)) failed = absurd (ground arith)
  touched-Admitted (err x) at end new old now same (inr (e, h, kept)) failed =
      Admitted-row (scan_session row) new refl (inr (old, inr (failed x refl, kept ∙ same, refl)))

  stored : exists (is_session row.id) db.tables.sessions ≡ true
  stored =
      subst (λ i. exists (is_session i) db.tables.sessions ≡ true)
        (sym
          ((eq_iff row.id id).0 (find_where-exists (is_session id) db.tables.sessions row found).0))
        (find_where-exists (is_session id) db.tables.sessions row found).1

  slid-Decided :
      (end : Db)
      → row.last_seen_at + seconds m.slide ≤ judged db
      → end.tables ≡ db.tables
      → end.clock ≡ clock_after 2 db.weather db.clock
      → (IsFailed 0 end.weather → IsFailed 2 db.weather)
      → Decided m id done_at_session done_at_user db
          (slid m (judged db) (scan_session row) (scan_user owner) end)
  slid-Decided end old same now failed =
      let expires_at = judged db + seconds m.ttl in
      let there : exists (is_session row.id) end.tables.sessions ≡ true =
        subst (λ (t : Tables). exists (is_session row.id) t.sessions ≡ true) (sym same) stored in
      touched-Admitted (touch_session row.id expires_at end).0 end.clock end.tables
        (touch_session row.id expires_at end).1.tables old now same
        (touch_session_cases row.id expires_at end)
        (λ e h. failed (touch_session-IsFailed row.id expires_at end e there h))

  -- The account is enabled: what the idle test makes of it.
  pub admitted-Decided :
      (end : Db) (b : Bool)
      → idle m (judged db) (scan_session row) ≡ b
      → end.tables ≡ db.tables
      → end.clock ≡ clock_after 2 db.weather db.clock
      → (IsFailed 0 end.weather → IsFailed 2 db.weather)
      → Decided m id done_at_session done_at_user db (
          if b
          then slid m (judged db) (scan_session row) (scan_user owner) end
          else (admitted (scan_user owner) (scan_session row), end))
  admitted-Decided end true h same now failed =
      slid-Decided end (ground (arith, leb_ℤ-sub_ℕ (seconds m.slide) (judged db) row.last_seen_at))
        same now failed
  admitted-Decided end false h same now failed =
      Admitted-row (scan_session row) end.tables refl (
        inl
          (ground (arith, leb_ℤ-sub_ℕ (seconds m.slide) (judged db) row.last_seen_at), same, refl))

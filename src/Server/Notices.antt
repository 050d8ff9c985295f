-- ===== src/Server/Notices.antt =====
-- The notices of the sweep and their delivery (internal/server/sweep.go, stale/notice.go,
-- stale/dispatch.go). What is sent is returned in order; whether a mail arrives is only logged by the
-- source.
use diyddns.Prelude.{
  ℕ, String, Bool, not, ◌&&◌, if◌then◌else◌, Option, none, some, List, [], ◌∷◌, ◌++◌, str_eq, ◌==◌,
  select,
}
use diyddns.Prelude.Int.{ℤ, pos, sub_ℕ}
use diyddns.Store.Db.{Result, ok, err, Db}
use diyddns.Store.Devices.Rows.{Device}
use diyddns.Store.Users.{User, get_user_by_id}
use diyddns.Service.Checkin.{IpChangeEvent}
use diyddns.Stale.Window.{
  expires_at, Kind, warning, removed, Audience, owner, admin, recipients_for,
}

-- `stale.Notice`; `remaining` is in seconds.
pub record Notice : Type 0 where
  pub kind : Kind
  pub rung : ℕ
  pub device : Device
  pub to : Option User
  pub family : ℕ
  pub expires : ℕ
  pub remaining : ℤ
  pub surviving : List ℕ

-- What a tick does outside of the database.
pub data Effect : Type 0 where
  owner_mail : String → Notice → Effect
  admin_mail : String → List Notice → Effect
  dispatched : IpChangeEvent → Effect

abbrev pub present : Device → ℕ → Bool
present c family =
    if family == 6 then not (str_eq c.current_ipv6 "") else not (str_eq c.current_ipv4 "")

abbrev pub confirmed_at : Device → ℕ → ℕ
confirmed_at c family = if family == 6 then c.v6_confirmed_at else c.v4_confirmed_at

abbrev pub warn_level : Device → ℕ → ℕ
warn_level c family = if family == 6 then c.v6_warn_level else c.v4_warn_level

abbrev pub survivors : Device → Bool → Bool → List ℕ
survivors c v4_due v6_due =
    (if present c 4 && not v4_due then 4 ∷ [] else [])
    ++ (if present c 6 && not v6_due then 6 ∷ [] else [])

abbrev pub surviving_after : Device → ℕ → List ℕ
surviving_after c family = select (λ f. not (f == family) && present c f) (4 ∷ 6 ∷ [])

-- What one step did: its result, what it sent, and the database after it.
pub record Acted : Type 0 where
  pub result : Result (List Notice)
  pub effects : List Effect
  pub end : Db

abbrev pub send_owner : User → Notice → List Effect
send_owner u n = if str_eq u.email "" then [] else owner_mail u.email n ∷ []

-- Who hears of it: the owner now, the administrators in the digest.
abbrev pub spread : User → Notice → List Audience → List Notice × List Effect
spread u n [] = ([], [])
spread u n (owner ∷ rest) = let (ns, es) = spread u n rest in (ns, send_owner u n ++ es)
spread u n (admin ∷ rest) = let (ns, es) = spread u n rest in (n ∷ ns, es)

abbrev pub delivered_to : Result User → Notice → Db → Acted
delivered_to (err e) n db = record { result = ok []; effects = []; end = db }
delivered_to (ok u) n db =
    let (ns, es) = spread u (record n { to = some u }) (recipients_for n.kind n.rung) in
    record { result = ok ns; effects = es; end = db }

-- `deliver`
unfoldable pub deliver : Device → Notice → Db → Acted
deliver c n db = let (r, db') = get_user_by_id c.user_id db in delivered_to r n db'

-- `forAdmins = append(forAdmins, ...)`, unless the second step fails.
abbrev pub after : List Notice → List Effect → Acted → Acted
after ns es a = record a {
  result = elim a.result [ ok more ↦ ok (ns ++ more) | err e ↦ err e ];
  effects = es ++ a.effects;
}

abbrev pub and_then : Acted → (Db → Acted) → Acted
and_then a k = elim a.result [ ok ns ↦ after ns a.effects (k a.end) | err e ↦ a ]

abbrev pub removal : Device → Bool → Bool → ℕ → ℕ → Notice
removal c v4_due v6_due now family = record {
  kind = removed;
  rung = 0;
  device = c;
  to = none;
  family = family;
  expires = now;
  remaining = pos 0;
  surviving = survivors c v4_due v6_due;
}

abbrev pub nothing : Db → Acted
nothing db = record { result = ok []; effects = []; end = db }

-- `removed`
unfoldable pub notify_removed : Device → Bool → Bool → ℕ → Db → Acted
notify_removed c v4_due v6_due now db =
    and_then (if v4_due then deliver c (removal c v4_due v6_due now 4) db else nothing db)
      (λ db'. if v6_due then deliver c (removal c v4_due v6_due now 6) db' else nothing db')

abbrev pub warned : Device → ℕ → ℕ → ℕ → ℕ → Notice
warned c family due w now =
    let expires = expires_at (confirmed_at c family) w in
    record {
      kind = warning;
      rung = due;
      device = c;
      to = none;
      family = family;
      expires = expires;
      remaining = sub_ℕ expires now;
      surviving = surviving_after c family;
    }

-- ===== src/Server/Sweep/Keep.antt =====
-- The sweep removes no address before its time (internal/server/sweep.go).
use diyddns.Prelude.{
  ℕ, ◌≤◌, String, Bool, true, false, ◌≡◌, ◌⊎◌, inl, inr, refl, sym, ◌∙◌, subst, if◌then◌else◌,
  Option, none, All2, All2-same, All2-trans, ◌==◌, leb→le, arith,
}
use diyddns.Store.Db.{DeviceRow, Tables, scan_int64}
use diyddns.Store.Devices.Rows.{Device}
use diyddns.Store.Devices.Writes.{case_when}
use diyddns.Store.Devices.Expiry.{expirable, expire_row, set_level}
use diyddns.Stale.Window.{expires_at}
use diyddns.Server.Notices.{confirmed_at}
use diyddns.Server.Sweep.{is_due}

-- An address is as it was, or it is gone and its time was over.
abbrev pub KeptAddress : ℕ → ℕ → Option ℕ → Option String → Option String → Type 0
KeptAddress w now confirmed_at old new =
    (new ≡ old) ⊎ (expires_at (scan_int64 confirmed_at) w ≤ now) × (new ≡ none)

-- What the sweep may do to a row.
pub record Kept (w now : ℕ) (old new : DeviceRow) : Type 0 where
  pub same_id : new.id ≡ old.id
  pub same_secret : new.secret_hash ≡ old.secret_hash
  pub same_disabled : new.disabled ≡ old.disabled
  pub v4_confirmed : new.v4_confirmed_at ≡ old.v4_confirmed_at
  pub v6_confirmed : new.v6_confirmed_at ≡ old.v6_confirmed_at
  pub v4 : KeptAddress w now old.v4_confirmed_at old.current_ipv4 new.current_ipv4
  pub v6 : KeptAddress w now old.v6_confirmed_at old.current_ipv6 new.current_ipv6

KeptAddress-trans :
    (w now : ℕ) (c c' : Option ℕ) (a b d : Option String)
    → c' ≡ c
    → KeptAddress w now c a b
    → KeptAddress w now c' b d
    → KeptAddress w now c a d
KeptAddress-trans w now c c' a b d e (inl x) (inl y) = inl (y ∙ x)
KeptAddress-trans w now c c' a b d e (inr (t, x)) (inl y) = inr (t, y ∙ x)
KeptAddress-trans w now c c' a b d e x (inr (t, y)) =
    inr (subst (λ z. expires_at (scan_int64 z) w ≤ now) e t, y)

pub Kept-same : (w now : ℕ) (r : DeviceRow) → Kept w now r r
Kept-same w now r = record {
  same_id = refl;
  same_secret = refl;
  same_disabled = refl;
  v4_confirmed = refl;
  v6_confirmed = refl;
  v4 = inl refl;
  v6 = inl refl;
}

pub Kept-trans : (w now : ℕ) (x y z : DeviceRow) → Kept w now x y → Kept w now y z → Kept w now x z
Kept-trans w now x y z a b = record {
  same_id = b.same_id ∙ a.same_id;
  same_secret = b.same_secret ∙ a.same_secret;
  same_disabled = b.same_disabled ∙ a.same_disabled;
  v4_confirmed = b.v4_confirmed ∙ a.v4_confirmed;
  v6_confirmed = b.v6_confirmed ∙ a.v6_confirmed;
  v4 =
      KeptAddress-trans w now x.v4_confirmed_at y.v4_confirmed_at x.current_ipv4 y.current_ipv4
        z.current_ipv4 a.v4_confirmed a.v4 b.v4;
  v6 =
      KeptAddress-trans w now x.v6_confirmed_at y.v6_confirmed_at x.current_ipv6 y.current_ipv6
        z.current_ipv6 a.v6_confirmed a.v6 b.v6;
}

expirable_pins :
    (id : String) (v4_due v6_due : Bool) (pin_v4 pin_v6 : ℕ) (r : DeviceRow)
    → expirable id v4_due v6_due pin_v4 pin_v6 r ≡ true
    → (scan_int64 r.v4_confirmed_at ≡ pin_v4) × (scan_int64 r.v6_confirmed_at ≡ pin_v6)
expirable_pins id v4_due v6_due pin_v4 pin_v6 r h = ground arith

is_due_time :
    (c : Device) (w now family : ℕ)
    → is_due c w now family ≡ true
    → expires_at (confirmed_at c family) w ≤ now
unfolding expires_at
is_due_time c w now family h = ground (arith, leb→le (expires_at (confirmed_at c family) w) now)

module _ (w now : ℕ) where
  cleared-KeptAddress :
      (confirmed : Option ℕ) (pin : ℕ) (old : Option String) (due : Bool)
      → scan_int64 confirmed ≡ pin
      → (due ≡ true → expires_at pin w ≤ now)
      → KeptAddress w now confirmed old (case_when due none old)
  cleared-KeptAddress confirmed pin old true e h =
      inr (subst (λ x. expires_at x w ≤ now) (sym e) (h refl), refl)
  cleared-KeptAddress confirmed pin old false e h = inl refl

  -- The expiring UPDATE clears what is due by the confirmations that the row still carries.
  pub Kept-expire_row :
      (c : Device) (t : ℕ) (r : DeviceRow)
      → expirable c.id (is_due c w now 4) (is_due c w now 6) c.v4_confirmed_at c.v6_confirmed_at r
        ≡ true
      → Kept w now r (expire_row (is_due c w now 4) (is_due c w now 6) t r)
  Kept-expire_row c t r h =
      let pins =
        expirable_pins c.id (is_due c w now 4) (is_due c w now 6) c.v4_confirmed_at
          c.v6_confirmed_at r h in
      record {
        same_id = refl;
        same_secret = refl;
        same_disabled = refl;
        v4_confirmed = refl;
        v6_confirmed = refl;
        v4 =
            cleared-KeptAddress r.v4_confirmed_at c.v4_confirmed_at r.current_ipv4
              (is_due c w now 4) pins.0 (is_due_time c w now 4);
        v6 =
            cleared-KeptAddress r.v6_confirmed_at c.v6_confirmed_at r.current_ipv6
              (is_due c w now 6) pins.1 (is_due_time c w now 6);
      }

  pub Kept-set_level :
      (family level t : ℕ) (r : DeviceRow) → Kept w now r (set_level family level t r)
  Kept-set_level family level t r = either (family == 6)
    where
      either :
          (b : Bool)
          → Kept w now r (
              if b
              then record r { v6_warn_level = level; updated_at = t }
              else record r { v4_warn_level = level; updated_at = t })
      either true = record {
        same_id = refl;
        same_secret = refl;
        same_disabled = refl;
        v4_confirmed = refl;
        v6_confirmed = refl;
        v4 = inl refl;
        v6 = inl refl;
      }
      either false = record {
        same_id = refl;
        same_secret = refl;
        same_disabled = refl;
        v4_confirmed = refl;
        v6_confirmed = refl;
        v4 = inl refl;
        v6 = inl refl;
      }

  -- The rows of the devices, one by one.
  abbrev pub KeptAll : Tables → Tables → Type 0
  KeptAll old new = All2 (Kept w now) old.devices new.devices

  pub KeptAll-same : (t : Tables) → KeptAll t t
  KeptAll-same t = All2-same (Kept w now) (Kept-same w now) t.devices

  pub KeptAll-trans : (a b c : Tables) → KeptAll a b → KeptAll b c → KeptAll a c
  KeptAll-trans a b c = All2-trans (Kept w now) (Kept-trans w now) a.devices b.devices c.devices

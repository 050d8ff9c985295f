-- ===== src/Service/Credentials.antt =====
-- What feed tokens and API keys share (internal/server/service/feed.go and apikeys.go): prefixes and
-- labels as TrimSpace and HasPrefix of the standard library read them, errors, and the throttle of the
-- stamps.
use Prim.Native.Char.{code}
use text.Mathlib.Text.{starts_with}
use diyddns.Prelude.{ℕ, String, Bool, ◌&&◌, ◌||◌, ◌==◌, leb, str_eq, if◌then◌else◌}
use diyddns.Prelude.Int.{pos, leb_ℤ, sub_ℕ}
use diyddns.Store.Db.{Error}

-- `strings.HasPrefix`
abbrev pub has_prefix : String → String → Bool
has_prefix s p = starts_with s p

-- `unicode.IsSpace`
abbrev pub is_space : ℕ → Bool
is_space c =
    leb 9 c && leb c 13
    || c == 32
    || c == 133
    || c == 160
    || c == 5760
    || leb 8192 c && leb c 8202
    || c == 8232
    || c == 8233
    || c == 8239
    || c == 8287
    || c == 12288

abbrev trim_left : String → String
trim_left String.[] = String.[]
trim_left (String.◌∷◌ c s) =
    let rest = trim_left s in if is_space (code c) then rest else String.◌∷◌ c s

abbrev trim_right : String → String
trim_right String.[] = String.[]
trim_right (String.◌∷◌ c s) =
    let rest = trim_right s in if is_space (code c) && str_eq rest "" then "" else String.◌∷◌ c rest

-- `strings.TrimSpace`
abbrev pub trim_space : String → String
trim_space s = trim_right (trim_left s)

-- `ErrInvalidLabel`, `ErrTokenMalformed` and their counterparts for keys; no random bytes; and an error
-- of the store.
pub data CredentialError : Type 0 where
  invalid_label malformed no_randomness : CredentialError
  stored : Error → CredentialError

pub data Answer (A : Type 0) : Type 0 where
  good : A → Answer A
  bad : CredentialError → Answer A

-- `lastTouch`, a map whose missing entries read as 0
abbrev pub LastTouch : Type 0
LastTouch = String → ℕ

-- `lastUsedThrottle`, in seconds
abbrev pub last_used_throttle : ℕ
last_used_throttle = 60

-- `now - lastTouch[id] >= lastUsedThrottle`
abbrev pub is_stamp_due : LastTouch → String → ℕ → Bool
is_stamp_due last id now = leb_ℤ (pos last_used_throttle) (sub_ℕ now (last id))

abbrev pub mark : String → ℕ → LastTouch → LastTouch
mark id now last x = if str_eq x id then now else last x

-- `delete(lastTouch, id)`
abbrev pub evict : String → LastTouch → LastTouch
evict id last = mark id 0 last

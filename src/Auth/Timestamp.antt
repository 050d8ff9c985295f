-- ===== src/Auth/Timestamp.antt =====
-- The parsing of the request's timestamp, and the drift that is allowed (internal/auth/hmac.go).
use Prim.Native.Char.{code}
use diyddns.Prelude.{
  ℕ, ◌+◌, ◌*◌, ◌-◌, ◌/◌, ◌^◌, ◌≤◌, ◌<◌, String, Bool, true, false, ◌&&◌, ◌||◌, ◌≡◌, List, [], ◌∷◌,
  Option, none, some, leb, ltb, ◌==◌, if◌then◌else◌, arith,
}
use diyddns.Prelude.Int.{
  ℤ, pos, negsuc, pos_part, neg_part, neg_ℕ, sub_ℤ, add_ℤ, ltb_ℤ, leb_ℤ, wrap64, Int64,
}

abbrev codes : String → List ℕ
codes String.[] = []
codes (String.◌∷◌ c s) = code c ∷ codes s

-- The value of decimal digits after those read so far.
abbrev digits : ℕ → List ℕ → Option ℕ
digits n [] = some n
digits n (c ∷ cs) =
    let rest = digits (n * 10 + (c - 48)) cs in if leb 48 c && leb c 57 then rest else none

-- At least one digit.
abbrev unsigned : List ℕ → Option ℕ
unsigned [] = none
unsigned (c ∷ cs) = digits 0 (c ∷ cs)

abbrev in_range : Bool → Option ℕ → Option ℤ
in_range neg none = none
in_range false (some n) = if ltb n (2 ^ 63) then some (pos n) else none
in_range true (some n) = if leb n (2 ^ 63) then some (neg_ℕ n) else none

abbrev signed : List ℕ → Option ℤ
signed [] = none
signed (c ∷ cs) =
    if c == 43
    then in_range false (unsigned cs)
    else if c == 45
    then in_range true (unsigned cs)
    else in_range false (unsigned (c ∷ cs))

-- `strconv.ParseInt(s, 10, 64)`
unfoldable pub parse_int : String → Option ℤ
parse_int s = signed (codes s)

-- `int64(d.Seconds())`, for a duration in nanoseconds.
abbrev pub seconds : ℕ → ℕ
seconds d = d / 1000000000

-- `d := now - ts; d > skew || d < -skew`
unfoldable pub out_of_skew : ℕ → ℤ → ℕ → Bool
out_of_skew now ts skew =
    let d = wrap64 (sub_ℤ (pos now) ts) in
    ltb_ℤ (pos (seconds skew)) d || ltb_ℤ d (neg_ℕ (seconds skew))

-- `ts + int64(v.nonceTTL.Seconds())`
unfoldable pub nonce_expiry : ℤ → ℕ → ℤ
nonce_expiry ts nonce_ttl = wrap64 (add_ℤ ts (pos (seconds nonce_ttl)))

in_range-Int64 : (neg : Bool) (o : Option ℕ) (ts : ℤ) → in_range neg o ≡ some ts → Int64 ts
in_range-Int64 neg none ts h = absurd (ground arith)
in_range-Int64 false (some n) ts h = ground arith
in_range-Int64 true (some n) ts h = ground arith

-- The timestamp and the clock are at most the skew apart.
abbrev pub Drift : ℕ → ℤ → ℕ → Type 0
Drift now ts s = (now + neg_part ts ≤ pos_part ts + s) × (pos_part ts ≤ now + neg_part ts + s)

pub out_of_skew-Drift :
    (now : ℕ) (ts : ℤ) (skew : ℕ)
    → now < 2 ^ 62
    → skew < 2 ^ 63
    → Int64 ts
    → out_of_skew now ts skew ≡ false
    → Drift now ts (seconds skew)
unfolding out_of_skew
out_of_skew-Drift now (pos n) skew hn hs ht h = ground arith
out_of_skew-Drift now (negsuc n) skew hn hs ht h = ground arith

pub parse_int-Int64 : (s : String) (ts : ℤ) → parse_int s ≡ some ts → Int64 ts
unfolding parse_int
parse_int-Int64 s ts h = signed-Int64 (codes s) ts h
  where
    signed-Int64 : (cs : List ℕ) (ts : ℤ) → signed cs ≡ some ts → Int64 ts
    signed-Int64 [] ts h = absurd (ground arith)
    signed-Int64 (c ∷ cs) ts h = ground (
      arith,
      in_range-Int64 false (unsigned cs) ts,
      in_range-Int64 true (unsigned cs) ts,
      in_range-Int64 false (unsigned (c ∷ cs)) ts,
    )

-- A signature that is accepted at `now` is still recorded at `now`, where it is kept for as long as
-- the skew.
pub nonce_expiry-Drift :
    (now : ℕ) (ts : ℤ) (skew nonce_ttl : ℕ)
    → now < 2 ^ 62
    → skew ≤ nonce_ttl
    → nonce_ttl < 2 ^ 63
    → Drift now ts (seconds skew)
    → leb_ℤ (pos now) (nonce_expiry ts nonce_ttl) ≡ true
unfolding nonce_expiry
nonce_expiry-Drift now (pos n) skew ttl hn hs ht h = ground arith
nonce_expiry-Drift now (negsuc n) skew ttl hn hs ht h = ground arith

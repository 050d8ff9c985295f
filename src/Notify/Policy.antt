-- ===== src/Notify/Policy.antt =====
-- The destination policy of notifications (internal/server/notify/policy.go). An address of
-- net/netip is a number of 32 or 128 bits and a zone.
pub mod Verdicts
use diyddns.Prelude.{
  ℕ, ◌+◌, ◌-◌, ◌*◌, ◌/◌, ◌^◌, String, Bool, true, false, not, ◌&&◌, ◌||◌, List, [], ◌∷◌, Option,
  none, some, str_eq, ◌==◌, leb, ltb, if◌then◌else◌, find_where,
}

pub record Address : Type 0 where
  pub is4 : Bool
  pub value : ℕ
  pub zone : String

-- A prefix: the first address and the number of its leading bits that count.
pub record Prefix : Type 0 where
  pub is4 : Bool
  pub base : ℕ
  pub bits : ℕ

abbrev pub width : Bool → ℕ
width true = 32
width false = 128

abbrev octets : ℕ → ℕ → ℕ → ℕ → ℕ
octets a b c d = ((a * 256 + b) * 256 + c) * 256 + d

abbrev hextets : ℕ → ℕ → ℕ → ℕ → ℕ → ℕ → ℕ → ℕ → ℕ
hextets a b c d e f g h =
    ((((((a * 65536 + b) * 65536 + c) * 65536 + d) * 65536 + e) * 65536 + f) * 65536 + g) * 65536
    + h

abbrev v4 : ℕ → ℕ → ℕ → ℕ → ℕ → Prefix
v4 a b c d bits = record { is4 = true; base = octets a b c d; bits = bits }

abbrev v6 : ℕ → ℕ → ℕ → ℕ → ℕ → ℕ → ℕ → ℕ → ℕ → Prefix
v6 a b c d e f g h bits = record { is4 = false; base = hextets a b c d e f g h; bits = bits }

abbrev pub same_family : Bool → Bool → Bool
same_family true b = b
same_family false b = not b

-- `Prefix.Contains`: false for an address with a zone or of the other family.
abbrev pub contains : Address → Prefix → Bool
contains a p =
    str_eq a.zone ""
    && same_family a.is4 p.is4
    && a.value / 2 ^ (width p.is4 - p.bits) == p.base / 2 ^ (width p.is4 - p.bits)

-- `denied`
unfoldable pub denied : List Prefix
denied =
    v4 0 0 0 0 8
    ∷ v4 10 0 0 0 8
    ∷ v4 100 64 0 0 10
    ∷ v4 127 0 0 0 8
    ∷ v4 169 254 0 0 16
    ∷ v4 172 16 0 0 12
    ∷ v4 192 0 0 0 24
    ∷ v4 192 0 2 0 24
    ∷ v4 192 31 196 0 24
    ∷ v4 192 52 193 0 24
    ∷ v4 192 88 99 0 24
    ∷ v4 192 168 0 0 16
    ∷ v4 192 175 48 0 24
    ∷ v4 198 18 0 0 15
    ∷ v4 198 51 100 0 24
    ∷ v4 203 0 113 0 24
    ∷ v4 240 0 0 0 4
    ∷ v6 0 0 0 0 0 0 0 1 128
    ∷ v6 0 0 0 0 0 0 0 0 128
    ∷ v6 0 0 0 0 0 65535 0 0 96
    ∷ v6 100 65435 0 0 0 0 0 0 96
    ∷ v6 100 65435 1 0 0 0 0 0 48
    ∷ v6 256 0 0 0 0 0 0 0 64
    ∷ v6 256 0 0 1 0 0 0 0 64
    ∷ v6 8193 0 0 0 0 0 0 0 23
    ∷ v6 8193 3512 0 0 0 0 0 0 32
    ∷ v6 8194 0 0 0 0 0 0 0 16
    ∷ v6 9760 79 32768 0 0 0 0 0 48
    ∷ v6 16383 0 0 0 0 0 0 0 20
    ∷ v6 24320 0 0 0 0 0 0 0 16
    ∷ v6 64512 0 0 0 0 0 0 0 7
    ∷ v6 65152 0 0 0 0 0 0 0 10
    ∷ v6 0 0 0 0 0 0 0 0 96
    ∷ v6 65216 0 0 0 0 0 0 0 10
    ∷ v6 0 0 0 0 65535 0 0 0 96
    ∷ []

-- ::ffff:0:0
abbrev pub mapped_base : ℕ
mapped_base = 65535 * 2 ^ 32

abbrev pub is_mapped : Address → Bool
is_mapped a = not a.is4 && a.value / 2 ^ 32 == 65535

-- `Addr.Unmap`
abbrev pub unmap : Address → Address
unmap a = if is_mapped a then record { is4 = true; value = a.value - mapped_base; zone = "" } else a

-- `Addr.IsLoopback` of an unmapped address
abbrev pub is_loopback : Address → Bool
is_loopback a = if a.is4 then a.value / 2 ^ 24 == 127 else a.value == 1

-- `Addr.IsMulticast`, `Addr.IsLinkLocalUnicast`
abbrev is_multicast : Address → Bool
is_multicast a = if a.is4 then a.value / 2 ^ 28 == 14 else a.value / 2 ^ 120 == 255

abbrev is_link_local : Address → Bool
is_link_local a = if a.is4 then a.value / 2 ^ 16 == 43518 else a.value / 2 ^ 118 == 1018

-- The unspecified address and, of IPv4, the broadcast address
abbrev is_special : Address → Bool
is_special a = a.value == 0 || a.is4 && a.value == 2 ^ 32 - 1

-- `Addr.IsGlobalUnicast`
unfoldable pub is_global_unicast : Address → Bool
is_global_unicast a =
    not (is_special a) && not (is_loopback a) && not (is_multicast a) && not (is_link_local a)

-- `matchPrefix`, `containsAddr`
unfoldable pub match_prefix : List Prefix → Address → Option Prefix
match_prefix ps a = find_where (contains a) ps

abbrev pub found_prefix : Option Prefix → Bool
found_prefix none = false
found_prefix (some p) = true

unfoldable pub contains_addr : List Prefix → Address → Bool
unfolding match_prefix
contains_addr ps a = found_prefix (match_prefix ps a)

-- The ways `ErrDenied` is wrapped.
pub data Verdict : Type 0 where
  permitted zoned not_global http_not_loopback unsupported_scheme : Verdict
  denied_by : Prefix → Verdict

abbrev pub by_scheme : String → Address → Verdict
by_scheme scheme a =
    if str_eq scheme "https"
    then permitted
    else if str_eq scheme "http"
    then (if is_loopback a then permitted else http_not_loopback)
    else unsupported_scheme

abbrev pub by_table : Option Prefix → String → Address → Verdict
by_table (some p) scheme a = denied_by p
by_table none scheme a = by_scheme scheme a

abbrev pub judge : List Prefix → String → Address → Verdict
judge allowed scheme a =
    if contains_addr allowed a
    then by_scheme scheme a
    else if not (is_global_unicast a)
    then not_global
    else by_table (match_prefix denied a) scheme a

-- `Permit`
unfoldable pub permit : String → Address → List Prefix → Verdict
unfolding denied
permit scheme a allowed = if not (str_eq a.zone "") then zoned else judge allowed scheme (unmap a)

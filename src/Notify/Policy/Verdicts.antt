-- ===== src/Notify/Policy/Verdicts.antt =====
-- What the destination policy lets through (internal/server/notify/policy.go).
use diyddns.Prelude.{
  ℕ, ◌+◌, ◌^◌, ◌<◌, String, Bool, true, false, not, ◌≡◌, refl, sym, ap, ◌∙◌, List, [], ◌∷◌, ◌++◌,
  str_eq, if◌then◌else◌, find_where, exists, arith,
}
use diyddns.Notify.Policy.{
  Address, Prefix, contains, denied, mapped_base, unmap, is_loopback, is_global_unicast,
  match_prefix, contains_addr, permitted, zoned, by_scheme, found_prefix, judge, permit,
}

abbrev pub mapped : ℕ → Address
mapped n = record { is4 = false; value = mapped_base + n; zone = "" }

abbrev pub plain : ℕ → Address
plain n = record { is4 = true; value = n; zone = "" }

unmap-mapped : (n : ℕ) → n < 2 ^ 32 → unmap (mapped n) ≡ plain n
unmap-mapped n h = ground arith

-- An IPv4 address and its IPv4-mapped IPv6 form get the same verdict, for every scheme and under every
-- list of allowed prefixes.
pub permit-mapped :
    (scheme : String) (n : ℕ) (allowed : List Prefix)
    → n < 2 ^ 32
    → permit scheme (mapped n) allowed ≡ permit scheme (plain n) allowed
unfolding permit
permit-mapped scheme n allowed h = ap (judge allowed scheme) (unmap-mapped n h)

find_where-exists :
    (p : Prefix → Bool) (ps : List Prefix) → found_prefix (find_where p ps) ≡ exists p ps
find_where-exists p [] = refl
find_where-exists p (x ∷ xs) = ground (arith, find_where-exists p xs)

-- A loopback address is not global.
https_only :
    (scheme : String) (a : Address)
    → by_scheme scheme a ≡ permitted
    → is_loopback a ≡ false
    → str_eq scheme "https" ≡ true
https_only scheme a h l = ground arith

judged_public :
    (scheme : String) (a : Address)
    → judge [] scheme a ≡ permitted
    → (is_global_unicast a ≡ true)
      × (found_prefix (match_prefix denied a) ≡ false)
      × (by_scheme scheme a ≡ permitted)
unfolding contains_addr match_prefix
judged_public scheme a h = ground arith

global_loopback : (a : Address) → is_global_unicast a ≡ true → is_loopback a ≡ false
unfolding is_global_unicast
global_loopback a h = ground arith

-- Without allowed prefixes, an address that is let through has no zone, is global unicast and lies in
-- none of the denied prefixes once it is unmapped, and the scheme is https: nothing is reached in the
-- clear, and no private, local or special address at all.
pub permit_public :
    (scheme : String) (a : Address)
    → permit scheme a [] ≡ permitted
    → (str_eq a.zone "" ≡ true)
      × (is_global_unicast (unmap a) ≡ true)
      × (exists (contains (unmap a)) denied ≡ false)
      × (str_eq scheme "https" ≡ true)
unfolding permit match_prefix
permit_public scheme a h = zone_free (str_eq a.zone "") refl h
  where
    zone_free :
        (b : Bool)
        → str_eq a.zone "" ≡ b
        → (if not b then zoned else judge [] scheme (unmap a)) ≡ permitted
        → (str_eq a.zone "" ≡ true)
          × (is_global_unicast (unmap a) ≡ true)
          × (exists (contains (unmap a)) denied ≡ false)
          × (str_eq scheme "https" ≡ true)
    zone_free false e h = absurd (ground arith)
    zone_free true e h =
        let (global, free, scheme_ok) = judged_public scheme (unmap a) h in
        (
          e,
          global,
          sym (find_where-exists (contains (unmap a)) denied) ∙ free,
          https_only scheme (unmap a) scheme_ok (global_loopback (unmap a) global),
        )

contains_addr-append :
    (xs ys : List Prefix) (a : Address)
    → contains_addr xs a ≡ true
    → contains_addr (xs ++ ys) a ≡ true
unfolding contains_addr match_prefix
contains_addr-append [] ys a h = absurd (ground arith)
contains_addr-append (x ∷ xs) ys a h = ground (arith, contains_addr-append xs ys a)

judged_more :
    (scheme : String) (a : Address) (allowed more : List Prefix)
    → judge allowed scheme a ≡ permitted
    → judge (allowed ++ more) scheme a ≡ permitted
judged_more scheme a allowed more h = ground (arith, contains_addr-append allowed more a)

-- A longer list of allowed prefixes never refuses what a shorter one let through.
pub permit-append :
    (scheme : String) (a : Address) (allowed more : List Prefix)
    → permit scheme a allowed ≡ permitted
    → permit scheme a (allowed ++ more) ≡ permitted
unfolding permit
permit-append scheme a allowed more h = ground (arith, judged_more scheme (unmap a) allowed more)

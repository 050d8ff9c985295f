-- ===== src/Client/Discovery.antt =====
-- Public-IP discovery by a quorum of providers (internal/client/ipdiscovery/discover.go).
pub mod Quorum
use diyddns.Prelude.{
  ℕ, zero, suc, ◌+◌, Bool, true, false, not, ◌&&◌, List, [], ◌∷◌, Option, none, some, ltb, leb,
  ◌==◌, if◌then◌else◌, ite, length,
}

-- The outcome of `NewDiscoverer`: the first check that fails.
pub data QuorumError : Type 0 where
  too_small v4_exceeds v6_exceeds : QuorumError

-- `Discoverer`; the providers of a family are known by their number here, `per_req` is in
-- nanoseconds as a signed number would be, so 0 stands for every value that is not positive.
pub record Discoverer : Type 0 where
  pub v4_count : ℕ
  pub v6_count : ℕ
  pub quorum : ℕ
  pub per_req : ℕ

pub data NewResult : Type 0 where
  created : Discoverer → NewResult
  refused : QuorumError → NewResult

abbrev default_per_req : ℕ
default_per_req = 5000000000

unfoldable pub new_discoverer : ℕ → ℕ → ℕ → ℕ → NewResult
new_discoverer v4 v6 quorum per_req =
    if ltb quorum 1
    then refused too_small
    else if ltb 0 v4 && ltb v4 quorum
    then refused v4_exceeds
    else if ltb 0 v6 && ltb v6 quorum
    then refused v6_exceeds
    else created (record {
      v4_count = v4;
      v6_count = v6;
      quorum = quorum;
      per_req = if per_req == 0 then default_per_req else per_req;
    })

module _ {A : Type 0} (eq : Discrete A) where
  -- A lookup that failed, or that returned an invalid address, sends nothing to the channel.
  unfoldable pub collect : List (Option A) → List A
  collect [] = []
  collect (none ∷ os) = collect os
  collect (some a ∷ os) = a ∷ collect os

  -- `counts[a]++`
  unfoldable pub bump : A → List (A × ℕ) → List (A × ℕ)
  bump a [] = (a, 1) ∷ []
  bump a ((b, n) ∷ m) = ite (eq a b) ((b, n + 1) ∷ m) ((b, n) ∷ bump a m)

  unfoldable pub tally : List A → List (A × ℕ) → List (A × ℕ)
  tally [] m = m
  tally (a ∷ addrs) m = tally addrs (bump a m)

-- The variables `top`, `winner` and `tie` of the loop over the counts.
pub record Scan (A : Type 0) : Type 0 where
  pub top : ℕ
  pub winner : Option A
  pub tie : Bool

module _ {A : Type 0} where
  unfoldable pub scan_start : Scan A
  scan_start = record { top = 0; winner = none; tie = false }

  unfoldable pub scan_step : Scan A → A × ℕ → Scan A
  scan_step s (a, n) =
      if ltb s.top n
      then record { top = n; winner = some a; tie = false }
      else if n == s.top
      then record s { tie = true }
      else s

  unfoldable pub scan : Scan A → List (A × ℕ) → Scan A
  scan s [] = s
  scan s (e ∷ es) = scan (scan_step s e) es

  -- The result for the counts in the order in which the map is walked: `none` is `Result{}`.
  unfoldable pub pick : ℕ → List (A × ℕ) → Option A
  unfolding scan scan_start
  pick quorum entries =
      let s = scan scan_start entries in if leb quorum s.top && not s.tie then s.winner else none

module _ {A : Type 0} (eq : Discrete A) where
  -- `discoverFamily`: `answers` are the providers' outcomes in the order in which they arrive, and
  -- `walk` is the order in which Go walks the map.
  unfoldable pub discover_family : (List (A × ℕ) → List (A × ℕ)) → ℕ → List (Option A) → Option A
  discover_family walk quorum [] = none
  discover_family walk quorum (o ∷ os) = pick quorum (walk (tally eq (collect eq (o ∷ os)) []))

-- ===== src/Client/Poller.antt =====
-- The reporting loop (internal/client/poller/poller.go). Durations are nanoseconds, an int64 held as
-- its bit pattern.
pub mod Backoff
pub mod Rejection
use Prim.Native.String.{String}
use diyddns.Prelude.{
  ℕ, zero, suc, ◌+◌, ◌*◌, ◌%◌, ◌^◌, Bool, true, false, not, ◌&&◌, ◌||◌, List, [], ◌∷◌, Option, none,
  some, ltb, leb, ◌==◌, if◌then◌else◌,
}

-- What one discover and check-in cycle returned: `ErrNoQuorum` and `ErrServer` are `failed`.
pub data CycleError : Type 0 where
  no_quorum unauthorized server_error : CycleError

pub record Report : Type 0 where
  pub ipv4 : String
  pub ipv6 : String
  pub hostname : String
  pub os : String
  pub client_version : String

pub record Poller : Type 0 where
  pub interval : ℕ
  pub hostname : String
  pub os : String
  pub client_ver : String

abbrev pub second : ℕ
second = 1000000000

abbrev pub default_interval : ℕ
default_interval = 5 * (60 * second)

-- `a < b` on the bit patterns of two int64.
abbrev pub ltb_int64 : ℕ → ℕ → Bool
ltb_int64 a b = ltb ((a + 2 ^ 63) % 2 ^ 64) ((b + 2 ^ 63) % 2 ^ 64)

abbrev pub min_int64 : ℕ → ℕ → ℕ
min_int64 a b = if ltb_int64 b a then b else a

-- `New`: an interval that is not positive is replaced.
unfoldable pub new : ℕ → String → String → String → Poller
new interval hostname os client_ver = record {
  interval = if ltb_int64 0 interval then interval else default_interval;
  hostname = hostname;
  os = os;
  client_ver = client_ver;
}

abbrev or_empty : Option String → String
or_empty none = ""
or_empty (some a) = a

-- The report of `RunOnce`: the families that reached quorum, and nothing for the others.
unfoldable pub report : Poller → Option String → Option String → Report
report p v4 v6 = record {
  ipv4 = or_empty v4;
  ipv6 = or_empty v6;
  hostname = p.hostname;
  os = p.os;
  client_version = p.client_ver;
}

-- `RunOnce`: the result of discovery, and the check-in as a function of the report.
unfoldable pub run_once :
    Poller → Option String → Option String → (Report → Option CycleError) → Option CycleError
unfolding report
run_once p none none checkin = some no_quorum
run_once p none (some v6) checkin = checkin (report p none (some v6))
run_once p (some v4) v6 checkin = checkin (report p (some v4) v6)

-- What the environment does in one round: the cycle's error, whether the context is done after the
-- cycle, the jittered interval (a float computation of the source), and whether the context ends
-- the sleep.
pub record Round : Type 0 where
  pub error : Option CycleError
  pub done : Bool
  pub jittered : ℕ
  pub interrupted : Bool

-- `looping` means that the loop goes on after the rounds that were given.
pub data Outcome : Type 0 where
  stopped credential_rejected looping : Outcome

-- The variables of the loop.
pub record Loop : Type 0 where
  pub backoff : ℕ
  pub unauthorized : ℕ

abbrev pub unauthorized_limit : ℕ
unauthorized_limit = 3

unfoldable pub next_backoff : ℕ → ℕ → ℕ
next_backoff cur interval =
    if cur == 0 then min_int64 (30 * second) interval else min_int64 ((cur * 2) % 2 ^ 64) interval

-- What the body of the loop decides before it sleeps.
pub data Decision : Type 0 where
  stop : Outcome → Decision
  sleep : ℕ → Loop → Decision

abbrev count_unauthorized : CycleError → ℕ → ℕ
count_unauthorized unauthorized n = n + 1
count_unauthorized no_quorum n = 0
count_unauthorized server_error n = 0

abbrev is_unauthorized : CycleError → Bool
is_unauthorized unauthorized = true
is_unauthorized no_quorum = false
is_unauthorized server_error = false

on_error : ℕ → Loop → CycleError → Decision
on_error interval l e =
    let n = count_unauthorized e l.unauthorized in
    let backoff = next_backoff l.backoff interval in
    if is_unauthorized e && leb unauthorized_limit n
    then stop credential_rejected
    else sleep backoff (record { backoff = backoff; unauthorized = n })

unfoldable pub decide : ℕ → Loop → Round → Decision
unfolding on_error
decide interval l r = if r.done then stop stopped else elim r.error [
  | none ↦ sleep r.jittered (record { backoff = 0; unauthorized = 0 })
  | some e ↦ on_error interval l e
]

-- The rounds until the loop returns: the sleeps that were started, and how it ended.
unfoldable pub run_from : ℕ → Loop → List Round → List ℕ × Outcome
run_from interval l [] = ([], looping)
run_from interval l (r ∷ rs) = elim (decide interval l r) [
  | stop o ↦ ([], o)
  | sleep d l' ↦
      let rest = run_from interval l' rs in
      if r.interrupted then (d ∷ [], stopped) else (d ∷ rest.0, rest.1)
]

unfoldable pub run : Poller → List Round → List ℕ × Outcome
unfolding run_from
run p rs = run_from p.interval (record { backoff = 0; unauthorized = 0 }) rs

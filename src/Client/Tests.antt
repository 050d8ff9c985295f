-- ===== src/Client/Tests.antt =====
-- Runs of the client's loop and of its discovery, and instances of what is proved of them.
use diyddns.Prelude.{
  ℕ, false, ◌*◌, ◌≡◌, ◌↔◌, refl, List, [], ◌∷◌, Option, none, some, arith, ℕ_discrete,
}
use diyddns.Client.Discovery.{
  discover_family, collect, tally, bump, scan_step, pick, new_discoverer, refused, v4_exceeds,
}
use diyddns.Client.Discovery.Quorum.{count, Wins, discover_family-Wins}
use diyddns.Client.Poller.{
  Round, Poller, CycleError, no_quorum, unauthorized, server_error, credential_rejected, looping,
  run, decide, next_backoff, second,
}
use diyddns.Client.Poller.Rejection.{ThreeInARow, run_rejects}
use diyddns.Client.Poller.Backoff.{run-Fails}

abbrev answers : List (Option ℕ)
answers = some 7 ∷ none ∷ some 9 ∷ some 7 ∷ []

quorum_met : discover_family ℕ_discrete (λ m. m) 2 answers ≡ some 7
unfolding discover_family pick collect tally bump scan_step ℕ_discrete
quorum_met = refl

quorum_tied : discover_family ℕ_discrete (λ m. m) 1 (some 7 ∷ some 9 ∷ []) ≡ none
unfolding discover_family pick collect tally bump scan_step ℕ_discrete
quorum_tied = refl

quorum_too_large : new_discoverer 3 0 4 0 ≡ refused v4_exceeds
unfolding new_discoverer
quorum_too_large = refl

discover_family-Wins_example :
    (discover_family ℕ_discrete (λ m. m) 2 answers ≡ some 7)
    ↔ Wins ℕ_discrete (λ b. count ℕ_discrete b (collect ℕ_discrete answers)) 2 7
discover_family-Wins_example =
    discover_family-Wins ℕ_discrete (λ m. m) 2 answers 7 (omega arith) (λ f m e. e)

abbrev agent : Poller
agent = record { interval = 300 * second; hostname = "nas"; os = "linux"; client_ver = "v1" }

abbrev round : Option CycleError → Round
round e = record { error = e; done = false; jittered = 290 * second; interrupted = false }

abbrev rejected_rounds : List Round
rejected_rounds =
    round none
    ∷ round (some unauthorized)
    ∷ round (some unauthorized)
    ∷ round (some server_error)
    ∷ round (some unauthorized)
    ∷ round (some unauthorized)
    ∷ round (some unauthorized)
    ∷ round none
    ∷ []

rejected_run : run agent rejected_rounds ≡ (
  (290 * second)
      ∷ (30 * second)
      ∷ (60 * second)
      ∷ (120 * second)
      ∷ (240 * second)
      ∷ (300 * second)
      ∷ [],
  credential_rejected,
)
unfolding run decide next_backoff
rejected_run = refl

run_rejects_example :
    ((run agent rejected_rounds).1 ≡ credential_rejected) ↔ ThreeInARow rejected_rounds
run_rejects_example = run_rejects agent rejected_rounds

abbrev failing_rounds : List Round
failing_rounds = round (some no_quorum) ∷ round (some server_error) ∷ round (some no_quorum) ∷ []

run-Fails_example :
    run agent failing_rounds ≡ ((30 * second) ∷ (60 * second) ∷ (120 * second) ∷ [], looping)
run-Fails_example = run-Fails agent failing_rounds (omega arith) (omega arith) (ground arith)

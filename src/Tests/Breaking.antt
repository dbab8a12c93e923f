-- ===== src/Tests/Breaking.antt =====
-- A circuit breaker that opens after two failures, and the theorems on it.
use var_track.Prelude.{true, false, [], ◌∷◌, ◌≡◌, refl}
use var_track.Breaker.{
  Config, Breaker, new_breaker, transition_to, opened, allow, record_failure, suc_int, ltb_int,
}
use var_track.Breaker.Runs.{asks, succeeds, fails, run}
use var_track.Breaker.Opening.{run-Recovers, Recovers, probes}
use var_track.Breaker.Counts.{HasCounts, run-HasCounts}
use var_track.Breaker.Probes.{Reached, starts, fails_closed, probes_opened}

abbrev config : Config
config = record {
  failure_threshold = 2;
  success_threshold = 2;
  open_duration = 30;
  half_open_max = 1;
}

abbrev tested : Breaker
tested = record new_breaker { failure_count = 1 }

-- The circuit after its time is over lets one request through.
opens_again : (run config (fails 10 ∷ asks 41 ∷ asks 41 ∷ []) tested).1 ≡ true ∷ false ∷ []
unfolding run allow record_failure ltb_int suc_int
opens_again = refl

run-Recovers_example :
    Recovers config 0
      (41 ∷ 42 ∷ [])
      (run config (probes config (41 ∷ 42 ∷ [])) (transition_to opened new_breaker))
run-Recovers_example =
    run-Recovers config 41 (42 ∷ []) (transition_to opened new_breaker) refl refl refl refl

run-HasCounts_example :
    HasCounts config (run config (fails 10 ∷ fails 11 ∷ asks 50 ∷ succeeds ∷ []) new_breaker).0
run-HasCounts_example =
    run-HasCounts config (fails 10 ∷ fails 11 ∷ asks 50 ∷ succeeds ∷ []) new_breaker (refl, refl)
      refl

-- Two failures open the circuit; at 50 it lets a request through.
abbrev tripped : Breaker
unfolding record_failure
tripped = record_failure config 11 (record_failure config 10 new_breaker)

tripped-Reached : Reached config tripped 0
unfolding record_failure
tripped-Reached = fails_closed 11 (fails_closed 10 starts refl) refl

probing-Reached : Reached config (allow config 50 tripped).0 1
unfolding record_failure allow
probing-Reached = probes_opened 50 tripped-Reached refl refl

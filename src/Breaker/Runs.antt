-- ===== src/Breaker/Runs.antt =====
-- Runs of a circuit breaker: lists of calls, each with its time.
use var_track.Prelude.{ℕ, Bool, List, [], ◌∷◌}
use var_track.Breaker.{Config, Breaker, allow, record_success, record_failure}

pub data Call : Type 0 where
  asks : ℕ → Call
  succeeds : Call
  fails : ℕ → Call

module _ (c : Config) where
  -- The breaker after a run, and the answers of its `allow` calls.
  unfoldable pub run : List Call → Breaker → Breaker × List Bool
  run [] b = (b, [])
  run (asks now ∷ calls) b =
      let (b', answer) = allow c now b in
      let (b'', answers) = run calls b' in (b'', answer ∷ answers)
  run (succeeds ∷ calls) b = run calls (record_success c b)
  run (fails now ∷ calls) b = run calls (record_failure c now b)

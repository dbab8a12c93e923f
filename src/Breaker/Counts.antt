-- ===== src/Breaker/Counts.antt =====
-- The counters of the circuit breaker.
use var_track.Prelude.{
  ℕ, suc, ◌+◌, Bool, true, false, List, [], ◌∷◌, ◌≡◌, ltb, leb, arith, refl, if-cases, ◌&&◌,
}
use var_track.Breaker.{
  ℤ, pos, negsuc, ltb_int, CircuitState, closed, opened, half_open, Config, Breaker, allow,
  record_success, record_failure, check_allow, success_in, failure_in,
}
use var_track.Breaker.Runs.{Call, asks, succeeds, fails, run}

-- No request is counted as let through.
abbrev pub is_none : ℤ → Bool
is_none (pos n) = leb n 0
is_none (negsuc n) = false

-- The counters stay below their thresholds: at one the circuit changes state and counts from 0.
abbrev pub counts : Config → CircuitState → Breaker → Bool
counts c closed b =
    ltb b.failure_count c.failure_threshold
    && (leb b.success_count 0 && is_none b.half_open_allowed)
counts c opened b = leb b.failure_count 0 && (leb b.success_count 0 && is_none b.half_open_allowed)
counts c half_open b = ltb b.success_count c.success_threshold && leb b.failure_count 0

-- Both thresholds are at least 1.
abbrev pub IsSound : Config → Type 0
IsSound c = (ltb 0 c.failure_threshold ≡ true) × (ltb 0 c.success_threshold ≡ true)

abbrev pub HasCounts : Config → Breaker → Type 0
HasCounts c b = counts c b.state b ≡ true

module _ (c : Config) where
  check_allow-HasCounts :
      (s : CircuitState) (now : ℕ) (b : Breaker)
      → IsSound c
      → b.state ≡ s
      → counts c s b ≡ true
      → HasCounts c (check_allow c s now b).0
  check_allow-HasCounts closed now b (p, q) e h = rw e h
  check_allow-HasCounts opened now b (p, q) e h =
      if-cases (λ (o : Breaker × Bool). HasCounts c o.0)
        (ltb (b.last_failure_time + c.open_duration) now) _ _ (λ _. ground (arith, q)) (λ _. rw e h)
  check_allow-HasCounts half_open now b (p, q) e h =
      if-cases (λ (o : Breaker × Bool). HasCounts c o.0)
        (ltb_int b.half_open_allowed c.half_open_max) _ _ (λ _. rw e h) (λ _. rw e h)

  success_in-HasCounts :
      (s : CircuitState) (b : Breaker)
      → IsSound c
      → b.state ≡ s
      → counts c s b ≡ true
      → HasCounts c (success_in c s b)
  success_in-HasCounts closed b (p, q) e h = rw e (ground (arith, p, h))
  success_in-HasCounts opened b (p, q) e h = rw e h
  success_in-HasCounts half_open b (p, q) e h =
      if-cases (HasCounts c) (leb c.success_threshold (suc b.success_count)) _ _
        (λ _. ground (arith, p)) (λ few. rw e (ground (arith, few, h)))

  failure_in-HasCounts :
      (s : CircuitState) (now : ℕ) (b : Breaker)
      → IsSound c
      → b.state ≡ s
      → counts c s b ≡ true
      → HasCounts c (failure_in c s now b)
  failure_in-HasCounts closed now b (p, q) e h =
      if-cases (HasCounts c) (leb c.failure_threshold (suc b.failure_count)) _ _ (λ _. refl)
        (λ few. rw e (ground (arith, few, h)))
  failure_in-HasCounts opened now b (p, q) e h = rw e h
  failure_in-HasCounts half_open now b (p, q) e h = refl

  -- With thresholds of at least 1, whatever is called from a state that has this: a closed circuit has counted
  -- fewer failures than `failure_threshold`, and its two other counters are 0; an open one's three counters are
  -- 0; a half-open one has counted fewer successes than `success_threshold`, and no failures.
  pub run-HasCounts :
      (calls : List Call) (b : Breaker) → IsSound c → HasCounts c b → HasCounts c (run c calls b).0
  unfolding run allow record_success record_failure
  run-HasCounts [] b p h = h
  run-HasCounts (asks now ∷ calls) b p h =
      run-HasCounts calls (allow c now b).0 p (check_allow-HasCounts b.state now b p refl h)
  run-HasCounts (succeeds ∷ calls) b p h =
      run-HasCounts calls (record_success c b) p (success_in-HasCounts b.state b p refl h)
  run-HasCounts (fails now ∷ calls) b p h =
      run-HasCounts calls (record_failure c now b) p (failure_in-HasCounts b.state now b p refl h)

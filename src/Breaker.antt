-- ===== src/Breaker.antt =====
-- app/utils/circuit_breaker.py: the circuit breaker that keeps requests from a broker that is down. Every
-- method holds the lock, so a run is a list of calls. Times are counted in ticks of the monotonic clock.
pub mod Runs
pub mod Opening
pub mod Counts
pub mod Probes
use var_track.Prelude.{ℕ, zero, suc, ◌+◌, Bool, true, false, ltb, leb, if◌then◌else◌, nat_eq}

-- Python's integers, for the one counter that may fall below 0.
pub data ℤ : Type 0 where
  pos negsuc : ℕ → ℤ

unfoldable pub suc_int : ℤ → ℤ
suc_int (pos n) = pos (suc n)
suc_int (negsuc zero) = pos 0
suc_int (negsuc (suc n)) = negsuc n

unfoldable pub pred_int : ℤ → ℤ
pred_int (pos zero) = negsuc 0
pred_int (pos (suc n)) = pos n
pred_int (negsuc n) = negsuc (suc n)

-- `i < n`
unfoldable pub ltb_int : ℤ → ℕ → Bool
ltb_int (pos m) n = ltb m n
ltb_int (negsuc m) n = true

-- CLOSED, OPEN and HALF_OPEN
pub data CircuitState : Type 0 where
  closed opened half_open : CircuitState

pub record Config : Type 0 where
  pub failure_threshold : ℕ
  pub success_threshold : ℕ
  pub open_duration : ℕ
  pub half_open_max : ℕ

pub record Breaker : Type 0 where
  pub state : CircuitState
  pub failure_count : ℕ
  pub success_count : ℕ
  pub half_open_allowed : ℤ
  pub last_failure_time : ℕ

-- A new breaker.
abbrev pub new_breaker : Breaker
new_breaker = record {
  state = closed;
  failure_count = 0;
  success_count = 0;
  half_open_allowed = pos 0;
  last_failure_time = 0;
}

abbrev pub transition_to : CircuitState → Breaker → Breaker
transition_to state b = record b {
  state = state;
  failure_count = 0;
  success_count = 0;
  half_open_allowed = pos 0;
}

module _ (c : Config) where
  abbrev pub check_allow : CircuitState → ℕ → Breaker → Breaker × Bool
  check_allow closed now b = (b, true)
  check_allow opened now b =
      if ltb (b.last_failure_time + c.open_duration) now
      then (record (transition_to half_open b) { half_open_allowed = pos 1 }, true)
      else (b, false)
  check_allow half_open now b =
      if ltb_int b.half_open_allowed c.half_open_max
      then (record b { half_open_allowed = suc_int b.half_open_allowed }, true)
      else (b, false)

  -- `now` is `time.monotonic()`.
  unfoldable pub allow : ℕ → Breaker → Breaker × Bool
  allow now b = check_allow b.state now b

  abbrev pub success_in : CircuitState → Breaker → Breaker
  success_in closed b = record b { failure_count = 0 }
  success_in opened b = b
  success_in half_open b =
      let b' = record b {
        half_open_allowed = pred_int b.half_open_allowed;
        success_count = suc b.success_count;
      } in
      if leb c.success_threshold (suc b.success_count) then transition_to closed b' else b'

  unfoldable pub record_success : Breaker → Breaker
  record_success b = success_in b.state b

  abbrev pub failure_in : CircuitState → ℕ → Breaker → Breaker
  failure_in closed now b =
      if leb c.failure_threshold (suc b.failure_count)
      then transition_to opened (record b { last_failure_time = now })
      else record b { failure_count = suc b.failure_count }
  failure_in opened now b = b
  failure_in half_open now b = transition_to opened (record b { last_failure_time = now })

  unfoldable pub record_failure : ℕ → Breaker → Breaker
  record_failure now b = failure_in b.state now b

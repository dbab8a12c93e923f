-- ===== src/Breaker/Opening.antt =====
-- When the circuit opens, how long it refuses, and when it closes again.
use mathlib.Core.Path.{subst}
use var_track.Prelude.{
  ℕ, suc, ◌+◌, Bool, true, false, ◌&&◌, List, [], ◌∷◌, ◌≡◌, ltb, leb, arith, refl, sym, if-cases,
  if◌then◌else◌, any, all, ap, Bool-cases, ◌⊎◌, inl, inr, length,
}
use var_track.Breaker.{
  ℤ, pos, suc_int, ltb_int, CircuitState, closed, opened, half_open, Config, Breaker, allow,
  pred_int, record_success, record_failure, transition_to, check_allow, success_in, failure_in,
}
use var_track.Breaker.Runs.{Call, asks, succeeds, fails, run}

-- From a streak of `n` failures, no run of failures without a success between them reaches `threshold`.
abbrev pub calm : ℕ → ℕ → List Call → Bool
calm threshold n [] = true
calm threshold n (asks now ∷ calls) = calm threshold n calls
calm threshold n (succeeds ∷ calls) = calm threshold 0 calls
calm threshold n (fails now ∷ calls) =
    if leb threshold (suc n) then false else calm threshold (suc n) calls

-- Every `allow` call is made by the time `t`.
abbrev pub asks_by : ℕ → List Call → Bool
asks_by t [] = true
asks_by t (asks now ∷ calls) = leb now t && asks_by t calls
asks_by t (_ ∷ calls) = asks_by t calls

module _ (c : Config) where
  pub allow_in :
      (b : Breaker) (now : ℕ) (s : CircuitState)
      → b.state ≡ s
      → allow c now b ≡ check_allow c s now b
  unfolding allow
  allow_in b now s e = ap (λ s. check_allow c s now b) e

  pub record_success_in :
      (b : Breaker) (s : CircuitState) → b.state ≡ s → record_success c b ≡ success_in c s b
  unfolding record_success
  record_success_in b s e = ap (λ s. success_in c s b) e

  pub record_failure_in :
      (b : Breaker) (now : ℕ) (s : CircuitState)
      → b.state ≡ s
      → record_failure c now b ≡ failure_in c s now b
  unfolding record_failure
  record_failure_in b now s e = ap (λ s. failure_in c s now b) e

  -- A closed circuit without a streak of `failure_threshold` failures stays closed, and lets every request
  -- through.
  pub run-closed :
      (calls : List Call) (b : Breaker)
      → b.state ≡ closed
      → calm c.failure_threshold b.failure_count calls ≡ true
      → ((run c calls b).0.state ≡ closed) × (all (λ x. x) (run c calls b).1 ≡ true)
  unfolding run
  run-closed [] b e h = (e, refl)
  run-closed (asks now ∷ calls) b e h = rw (run, allow_in b now closed e) (run-closed calls b e h)
  run-closed (succeeds ∷ calls) b e h =
      rw (run, record_success_in b closed e) (run-closed calls (record b { failure_count = 0 }) e h)
  run-closed (fails now ∷ calls) b e h =
      rw (run, record_failure_in b now closed e)
        (elim (Bool-cases (leb c.failure_threshold (suc b.failure_count))) [
          | inl many ↦ absurd (ground (arith, many, h))
          | inr few ↦
              rw few (
                run-closed calls (record b { failure_count = suc b.failure_count }) e (rw few at h))
        ])

  -- An open circuit takes no notice of answers, and refuses until its time is over.
  run-opened :
      (calls : List Call) (b : Breaker)
      → b.state ≡ opened
      → asks_by (b.last_failure_time + c.open_duration) calls ≡ true
      → ((run c calls b).0 ≡ b) × (any (λ x. x) (run c calls b).1 ≡ false)
  unfolding run
  run-opened [] b e h = (refl, refl)
  run-opened (asks now ∷ calls) b e h =
      let early : ltb (b.last_failure_time + c.open_duration) now ≡ false = ground (arith, h) in
      let later = run-opened calls b e (ground (arith, h)) in
      rw (run, allow_in b now opened e) (rw early later)
  run-opened (succeeds ∷ calls) b e h =
      rw (run, record_success_in b opened e) (run-opened calls b e h)
  run-opened (fails now ∷ calls) b e h =
      rw (run, record_failure_in b now opened e) (run-opened calls b e h)

  -- The failure that makes a closed circuit's streak `failure_threshold` long opens it; then no request is
  -- let through for `open_duration`, whatever the requests under way answer.
  pub run-opens :
      (calls : List Call) (b : Breaker) (now : ℕ)
      → b.state ≡ closed
      → leb c.failure_threshold (suc b.failure_count) ≡ true
      → asks_by (now + c.open_duration) calls ≡ true
      → ((run c (fails now ∷ calls) b).0.state ≡ opened)
        × (any (λ x. x) (run c (fails now ∷ calls) b).1 ≡ false)
  unfolding run
  run-opens calls b now e many h =
      let b' = transition_to opened (record b { last_failure_time = now }) in
      let (same, refused) = run-opened calls b' refl h in
      rw (run, record_failure_in b now closed e)
        (rw many (ap (λ (x : Breaker). x.state) same, refused))

  -- A request at each of these times, each of which is answered before the next, and succeeds
  abbrev pub probes : List ℕ → List Call
  probes [] = []
  probes (now ∷ times) = asks now ∷ (succeeds ∷ probes times)

  -- What such requests find: each is let through, and the circuit is closed exactly when they were enough.
  abbrev pub Recovers : ℕ → List ℕ → Breaker × List Bool → Type 0
  Recovers n times out =
      (all (λ x. x) out.1 ≡ true)
      × (((leb c.success_threshold (n + length times) ≡ true)
            × (out.0.state ≡ closed)
            × (out.0.failure_count ≡ 0))
          ⊎ ((leb c.success_threshold (n + length times) ≡ false) × (out.0.state ≡ half_open)))

  run-probes_closed :
      (times : List ℕ) (b : Breaker)
      → b.state ≡ closed
      → b.failure_count ≡ 0
      → let out = run c (probes times) b in
        (all (λ x. x) out.1 ≡ true) × (out.0.state ≡ closed) × (out.0.failure_count ≡ 0)
  unfolding run
  run-probes_closed [] b e z = (refl, e, z)
  run-probes_closed (now ∷ times) b e z =
      rw (run, allow_in b now closed e)
        (rw (run, record_success_in b closed e)
          (run-probes_closed times (record b { failure_count = 0 }) e refl))

  -- After a request that was let through, with no other under way
  run-probe :
      (times : List ℕ) (b : Breaker)
      → ((b : Breaker)
          → b.state ≡ half_open
          → b.half_open_allowed ≡ pos 0
          → leb c.success_threshold b.success_count ≡ false
          → Recovers b.success_count times (run c (probes times) b))
      → b.state ≡ half_open
      → b.half_open_allowed ≡ pos 1
      → Recovers b.success_count (0 ∷ times) (run c (succeeds ∷ probes times) b)
  unfolding run pred_int
  run-probe times b ih e one =
      let Ends : Breaker → Type 0 =
        λ b'. Recovers b.success_count (0 ∷ times) (run c (probes times) b') in
      let answered = record b {
        half_open_allowed = pred_int b.half_open_allowed;
        success_count = suc b.success_count;
      } in
      subst Ends (sym (record_success_in b half_open e)) (
        if-cases Ends (leb c.success_threshold (suc b.success_count))
          (transition_to closed answered) answered
          (λ enough.
            let (through, still, fresh) =
              run-probes_closed times (transition_to closed answered) refl refl in
            (through, inl (ground (arith, enough), still, fresh)))
          (λ few.
            let (through, ends) = ih answered e (ap pred_int one) few in (through, one_more ends)))
    where
      one_more :
          {P Q R : Type 0}
          → ((leb c.success_threshold (suc b.success_count + length times) ≡ true) × P × R)
            ⊎ ((leb c.success_threshold (suc b.success_count + length times) ≡ false) × Q)
          → ((leb c.success_threshold (b.success_count + suc (length times)) ≡ true) × P × R)
            ⊎ ((leb c.success_threshold (b.success_count + suc (length times)) ≡ false) × Q)
      one_more (inl (m, still, fresh)) = inl (ground (arith, m), still, fresh)
      one_more (inr (m, rest)) = inr (ground (arith, m), rest)

  run-probes_half_open :
      (times : List ℕ) (b : Breaker)
      → ltb 0 c.half_open_max ≡ true
      → b.state ≡ half_open
      → b.half_open_allowed ≡ pos 0
      → leb c.success_threshold b.success_count ≡ false
      → Recovers b.success_count times (run c (probes times) b)
  unfolding run ltb_int suc_int
  run-probes_half_open [] b room e none few = (refl, inr (ground (arith, few), e))
  run-probes_half_open (now ∷ times) b room e none few =
      let asked = record b { half_open_allowed = suc_int b.half_open_allowed } in
      rw (run, allow_in b now half_open e)
        (rw (let_in b room none)
          (run-probe times asked (λ b'. run-probes_half_open times b' room) e (counted none)))
    where
      let_in :
          (b : Breaker)
          → ltb 0 c.half_open_max ≡ true
          → b.half_open_allowed ≡ pos 0
          → ltb_int b.half_open_allowed c.half_open_max ≡ true
      let_in b room none = rw none room

      counted : {i : ℤ} → i ≡ pos 0 → suc_int i ≡ pos 1
      counted none = ap suc_int none

  -- A circuit recovers: when its open time is over, requests that come one after the other, each answered with
  -- success before the next, are all let through, when half_open_max and success_threshold are at least 1.
  -- After as many as success_threshold the circuit is closed and counts failures from 0, and before it is half
  -- open.
  pub run-Recovers :
      (now : ℕ) (times : List ℕ) (b : Breaker)
      → ltb 0 c.half_open_max ≡ true
      → ltb 0 c.success_threshold ≡ true
      → b.state ≡ opened
      → ltb (b.last_failure_time + c.open_duration) now ≡ true
      → Recovers 0 (now ∷ times) (run c (probes (now ∷ times)) b)
  unfolding run
  run-Recovers now times b room some e over =
      rw (run, allow_in b now opened e)
        (rw over (
          run-probe times (record (transition_to half_open b) { half_open_allowed = pos 1 })
            (λ b'. run-probes_half_open times b' room) refl refl))

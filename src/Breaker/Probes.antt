-- ===== src/Breaker/Probes.antt =====
-- How many requests probe a half-open circuit at once.
use var_track.Prelude.{
  ℕ, suc, ◌+◌, Bool, true, false, ◌≡◌, ltb, leb, arith, refl, ap, if-cases, ◌⊎◌, inl, inr,
}
use var_track.Breaker.{
  new_breaker, pos, suc_int, pred_int, ltb_int, CircuitState, closed, opened, half_open, Config,
  Breaker, allow, record_success, record_failure, check_allow, success_in, failure_in,
}
use var_track.Breaker.Opening.{allow_in, record_success_in}

-- A breaker with the number of requests that it let through since it became half open and that have not
-- answered. No answer of an earlier request comes in while it is half open.
pub data Reached (c : Config) : Breaker → ℕ → Type 0 where
  starts : Reached c new_breaker 0
  -- a request while the circuit is closed, and its answer
  answers_closed :
      {b : Breaker} {n : ℕ} → Reached c b n → b.state ≡ closed → Reached c (record_success c b) 0
  fails_closed :
      {b : Breaker} {n : ℕ} (now : ℕ)
      → Reached c b n
      → b.state ≡ closed
      → Reached c (record_failure c now b) 0
  -- a request that is let through to an open circuit whose time is over, and one that is not
  probes_opened :
      {b : Breaker} {n : ℕ} (now : ℕ)
      → Reached c b n
      → b.state ≡ opened
      → (allow c now b).1 ≡ true
      → Reached c (allow c now b).0 1
  probes :
      {b : Breaker} {n : ℕ} (now : ℕ)
      → Reached c b n
      → b.state ≡ half_open
      → (allow c now b).1 ≡ true
      → Reached c (allow c now b).0 (suc n)
  refuses :
      {b : Breaker} {n : ℕ} (now : ℕ)
      → Reached c b n
      → (allow c now b).1 ≡ false
      → Reached c (allow c now b).0 n
  succeeds_probe :
      {b : Breaker} {n : ℕ}
      → Reached c b (suc n)
      → b.state ≡ half_open
      → Reached c (record_success c b) n
  fails_probe :
      {b : Breaker} {n : ℕ} (now : ℕ)
      → Reached c b (suc n)
      → b.state ≡ half_open
      → Reached c (record_failure c now b) n
  -- an answer that comes while the circuit is open
  answers_opened :
      {b : Breaker} {n : ℕ} → Reached c b n → b.state ≡ opened → Reached c (record_success c b) n
  fails_opened :
      {b : Breaker} {n : ℕ} (now : ℕ)
      → Reached c b n
      → b.state ≡ opened
      → Reached c (record_failure c now b) n

module _ (c : Config) where
  -- What is known of the breaker in a state: only a half-open one counts its probes.
  abbrev Counted : CircuitState → Breaker → ℕ → Type 0
  Counted closed b n = Unit
  Counted opened b n = Unit
  Counted half_open b n = (b.half_open_allowed ≡ pos n) × ((leb n c.half_open_max ≡ true) ⊎ (n ≡ 1))

  refused_same :
      (s : CircuitState) (now : ℕ) (b : Breaker)
      → (check_allow c s now b).1 ≡ false
      → (check_allow c s now b).0 ≡ b
  refused_same closed now b h = ground arith
  refused_same opened now b h = ground arith
  refused_same half_open now b h = ground arith

  opened-Counted :
      (now : ℕ) (b : Breaker)
      → (check_allow c opened now b).1 ≡ true
      → Counted (check_allow c opened now b).0.state (check_allow c opened now b).0 1
  opened-Counted now b =
      if-cases (λ (o : Breaker × Bool). o.1 ≡ true → Counted o.0.state o.0 1)
        (ltb (b.last_failure_time + c.open_duration) now) _ _ (λ _ _. (refl, inr refl))
        (λ _ h. absurd (ground (arith, h)))

  probes-Counted :
      (now n : ℕ) (b : Breaker)
      → b.state ≡ half_open
      → b.half_open_allowed ≡ pos n
      → (check_allow c half_open now b).1 ≡ true
      → Counted (check_allow c half_open now b).0.state (check_allow c half_open now b).0 (suc n)
  unfolding suc_int ltb_int
  probes-Counted now n b e a =
      if-cases (λ (o : Breaker × Bool). o.1 ≡ true → Counted o.0.state o.0 (suc n))
        (ltb_int b.half_open_allowed c.half_open_max) _ _
        (λ room _. rw e (ap suc_int a, inl (room_left (rw a at room))))
        (λ _ h. absurd (ground (arith, h)))
    where
      room_left : ltb n c.half_open_max ≡ true → leb (suc n) c.half_open_max ≡ true
      room_left h = ground (arith, h)

  succeeds-Counted :
      (n : ℕ) (b : Breaker)
      → b.state ≡ half_open
      → Counted half_open b (suc n)
      → Counted (success_in c half_open b).state (success_in c half_open b) n
  unfolding pred_int
  succeeds-Counted n b e (a, m) =
      if-cases (λ (b' : Breaker). Counted b'.state b' n)
        (leb c.success_threshold (suc b.success_count)) _ _ (λ _. tt)
        (λ _.
          rw e (ap pred_int a, elim m [ inl h ↦ inl (ground (arith, h)) | inr one ↦ fewer one ]))
    where
      fewer : suc n ≡ 1 → (leb n c.half_open_max ≡ true) ⊎ (n ≡ 1)
      fewer one = inl (ground (arith, one))

  closed-Counted :
      (b : Breaker)
      → b.state ≡ closed
      → Counted (success_in c closed b).state (success_in c closed b) 0
  closed-Counted b e = rw e tt

  failed-Counted :
      (s : CircuitState) (now n : ℕ) (b : Breaker)
      → b.state ≡ s
      → Counted (failure_in c s now b).state (failure_in c s now b) n
  failed-Counted closed now n b e =
      if-cases (λ (b' : Breaker). Counted b'.state b' n)
        (leb c.failure_threshold (suc b.failure_count)) _ _ (λ _. tt) (λ _. rw e tt)
  failed-Counted opened now n b e = rw e tt
  failed-Counted half_open now n b e = tt

  Reached-Counted : (b : Breaker) (n : ℕ) → Reached c b n → Counted b.state b n
  unfolding allow record_success record_failure
  Reached-Counted b n starts = tt
  Reached-Counted b n (answers_closed {b = x} r e) =
      rw (record_success_in c x closed e) (closed-Counted x e)
  Reached-Counted b n (fails_closed {b = x} now r e) = failed-Counted x.state now 0 x refl
  Reached-Counted b n (probes_opened {b = x} now r e h) =
      rw (allow_in c x now opened e) (opened-Counted now x (rw (allow_in c x now opened e) at h))
  Reached-Counted b n (probes {b = x} {n = m} now r e h) =
      let counted = Reached-Counted x m r in
      rw (allow_in c x now half_open e)
        (probes-Counted now m x e (rw e at counted).0 (rw (allow_in c x now half_open e) at h))
  Reached-Counted b n (refuses {b = x} {n = m} now r h) =
      rw (refused_same x.state now x h) (Reached-Counted x m r)
  Reached-Counted b n (succeeds_probe {b = x} {n = m} r e) =
      let counted = Reached-Counted x (suc m) r in
      rw (record_success_in c x half_open e) (succeeds-Counted m x e (rw e at counted))
  Reached-Counted b n (fails_probe {b = x} {n = m} now r e) = failed-Counted x.state now m x refl
  Reached-Counted b n (answers_opened {b = x} {n = m} r e) =
      rw (record_success_in c x opened e) (rw e tt)
  Reached-Counted b n (fails_opened {b = x} {n = m} now r e) = failed-Counted x.state now m x refl

  -- As long as no answer of an earlier request comes in while the circuit is half open, the counter of a
  -- half-open circuit is the number of the requests that it let through and that have not answered; they
  -- are at most `half_open_max`, or one.
  pub Reached-probes :
      (b : Breaker) (n : ℕ)
      → Reached c b n
      → b.state ≡ half_open
      → (b.half_open_allowed ≡ pos n) × ((leb n c.half_open_max ≡ true) ⊎ (n ≡ 1))
  Reached-probes b n r e = let counted = Reached-Counted b n r in rw e at counted

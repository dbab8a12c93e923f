-- ===== src/Prune/Held.antt =====
-- What `keys_held_elsewhere` gathers holds the keys of every target that was recorded in the key space.
use var_track.Prelude.{
  String, ◌≡◌, refl, true, false, some, List, [], ◌∷◌, arith, contains, contains-append, In, All,
  string_eq, inl, inr, >>=-eq-some,
}
use var_track.Ledger.{Target, Redis, entries_of, list_targets}
use var_track.Prune.Stale.{
  SinkClass, Registry, TargetId, target_eq, Held, inventory, visit, visit_all, visit_tenants,
}

abbrev pub id_of : String → Target → TargetId
id_of tenant r = record { tenant = tenant; datasource = r.datasource; env = r.env }

abbrev pub keys_of : Target → List String
keys_of r = inventory (entries_of (some r))

-- `keys_at` tells the keys of a target. Every target in `seen` that was not there at the start has its
-- keys in `held`.
abbrev pub Covered : (TargetId → List String) → List TargetId → Held → Type 0
Covered keys_at start h =
    (t : TargetId) (k : String)
    → contains h.seen t ≡ true
    → contains start t ≡ false
    → contains (keys_at t) k ≡ true
    → contains h.held k ≡ true

-- The records of a tenant are those that `keys_at` tells of.
abbrev pub Recorded : (TargetId → List String) → String → Target → Type 0
Recorded keys_at tenant r = keys_of r ≡ keys_at (id_of tenant r)

module _ (reg : Registry) (cls : SinkClass) (space : String) (tenant : String) where
  held-visit :
      (h : Held) (r : Target) (k : String)
      → contains h.held k ≡ true
      → contains (visit reg cls space tenant h r).held k ≡ true
  unfolding visit
  held-visit h r k p = ground (arith, contains-append h.held (keys_of r) k)

  seen-visit :
      (h : Held) (r : Target) (t : TargetId)
      → contains h.seen t ≡ true
      → contains (visit reg cls space tenant h r).seen t ≡ true
  unfolding visit
  seen-visit h r t p = ground arith

  seen-visit_self :
      (h : Held) (r : Target)
      → r.key_space ≡ some space
      → contains (visit reg cls space tenant h r).seen (id_of tenant r) ≡ true
  unfolding visit
  seen-visit_self h r e = ground arith

  visit-Covered :
      (keys_at : TargetId → List String) (start : List TargetId) (h : Held) (r : Target)
      → Recorded keys_at tenant r
      → Covered keys_at start h
      → Covered keys_at start (visit reg cls space tenant h r)
  unfolding visit
  visit-Covered keys_at start h r e c t k p q m =
      ground (arith, contains-append h.held (keys_of r) k, c t k, e)

  held-visit_all :
      (rs : List Target) (h : Held) (k : String)
      → contains h.held k ≡ true
      → contains (visit_all reg cls space tenant h rs).held k ≡ true
  unfolding visit_all
  held-visit_all [] h k p = p
  held-visit_all (r ∷ rs) h k p = held-visit_all rs _ k (held-visit h r k p)

  seen-visit_all :
      (rs : List Target) (h : Held) (t : TargetId)
      → contains h.seen t ≡ true
      → contains (visit_all reg cls space tenant h rs).seen t ≡ true
  unfolding visit_all
  seen-visit_all [] h t p = p
  seen-visit_all (r ∷ rs) h t p = seen-visit_all rs _ t (seen-visit h r t p)

  seen-visit_all_self :
      (rs : List Target) (h : Held) (r : Target)
      → In r rs
      → r.key_space ≡ some space
      → contains (visit_all reg cls space tenant h rs).seen (id_of tenant r) ≡ true
  unfolding visit_all
  seen-visit_all_self [] h r m e = absurd m
  seen-visit_all_self (x ∷ rs) h r (inl same) e =
      rw same (seen-visit_all rs _ _ (seen-visit_self h x (rw (← same) e)))
  seen-visit_all_self (x ∷ rs) h r (inr later) e = seen-visit_all_self rs _ r later e

  visit_all-Covered :
      (keys_at : TargetId → List String) (start : List TargetId) (rs : List Target) (h : Held)
      → All (Recorded keys_at tenant) rs
      → Covered keys_at start h
      → Covered keys_at start (visit_all reg cls space tenant h rs)
  unfolding visit_all
  visit_all-Covered keys_at start [] h a c = c
  visit_all-Covered keys_at start (r ∷ rs) h (e, a) c =
      visit_all-Covered keys_at start rs _ a (visit-Covered keys_at start h r e c)

module _ (R : Redis) (s : R.State) (reg : Registry) (cls : SinkClass) (space : String) where
  -- What an operation may do to the sets: keep the keys held, and the targets counted.
  abbrev pub Grows : Held → Held → Type 0
  Grows h h' =
      ((k : String) → contains h.held k ≡ true → contains h'.held k ≡ true)
      × ((t : TargetId) → contains h.seen t ≡ true → contains h'.seen t ≡ true)

  pub visit_tenants-Grows :
      (tenants : List String) (h : Held) {h' : Held}
      → visit_tenants R s reg cls space h tenants ≡ some h'
      → Grows h h'
  unfolding visit_tenants
  visit_tenants-Grows [] h e = (λ k p. ground arith, λ t p. ground arith)
  visit_tenants-Grows (tenant ∷ tenants) h e =
      let (rs, _, e') = >>=-eq-some (list_targets R s tenant) _ e in
      let (held, seen) = visit_tenants-Grows tenants (visit_all reg cls space tenant h rs) e' in
      (
        λ k p. held k (held-visit_all reg cls space tenant rs h k p),
        λ t p. seen t (seen-visit_all reg cls space tenant rs h t p),
      )

  -- A record of one of the tenants, in the key space, is counted.
  pub seen-visit_tenants :
      (tenants : List String) (h : Held) {h' : Held} (tenant : String) (rs : List Target)
      (r : Target)
      → visit_tenants R s reg cls space h tenants ≡ some h'
      → In tenant tenants
      → list_targets R s tenant ≡ some rs
      → In r rs
      → r.key_space ≡ some space
      → contains h'.seen (id_of tenant r) ≡ true
  unfolding visit_tenants
  seen-visit_tenants [] h tenant rs r e m l i q = absurd m
  seen-visit_tenants (x ∷ tenants) h tenant rs r e (inl same) l i q =
      let l' : list_targets R s x ≡ some rs = rw (← same) l in
      let (_, seen) = visit_tenants-Grows tenants (visit_all reg cls space x h rs) (rw l' at e) in
      seen _ (rw same (seen-visit_all_self reg cls space x rs h r i q))
  seen-visit_tenants (x ∷ tenants) h tenant rs r e (inr later) l i q =
      let (ts, _, e') = >>=-eq-some (list_targets R s x) _ e in
      seen-visit_tenants tenants (visit_all reg cls space x h ts) tenant rs r e' later l i q

  pub visit_tenants-Covered :
      (keys_at : TargetId → List String) (start : List TargetId) (tenants : List String) (h : Held)
      {h' : Held}
      → ((tenant : String) (rs : List Target)
          → In tenant tenants
          → list_targets R s tenant ≡ some rs
          → All (Recorded keys_at tenant) rs)
      → visit_tenants R s reg cls space h tenants ≡ some h'
      → Covered keys_at start h
      → Covered keys_at start h'
  unfolding visit_tenants
  visit_tenants-Covered keys_at start [] h a e c = λ t k p q m. ground (arith, c t k)
  visit_tenants-Covered keys_at start (x ∷ tenants) h a e c =
      let (rs, l, e') = >>=-eq-some (list_targets R s x) _ e in
      visit_tenants-Covered keys_at start tenants _ (λ t ts m. a t ts (inr m)) e'
        (visit_all-Covered reg cls space x keys_at start rs h (a x rs (inl refl) l) c)

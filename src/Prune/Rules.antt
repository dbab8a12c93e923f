-- ===== src/Prune/Rules.antt =====
-- The keys that `_keys_held_by_rules` adds, and what `_keys_held_elsewhere` covers.
use var_track.Prelude.{
  String, ◌≡◌, sym, ◌∙◌, true, false, none, some, List, [], ◌∷◌, arith, contains, contains-append,
  contains_of_In, In, In-of_contains, inl, inr, Bool-cases, All, string_eq, is_empty, >>=-eq-some,
}
use mathlib.Core.Option.{some-injective}
use var_track.Prelude.Dict.{or_else}
use var_track.Prelude.Order.{sorted_set, contains-sorted_set}
use var_track.Value.{Record}
use var_track.Ledger.{Target, Redis, entries_of, list_targets, list_envs, get_target}
use var_track.Prune.Stale.{
  SinkClass, Registry, TargetId, target_eq, Held, inventory, rule_env, rule_envs,
  keys_held_by_rules, keys_held_elsewhere, is_class, visit_tenants,
}
use var_track.Prune.Held.{Recorded, Covered, id_of, visit_tenants-Covered, seen-visit_tenants}

module _ (R : Redis) (s : R.State) (reg : Registry) (cls : SinkClass) (space : String) where
  held-rule_env :
      (tenant datasource : String) (rule : Record) (h : Held) (env : String) {h' : Held}
      (k : String)
      → rule_env R s reg cls space tenant datasource rule h env ≡ some h'
      → contains h.held k ≡ true
      → contains h'.held k ≡ true
  unfolding rule_env
  held-rule_env tenant datasource rule h env k e p =
      let found = or_else (get_target R s tenant datasource env) none in
      ground (arith, contains-append h.held (inventory (entries_of found)) k)

  held-rule_envs :
      (tenant datasource : String) (rule : Record) (envs : List String) (h : Held) {h' : Held}
      (k : String)
      → rule_envs R s reg cls space tenant datasource rule h envs ≡ some h'
      → contains h.held k ≡ true
      → contains h'.held k ≡ true
  unfolding rule_envs
  held-rule_envs tenant datasource rule [] h k e p = ground arith
  held-rule_envs tenant datasource rule (env ∷ envs) h k e p =
      let (h1, e1, e2) =
        >>=-eq-some (rule_env R s reg cls space tenant datasource rule h env) _ e in
      held-rule_envs tenant datasource rule envs h1 k e2
        (held-rule_env tenant datasource rule h env k e1 p)

  held-keys_held_by_rules :
      (rules : List (String × String × Record)) (h : Held) {h' : Held} (k : String)
      → keys_held_by_rules R s reg cls space h rules ≡ some h'
      → contains h.held k ≡ true
      → contains h'.held k ≡ true
  unfolding keys_held_by_rules
  held-keys_held_by_rules [] h k e p = ground arith
  held-keys_held_by_rules ((tenant, datasource, rule) ∷ rules) h k e p =
      elim (Bool-cases (is_class cls (reg.sink_class datasource))) [
        | inl same ↦
            let (envs, _, e1) = >>=-eq-some (list_envs R s tenant datasource) _ (rw same at e) in
            let (h1, e2, e3) =
              >>=-eq-some (rule_envs R s reg cls space tenant datasource rule h envs) _ e1 in
            held-keys_held_by_rules rules h1 k e3
              (held-rule_envs tenant datasource rule envs h k e2 p)
        | inr other ↦ held-keys_held_by_rules rules h k (rw other at e) p
      ]

  -- A record of a tenant, in the key space and not yet counted, has its keys held.
  pub held-keys_held_elsewhere :
      (keys_at : TargetId → List String) (seen : List TargetId) (tenant : String) {h : Held}
      (tenants : List String) (other : String) (rs : List Target) (r : Target) (k : String)
      → ((t : String) (ts : List Target)
          → contains (tenant ∷ tenants) t ≡ true
          → list_targets R s t ≡ some ts
          → All (Recorded keys_at t) ts)
      → keys_held_elsewhere R s reg cls space seen tenant ≡ some h
      → reg.tenant_ids ≡ some tenants
      → contains (tenant ∷ tenants) other ≡ true
      → list_targets R s other ≡ some rs
      → In r rs
      → r.key_space ≡ some space
      → contains seen (id_of other r) ≡ false
      → contains (keys_at (id_of other r)) k ≡ true
      → contains h.held k ≡ true
  unfolding keys_held_elsewhere
  held-keys_held_elsewhere keys_at seen tenant {h} tenants other rs r k a e ids m l i q fresh p =
      let start : Held = record { held = []; seen = seen; legacy = []; sharers = [] } in
      let (ts, e0, k0) = >>=-eq-some reg.tenant_ids _ e in
      let same : ts ≡ tenants = some-injective ts tenants (sym e0 ∙ ids) in
      let all_tenants = sorted_set (tenant ∷ ts) in
      let (h1, e1, e2) = >>=-eq-some (visit_tenants R s reg cls space start all_tenants) _ k0 in
      let listed = In-of_contains other all_tenants (rw (contains-sorted_set, same) m) in
      let counted =
        seen-visit_tenants R s reg cls space all_tenants start other rs r e1 listed l i q in
      let none_yet : Covered keys_at seen start = λ t j x y z. cc in
      let covered =
        visit_tenants-Covered R s reg cls space keys_at seen all_tenants start
          (λ t us b.
            a t us
              (rw (← same, ← contains-sorted_set (tenant ∷ ts) t) (contains_of_In t all_tenants b)))
          e1 none_yet in
      let here = covered (id_of other r) k counted fresh p in
      elim (Bool-cases (is_empty h1.legacy)) [
        | inl nothing ↦ rw (some-injective h1 h (rw nothing at e2)) at here
        | inr more ↦
            let (rules, _, e3) = >>=-eq-some reg.every_rule _ (rw more at e2) in
            held-keys_held_by_rules rules h1 k e3 here
      ]

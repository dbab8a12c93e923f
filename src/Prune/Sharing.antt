-- ===== src/Prune/Sharing.antt =====
-- No key that another environment or another target holds in the same key space is stale.
use mathlib.Core.Option.{some-injective}
use var_track.Prelude.{
  String, ◌≡◌, ◌≢◌, sym, ◌∙◌, ◌⊎◌, true, false, Option, none, some, List, [], ◌∷◌, ◌++◌, arith,
  contains, contains-append, In, In-of_contains, All, All_of_In, string_eq, ◌>>=◌, >>=-eq-some,
  ◌==◌, if◌then◌else◌, inl, inr,
}
use var_track.Prelude.Dict.{or_else}
use var_track.Value.{Record}
use var_track.Ledger.{Target, Redis, entries_of, list_targets, list_envs, get_target}
use var_track.Prune.Stale.{
  SinkClass, Registry, TargetId, target_eq, Stale, Written, inventory, key_space_id, other_envs,
  stale_keys,
}
use var_track.Prune.Held.{Recorded, id_of}
use var_track.Prune.Rules.{held-keys_held_elsewhere}
use var_track.Prune.Safety.{StaleRun, stale_keys-run, split-new, self}

module _ (R : Redis) (s : R.State) (reg : Registry) (cls : SinkClass) (rule : Record)
    (tenant datasource env space : String) where
  -- The keys of one more environment of the datasource.
  abbrev env_keys : String → Option (List String)
  env_keys other = if other == env then some [] else (do
    other_space ← key_space_id cls rule tenant other
    if other_space == space
        then (do
          found ← get_target R s tenant datasource other
          some (inventory (entries_of found)))
        else some [])

  env_keys-shared :
      (other : String) {here : List String} {found : Option Target}
      → env_keys other ≡ some here
      → other ≢ env
      → key_space_id cls rule tenant other ≡ some space
      → get_target R s tenant datasource other ≡ some found
      → here ≡ inventory (entries_of found)
  env_keys-shared other e ne q g = ground arith

  abbrev loop : List String → Option (List TargetId × List String)
  loop = other_envs R s reg cls rule tenant datasource env space

  abbrev target_of : String → TargetId
  target_of other = record { tenant = tenant; datasource = datasource; env = other }

  other_envs-cons :
      (x : String) (envs : List String) (out : List TargetId × List String)
      → loop (x ∷ envs) ≡ some out
      → (here : List String) × (rest : List TargetId × List String) × (env_keys x ≡ some here)
        × (loop envs ≡ some rest)
        × (out ≡ (target_of x ∷ rest.0, here ++ rest.1))
  unfolding other_envs
  other_envs-cons x envs out e =
      let (here, e1, k1) = >>=-eq-some (env_keys x) _ e in
      let (rest, e2, k2) = >>=-eq-some (loop envs) _ k1 in
      (here, rest, e1, e2, sym (some-injective (target_of x ∷ rest.0, here ++ rest.1) out k2))

  -- The keys of an environment in the key space are among the loop's.
  pub other_envs-shared :
      (envs : List String) (out : List TargetId × List String) (other : String)
      (found : Option Target) (k : String)
      → loop envs ≡ some out
      → In other envs
      → other ≢ env
      → key_space_id cls rule tenant other ≡ some space
      → get_target R s tenant datasource other ≡ some found
      → contains (inventory (entries_of found)) k ≡ true
      → contains out.1 k ≡ true
  other_envs-shared [] out other found k e m ne q g p = absurd m
  other_envs-shared (x ∷ envs) out other found k e (inl same) ne q g p =
      let (here, rest, e1, e2, o) = other_envs-cons x envs out e in
      let e1' : env_keys other ≡ some here = rw same e1 in
      let shared = env_keys-shared other e1' ne q g in
      rw (o, contains-append here rest.1 k) (ground (arith, shared))
  other_envs-shared (x ∷ envs) out other found k e (inr later) ne q g p =
      let (here, rest, e1, e2, o) = other_envs-cons x envs out e in
      let found_later = other_envs-shared envs rest other found k e2 later ne q g p in
      rw (o, contains-append here rest.1 k) (ground (arith, found_later))

  -- The loop counts targets of this tenant's datasource only.
  pub other_envs-seen :
      (envs : List String) (out : List TargetId × List String) (t : TargetId)
      → loop envs ≡ some out
      → contains out.0 t ≡ true
      → (t.tenant ≡ tenant) × (t.datasource ≡ datasource)
  other_envs-seen [] out t e p = unfold other_envs in ground arith
  other_envs-seen (x ∷ envs) out t e p =
      let (here, rest, e1, e2, o) = other_envs-cons x envs out e in
      ground (arith, other_envs-seen envs rest t e2)

module _ (R : Redis) (s : R.State) (reg : Registry) (cls : SinkClass) (rule : Record)
    (tenant datasource env : String) (written : Written) where
  -- No stale key is held by another environment of the datasource that has the environment's key space.
  pub stale-not_of_other_env :
      (r : Stale) (envs : List String) (other space : String) (found : Option Target) (k : String)
      → stale_keys R s reg cls rule tenant datasource env written ≡ some r
      → list_envs R s tenant datasource ≡ some envs
      → contains envs other ≡ true
      → other ≢ env
      → key_space_id cls rule tenant env ≡ some space
      → key_space_id cls rule tenant other ≡ some space
      → get_target R s tenant datasource other ≡ some found
      → contains r.keys k ≡ true
      → contains (inventory (entries_of found)) k ≡ false
  stale-not_of_other_env r envs other space found k e l m ne q q' g p =
      let run = stale_keys-run R s reg cls rule tenant datasource env written r e in
      let (_, _, not_same, _) = split-new R s reg cls rule tenant datasource env written run k p in
      let same_envs : run.envs ≡ envs = some-injective run.envs envs (sym run.listed ∙ l) in
      let same_space : run.space ≡ space = some-injective run.space space (sym run.placed ∙ q) in
      let listed : In other run.envs = In-of_contains other run.envs (rw same_envs m) in
      let placed : key_space_id cls rule tenant other ≡ some run.space = rw same_space q' in
      ground (
        arith,
        other_envs-shared R s reg cls rule tenant datasource env run.space run.envs
            (run.seen, run.same) other found k run.shared listed ne placed g,
      )

  -- The keys that the ledger gives for a target.
  abbrev keys_at : TargetId → List String
  keys_at t = inventory (entries_of (or_else (get_target R s t.tenant t.datasource t.env) none))

  All-Recorded :
      (t : String) (ts : List Target)
      → All (λ y. get_target R s t y.datasource y.env ≡ some (some y)) ts
      → All (Recorded keys_at t) ts
  All-Recorded t [] a = tt
  All-Recorded t (y ∷ ts) (e, a) = (rw e, All-Recorded t ts a)

  -- A target of another datasource or tenant is not counted at the start.
  fresh :
      {r : Stale} (run : StaleRun R s reg cls rule tenant datasource env written r) (other : String)
      (x : Target)
      → (other ≢ tenant) ⊎ (x.datasource ≢ datasource)
      → contains (self R s reg cls rule tenant datasource env written ∷ run.seen) (id_of other x)
        ≡ false
  fresh run other x differs = ground (
    arith,
    other_envs-seen R s reg cls rule tenant datasource env run.space run.envs (run.seen, run.same)
        (id_of other x) run.shared,
  )

  -- Nor by the target of another datasource or tenant that was recorded in the key space, when what
  -- `list_targets` gives are the targets that `get_target` gives.
  pub stale-not_of_other_target :
      (r : Stale) (tenants : List String) (other space : String) (rs : List Target) (x : Target)
      (k : String)
      → ((t : String) (ts : List Target)
          → contains (tenant ∷ tenants) t ≡ true
          → list_targets R s t ≡ some ts
          → All (λ y. get_target R s t y.datasource y.env ≡ some (some y)) ts)
      → stale_keys R s reg cls rule tenant datasource env written ≡ some r
      → reg.tenant_ids ≡ some tenants
      → contains (tenant ∷ tenants) other ≡ true
      → list_targets R s other ≡ some rs
      → In x rs
      → key_space_id cls rule tenant env ≡ some space
      → x.key_space ≡ some space
      → (other ≢ tenant) ⊎ (x.datasource ≢ datasource)
      → contains r.keys k ≡ true
      → contains (inventory (entries_of (some x))) k ≡ false
  stale-not_of_other_target r tenants other space rs x k a e ids m l i q sp differs p =
      let run = stale_keys-run R s reg cls rule tenant datasource env written r e in
      let (_, _, _, not_held) = split-new R s reg cls rule tenant datasource env written run k p in
      let same_space : run.space ≡ space = some-injective run.space space (sym run.placed ∙ q) in
      let sp' : x.key_space ≡ some run.space = rw same_space sp in
      let new = fresh run other x differs in
      let recorded =
        All_of_In (Recorded keys_at other) rs (All-Recorded other rs (a other rs m l)) x i in
      ground (
        arith,
        recorded,
        held-keys_held_elsewhere R s reg cls run.space keys_at _ tenant {h = run.held} tenants other
            rs x k (λ t ts i b. All-Recorded t ts (a t ts i b)) run.elsewhere ids m l i sp' new,
      )

-- ===== src/Prune/Stale.antt =====
-- `_stale_keys` and what it calls. All the reads of one call see one state of Redis.
pub use var_track.Ledger.{no_target}
use mathlib.Core.Option
use var_track.Prelude.{
  String, Bool, false, not, ◌&&◌, ◌==◌, string_eq, Eq, Option, none, some, List, [], ◌∷◌, ◌++◌,
  keep, contains, is_empty, if◌then◌else◌, ◌>>=◌,
}
use var_track.Prelude.Order.{sorted_set}
use var_track.Prelude.Dict
use var_track.Prelude.Dict.{Dict}
use var_track.Value.{Record}
use var_track.Ledger.{Entry, Target, Redis, join, entries_of, get_target, list_envs, list_targets}

-- `type(sink)`: what a sink class answers from a rule, without a connection. `none` is a call that
-- raises. Two classes are one when their names are.
pub record SinkClass : Type 0 where
  pub name : String
  pub prunes_keys : Record → Bool
  pub store : Record → Option String
  pub key_space : Record → String → String → Option String

-- What the process knows of its tenants, its rules and its sinks: the schema registry's and
-- config.cue's side, which prune only asks. `every_rule` is `_every_rule()`, each rule with its
-- tenant and with `str(rule.get("datasource", ""))`.
pub record Registry : Type 0 where
  pub tenant_ids : Option (List String)
  pub every_rule : Option (List (String × String × Record))
  pub sink_class : String → Option SinkClass

-- (tenant, datasource, env)
pub record TargetId : Type 0 where
  pub tenant : String
  pub datasource : String
  pub env : String

TargetId-discrete : Discrete TargetId
unfolding string_eq
TargetId-discrete = hlevel (string_eq.dec)

instance unfoldable pub target_eq : Eq TargetId
unfolding TargetId-discrete
target_eq = record { dec = TargetId-discrete }

-- "{tenant}/{datasource}/{env}"
abbrev pub shown : TargetId → String
shown t = join "/" (t.tenant ∷ t.datasource ∷ t.env ∷ [])

-- The keys of all the entries.
unfoldable pub inventory : Dict String Entry → List String
inventory [] = []
inventory ((k, e) ∷ entries) = Dict.keys e.desired ++ inventory entries

unfoldable pub key_space_id : SinkClass → Record → String → String → Option String
unfolding join
key_space_id cls rule tenant env = if not (cls.prunes_keys rule) then some "" else do
  store ← cls.store rule
  space ← cls.key_space rule tenant env
  some (join "|" (cls.name ∷ store ∷ space ∷ []))

-- The sets that `_keys_held_elsewhere` fills.
pub record Held : Type 0 where
  pub held : List String
  pub seen : List TargetId
  pub legacy : List TargetId
  pub sharers : List String

abbrev pub is_class : SinkClass → Option SinkClass → Bool
is_class cls none = false
is_class cls (some c) = c.name == cls.name

-- The keys of a target that turned out to share the key space.
abbrev pub share : TargetId → Option Target → Held → Held
share t found h =
    let found_keys = inventory (entries_of found) in
    record h {
      held = h.held ++ found_keys;
      seen = t ∷ h.seen;
      sharers = h.sharers ++ (if is_empty found_keys then [] else shown t ∷ []);
    }

-- One round of the loop of `_keys_held_elsewhere`.
unfoldable pub visit : Registry → SinkClass → String → String → Held → Target → Held
visit reg cls space tenant h r =
    let t : TargetId = record { tenant = tenant; datasource = r.datasource; env = r.env } in
    if contains h.seen t then h else elim r.key_space [
      | none ↦
          if is_class cls (reg.sink_class r.datasource)
          then record h { legacy = t ∷ h.legacy }
          else h
      | some other ↦ if other == space then share t (some r) h else h
    ]

unfoldable pub visit_all : Registry → SinkClass → String → String → Held → List Target → Held
visit_all reg cls space tenant h [] = h
visit_all reg cls space tenant h (r ∷ rs) =
    visit_all reg cls space tenant (visit reg cls space tenant h r) rs

module _ (R : Redis) (s : R.State) (reg : Registry) (cls : SinkClass) (space : String) where
  unfoldable pub visit_tenants : Held → List String → Option Held
  visit_tenants h [] = some h
  visit_tenants h (tenant ∷ tenants) = do
    records ← list_targets R s tenant
    visit_tenants (visit_all reg cls space tenant h records) tenants

  -- One environment of `_keys_held_by_rules`.
  unfoldable pub rule_env : String → String → Record → Held → String → Option Held
  rule_env tenant datasource rule h env =
      let t : TargetId = record { tenant = tenant; datasource = datasource; env = env } in
      if contains h.legacy t && not (contains h.seen t)
      then (do
        other ← key_space_id cls rule tenant env
        if other == space
            then (do found ← get_target R s tenant datasource env; some (share t found h))
            else some (record h { seen = t ∷ h.seen }))
      else some h

  unfoldable pub rule_envs : String → String → Record → Held → List String → Option Held
  rule_envs tenant datasource rule h [] = some h
  rule_envs tenant datasource rule h (env ∷ envs) = do
    h' ← rule_env tenant datasource rule h env
    rule_envs tenant datasource rule h' envs

  -- `_keys_held_by_rules`
  unfoldable pub keys_held_by_rules : Held → List (String × String × Record) → Option Held
  keys_held_by_rules h [] = some h
  keys_held_by_rules h ((tenant, datasource, rule) ∷ rules) =
      let rest = λ (h' : Held). keys_held_by_rules h' rules in
      if is_class cls (reg.sink_class datasource)
      then (do
        envs ← list_envs R s tenant datasource
        h' ← rule_envs tenant datasource rule h envs
        rest h')
      else rest h

  -- `_keys_held_elsewhere`
  unfoldable pub keys_held_elsewhere : List TargetId → String → Option Held
  keys_held_elsewhere seen tenant = do
    tenants ← reg.tenant_ids
    h ←
        visit_tenants (record { held = []; seen = seen; legacy = []; sharers = [] })
          (sorted_set (tenant ∷ tenants))
    if is_empty h.legacy then some h else do rules ← reg.every_rule; keys_held_by_rules h rules

-- What `_stale_keys` returns: the stale keys, what was last written for each, and the other targets
-- that hold keys in the key space.
pub record Stale : Type 0 where
  pub keys : List String
  pub expected : Dict String (Option String × Option String)
  pub sharers : List String

-- This sync's files for one environment: inventory key to (file path, flat data).
abbrev pub Written : Type 0
Written = Dict String (String × Dict String String)

abbrev pub file_paths : Written → List String
file_paths [] = []
file_paths ((k, (path, flat)) ∷ w) = path ∷ file_paths w

abbrev pub flat_keys : Written → List String
flat_keys [] = []
flat_keys ((k, (path, flat)) ∷ w) = Dict.keys flat ++ flat_keys w

-- The entries of the files that this sync did not write.
unfoldable pub kept_entries : Written → Dict String Entry → Dict String Entry
kept_entries written = keep (λ e. not (contains (Dict.keys written ++ file_paths written) e.0))

-- The value, or the digest, last written for a key: `none` where the lookup raises a KeyError.
unfoldable pub expected_value : Target → String → Option (Option String × Option String)
expected_value t key = elim (Dict.get t.desired key) [
  | some v ↦ some (some v, Dict.get t.secret_digests key)
  | none ↦ Option.map (λ p. (p.value, p.digest)) (Dict.get t.pending_prune key)
]

unfoldable pub expected_values :
    Target → List String → Option (Dict String (Option String × Option String))
expected_values t [] = some []
expected_values t (key ∷ keys) = do
  e ← expected_value t key
  rest ← expected_values t keys
  some ((key, e) ∷ rest)

module _ (R : Redis) (s : R.State) (reg : Registry) (cls : SinkClass) (rule : Record) where
  -- The loop over the datasource's environments: the targets that are done with, and the keys of the
  -- environments that share the key space.
  unfoldable pub other_envs :
      String → String → String → String → List String → Option (List TargetId × List String)
  other_envs tenant datasource env space [] = some ([], [])
  other_envs tenant datasource env space (other ∷ others) = do
    here ←
        (if other == env then some [] else do
          other_space ← key_space_id cls rule tenant other
          if other_space == space
              then (do
                found ← get_target R s tenant datasource other
                some (inventory (entries_of found)))
              else some [])
    (seen, held) ← other_envs tenant datasource env space others
    some (record { tenant = tenant; datasource = datasource; env = other } ∷ seen, here ++ held)

  unfoldable pub stale_keys : String → String → String → Written → Option Stale
  stale_keys tenant datasource env written = do
    found ← get_target R s tenant datasource env
    let target = Dict.or_else found no_target
    let old_entries = entries_of found
    let kept = kept_entries written old_entries
    space ← key_space_id cls rule tenant env
    envs ← list_envs R s tenant datasource
    (seen, same_datasource) ← other_envs tenant datasource env space envs
    let start : TargetId = record { tenant = tenant; datasource = datasource; env = env }
    elsewhere ← keys_held_elsewhere R s reg cls space (start ∷ seen) tenant
    let new = inventory kept ++ (flat_keys written ++ (same_datasource ++ elsewhere.held))
    let stale =
        keep (λ key. not (contains new key))
          (inventory old_entries ++ Dict.keys target.pending_prune)
    expected ← expected_values target stale
    some (record { keys = stale; expected = expected; sharers = elsewhere.sharers })

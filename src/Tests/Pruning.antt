-- ===== src/Tests/Pruning.antt =====
-- A prune that deletes one key of three, and the theorems on it.
use var_track.Prune.Outcome.{Deletes, prune_environment-Deletes}
use var_track.Glob.{fnmatch}
use var_track.Prelude.{◌==◌}
use var_track.Ledger.{key_state, Live, value}
use var_track.Prune.Account.{prune_stale-accounts, Accounted}
use var_track.Prune.Environment.{
  PruneOutcome, prune_environment, prune_stale, outcome, delete_live, delete_stale, is_protected,
  unprotected, verdict,
}
use mathlib.Core.Option.{some-injective}
use var_track.Prune.Safety.{recorded_keys, stale-recorded, stale-not_of_files}
use var_track.Prune.Sharing.{stale-not_of_other_env, stale-not_of_other_target}
use var_track.Prelude.{
  ◌≢◌, sym, ◌∙◌, All, In-of_contains, inl, inr, arith, String, ◌≡◌, refl, true, false, none, some,
  List, [], ◌∷◌, contains, string_eq, nat_eq, option_eq, is_empty, if◌then◌else◌,
}
use var_track.Prelude.Order.{sorted_set, text_ltb, insert_text}
use var_track.Prelude.Texts.{cut, strip_prefix}
use var_track.Prelude.Dict
use var_track.Prelude.Dict.{Dict, or_else}
use var_track.Ledger.{Target, join, redis_key, get_target, list_envs, list_targets, entries_of}
use var_track.Prune.Stale.{
  flat_keys, Stale, Written, stale_keys, key_space_id, keys_held_elsewhere, visit_tenants,
  visit_all, visit, inventory, kept_entries, expected_values, expected_value, other_envs, target_eq,
}
use var_track.Tests.Memory.{
  Store, memory_redis, hash_class, registry, hash_sink, target_of, prune_on,
}

-- "prod" held A, B, C, D and SYSTEM_X. In the same key space "qa" still holds C, and the tenant "blue"
-- still holds D.
abbrev space : String
space = "RedisSink|redis:6379/0|prod"

abbrev prod : Target
prod =
    target_of "prod" "a.yaml" space
      (("A", "1") ∷ ("B", "2") ∷ ("C", "3") ∷ ("D", "4") ∷ ("SYSTEM_X", "5") ∷ [])

abbrev qa : Target
qa = target_of "qa" "q.yaml" space (("C", "3") ∷ [])

abbrev live : Target
live = target_of "live" "l.yaml" space (("D", "9") ∷ [])

abbrev store : Store
store = record {
  targets =
      ("vt:ui:target:acme:redis:prod", prod)
      ∷ ("vt:ui:target:acme:redis:qa", qa)
      ∷ ("vt:ui:target:blue:redis:live", live)
      ∷ [];
  sets =
      ("vt:ui:targets:acme", "redis|qa" ∷ "redis|prod" ∷ [])
      ∷ ("vt:ui:targets:blue", "redis|live" ∷ [])
      ∷ [];
}

-- The sync wrote A only.
abbrev written : Written
written = ("acme/configs:a.yaml", ("a.yaml", ("A", "1") ∷ [])) ∷ []

abbrev stale : Stale
stale = record {
  keys = "B" ∷ "SYSTEM_X" ∷ [];
  expected = ("B", (some "2", none)) ∷ ("SYSTEM_X", (some "5", none)) ∷ [];
  sharers = "blue/redis/live" ∷ [];
}

run :
    stale_keys memory_redis store registry hash_class [] "acme" "redis" "prod" written ≡ some stale
unfolding stale_keys get_target string_eq key_space_id list_envs Dict.get nat_eq other_envs
    sorted_set text_ltb keys_held_elsewhere visit_tenants list_targets visit_all visit target_eq
    expected_values inventory entries_of Dict.keys join redis_key insert_text cut strip_prefix
    expected_value kept_entries
run = refl

target_prod : get_target memory_redis store "acme" "redis" "prod" ≡ some (some prod)
unfolding get_target redis_key join Dict.get string_eq
target_prod = refl

target_qa : get_target memory_redis store "acme" "redis" "qa" ≡ some (some qa)
unfolding get_target redis_key join Dict.get string_eq
target_qa = refl

envs_acme : list_envs memory_redis store "acme" "redis" ≡ some ("prod" ∷ "qa" ∷ [])
unfolding list_envs redis_key join Dict.get string_eq sorted_set insert_text text_ltb cut
    strip_prefix nat_eq
envs_acme = refl

targets_acme : list_targets memory_redis store "acme" ≡ some (prod ∷ qa ∷ [])
unfolding list_targets redis_key join Dict.get string_eq sorted_set insert_text text_ltb cut
    strip_prefix nat_eq
targets_acme = refl

targets_blue : list_targets memory_redis store "blue" ≡ some (live ∷ [])
unfolding list_targets redis_key join Dict.get string_eq sorted_set insert_text text_ltb cut
    strip_prefix nat_eq
targets_blue = refl

abbrev AsListed : String → Type 0
AsListed t =
    (ts : List Target)
    → list_targets memory_redis store t ≡ some ts
    → All (λ y. get_target memory_redis store t y.datasource y.env ≡ some (some y)) ts

AsListed-acme : AsListed "acme"
unfolding get_target redis_key join Dict.get string_eq
AsListed-acme ts e = rw (sym (some-injective _ ts (sym targets_acme ∙ e))) (refl, (refl, tt))

AsListed-blue : AsListed "blue"
unfolding get_target redis_key join Dict.get string_eq
AsListed-blue ts e = rw (sym (some-injective _ ts (sym targets_blue ∙ e))) (refl, tt)

as_listed : (t : String) → contains ("acme" ∷ "acme" ∷ "blue" ∷ []) t ≡ true → AsListed t
as_listed t m = elim (In-of_contains t ("acme" ∷ "acme" ∷ "blue" ∷ []) m) [
  | inl e ↦ rw e AsListed-acme
  | inr (inl e) ↦ rw e AsListed-acme
  | inr (inr (inl e)) ↦ rw e AsListed-blue
  | inr (inr (inr e)) ↦ absurd e
]

space_of_prod : key_space_id hash_class [] "acme" "prod" ≡ some space
unfolding key_space_id join string_eq
space_of_prod = refl

space_of_qa : key_space_id hash_class [] "acme" "qa" ≡ some space
unfolding key_space_id join string_eq
space_of_qa = refl

differ : (a b : String) → (a == b) ≡ false → ◌≢◌ {A = String} a b
differ a b h e = ground (arith, h, e)

qa_is_other : ◌≢◌ {A = String} "qa" "prod"
unfolding string_eq
qa_is_other = differ "qa" "prod" refl

blue_is_other : ◌≢◌ {A = String} "blue" "acme"
unfolding string_eq
blue_is_other = differ "blue" "acme" refl

stale-recorded_example : contains (recorded_keys (some prod)) "B" ≡ true
unfolding string_eq
stale-recorded_example =
    stale-recorded memory_redis store registry hash_class [] "acme" "redis" "prod" written stale
      (some prod) "B" run target_prod refl

stale-not_of_files_example :
    (contains (flat_keys written) "B" ≡ false)
    × (contains (inventory (kept_entries written (entries_of (some prod)))) "B" ≡ false)
unfolding string_eq
stale-not_of_files_example =
    stale-not_of_files memory_redis store registry hash_class [] "acme" "redis" "prod" written stale
      (some prod) "B" run target_prod refl

stale-not_of_other_env_example : contains (inventory (entries_of (some qa))) "B" ≡ false
unfolding string_eq
stale-not_of_other_env_example =
    stale-not_of_other_env memory_redis store registry hash_class [] "acme" "redis" "prod" written
      stale ("prod" ∷ "qa" ∷ []) "qa" space (some qa) "B" run envs_acme refl qa_is_other
      space_of_prod space_of_qa target_qa refl

stale-not_of_other_target_example : contains (inventory (entries_of (some live))) "B" ≡ false
unfolding string_eq
stale-not_of_other_target_example =
    stale-not_of_other_target memory_redis store registry hash_class [] "acme" "redis" "prod"
      written stale ("acme" ∷ "blue" ∷ []) "blue" space (live ∷ []) live "B"
      (λ t ts m. as_listed t m ts) run refl refl targets_blue (inl refl) space_of_prod refl
      (inl blue_is_other) refl

-- The store of "prod": B is as the sync left it.
abbrev keys_of_prod : Dict String String
keys_of_prod = ("A", "1") ∷ ("B", "2") ∷ ("C", "3") ∷ ("D", "4") ∷ ("SYSTEM_X", "5") ∷ []

prune_deletes_b :
    prune_stale (λ s. s) hash_sink prune_on keys_of_prod (some stale) "redis" "prod" ≡ (
      ("A", "1") ∷ ("C", "3") ∷ ("D", "4") ∷ ("SYSTEM_X", "5") ∷ [],
      some (record (outcome [] ("blue/redis/live" ∷ [])) { pruned = 1 }),
    )
unfolding prune_stale string_eq nat_eq text_ltb Dict.get fnmatch key_state Dict.keys insert_text
    sorted_set delete_live delete_stale is_protected unprotected verdict
prune_deletes_b = refl

prune_environment-Deletes_example :
    Deletes
      (λ s. s)
      hash_sink
      memory_redis
      store
      registry
      []
      prune_on
      "redis"
      "prod"
      (stale_keys memory_redis store registry hash_class [] "acme" "redis" "prod" written)
      keys_of_prod
      (prune_environment
        (λ s. s)
        hash_sink
        memory_redis
        store
        registry
        []
        prune_on
        keys_of_prod
        "acme"
        "redis"
        "prod"
        written).0
prune_environment-Deletes_example =
    prune_environment-Deletes (λ s. s) hash_sink memory_redis store registry [] prune_on "acme"
      "redis" "prod" written keys_of_prod

-- What the read of B answers.
abbrev live_b : Dict String Live
live_b = ("B", value "2") ∷ []

-- What the prune of B leaves
abbrev pruned_b : PruneOutcome
pruned_b = record (outcome [] ("blue/redis/live" ∷ [])) { pruned = 1 }

prune_stale-accounts_example :
    (to_delete : List String) × ((prune_stale
        (λ s. s)
        hash_sink
        prune_on
        keys_of_prod
        (some stale)
        "redis"
        "prod").0
      ≡ (if is_empty to_delete
          then keys_of_prod
          else (hash_sink.delete_keys keys_of_prod to_delete "redis" "prod").0))
    × ((key : String)
        → contains (unprotected prune_on stale.keys) key ≡ true
        → Accounted (λ s. s) hash_sink "redis" "prod" keys_of_prod live_b to_delete pruned_b key)
unfolding prune_stale string_eq nat_eq text_ltb Dict.get fnmatch key_state Dict.keys insert_text
    sorted_set delete_live delete_stale is_protected unprotected verdict
prune_stale-accounts_example =
    prune_stale-accounts (λ s. s) hash_sink "redis" "prod" keys_of_prod prune_on stale live_b
      pruned_b refl refl refl refl

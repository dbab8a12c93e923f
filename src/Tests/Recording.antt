-- ===== src/Tests/Recording.antt =====
-- A file recorded over an older target, and the theorems on it.
use var_track.Prelude.{String, ◌≡◌, refl, some, [], ◌∷◌, ◌<>◌, string_eq, nat_eq}
use var_track.Prelude.Order.{sorted_set, text_ltb, insert_text}
use var_track.Prelude.Texts.{cut, strip_prefix, strip_suffix, rstrip}
use var_track.Prelude.Dict
use var_track.Prelude.Dict.{Dict, or_else}
use var_track.Ledger.{
  Target, join, redis_key, entries_of, get_target, list_envs, list_targets, key_state, synced,
  value,
}
use var_track.Ledger.Names.{repo_name, inventory_key}
use var_track.Ledger.Record.{
  FileSync, target_after, by_file, shown, merge, merge_items, desired_of, digests_of, file_names,
}
use var_track.Ledger.Recording.{target_after-synced}
use var_track.Prune.Stale.{
  Held, Stale, TargetId, target_eq, key_space_id, other_envs, keys_held_elsewhere, visit_tenants,
  visit_all, visit, stale_keys,
}
use var_track.Prune.Totality.{stale_keys-returns}
use var_track.Tests.Memory.{Store, memory_redis, hash_class, registry, target_of}

abbrev digest : String → String
digest s = "sha:" <> s

-- The file had A, B and TOKEN; now it has A and TOKEN, which is a secret. B could not be deleted.
abbrev old : Target
old =
    target_of "prod" "a.yaml" "RedisSink|redis:6379/0|prod"
      (("A", "1") ∷ ("B", "2") ∷ ("TOKEN", "x") ∷ [])

abbrev file_sync : FileSync
file_sync = record {
  tenant = "acme";
  datasource = "redis";
  env = "prod";
  repo_url = "http://gitea:3000/acme/configs.git";
  file_path = "a.yaml";
  flat_data = ("A", "5") ∷ ("TOKEN", "y") ∷ [];
  secret_fields = "TOKEN" ∷ [];
  pending_prune = some ("B" ∷ []);
  key_space = some "RedisSink|redis:6379/0|prod";
}

abbrev now : Target
now = target_after digest file_sync (some old)

now_desired : now.desired ≡ ("A", "5") ∷ ("TOKEN", "***") ∷ []
unfolding target_after by_file inventory_key repo_name cut strip_prefix strip_suffix rstrip
    string_eq nat_eq entries_of join Dict.put Dict.pop Dict.get desired_of digests_of merge_items
    merge file_names
now_desired = refl

target_after-synced_example :
    (Dict.get now.desired "TOKEN" ≡ some (shown ("TOKEN" ∷ []) "TOKEN" "y"))
    × (key_state digest
          (shown ("TOKEN" ∷ []) "TOKEN" "y")
          (some (value "y"))
          (Dict.get now.secret_digests "TOKEN")
        ≡ synced)
unfolding Dict.get string_eq
target_after-synced_example =
    target_after-synced digest file_sync (some old) "TOKEN" "y" (refl, (refl, tt)) refl

abbrev store : Store
store = record {
  targets = ("vt:ui:target:acme:redis:prod", now) ∷ [];
  sets = ("vt:ui:targets:acme", "redis|prod" ∷ []) ∷ [];
}

abbrev self : TargetId
self = record { tenant = "acme"; datasource = "redis"; env = "prod" }

target_found : get_target memory_redis store "acme" "redis" "prod" ≡ some (some now)
unfolding get_target redis_key join Dict.get string_eq
target_found = refl

placed : key_space_id hash_class [] "acme" "prod" ≡ some "RedisSink|redis:6379/0|prod"
unfolding key_space_id join string_eq
placed = refl

listed : list_envs memory_redis store "acme" "redis" ≡ some ("prod" ∷ [])
unfolding list_envs redis_key join Dict.get string_eq sorted_set insert_text text_ltb cut
    strip_prefix nat_eq
listed = refl

shared :
    other_envs memory_redis store registry hash_class [] "acme" "redis" "prod"
      "RedisSink|redis:6379/0|prod"
      ("prod" ∷ [])
    ≡ some (self ∷ [], [])
unfolding other_envs string_eq
shared = refl

-- No other target holds keys.
abbrev held : Held
held = record { held = []; seen = self ∷ self ∷ []; legacy = []; sharers = [] }

elsewhere :
    keys_held_elsewhere memory_redis store registry hash_class "RedisSink|redis:6379/0|prod"
      (self ∷ self ∷ [])
      "acme"
    ≡ some held
unfolding keys_held_elsewhere visit_tenants visit_all visit list_targets redis_key join Dict.get
    string_eq target_eq sorted_set insert_text text_ltb cut strip_prefix nat_eq target_after
elsewhere = refl

stale_keys-returns_example :
    (r : Stale) × (stale_keys memory_redis store registry hash_class [] "acme" "redis" "prod" []
      ≡ some r)
stale_keys-returns_example =
    stale_keys-returns memory_redis store registry hash_class [] "acme" "redis" "prod" [] digest
      file_sync (some old) "RedisSink|redis:6379/0|prod" ("prod" ∷ []) (self ∷ [], []) held
      target_found placed listed shared elsewhere

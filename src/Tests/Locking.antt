-- ===== src/Tests/Locking.antt =====
-- A server of locks in memory, and the theorems on the locks of a sync.
use var_track.Prelude.{
  String, ◌≡◌, refl, false, not, List, [], ◌∷◌, contains, contains-keep, keep, ◌==◌, string_eq,
  arith, if◌then◌else◌,
}
use var_track.Sync.Locks.{Locks, got, busy, target_locks}
use var_track.Sync.Locking.{IsServer, target_locks-released}

-- The locks of the sync. That of "qa" is held by another.
abbrev server : Locks
server = record {
  State = List String;
  acquire = λ s name. if name == "vt:sync-lock:acme:redis:qa" then (s, busy) else (name ∷ s, got);
  release = λ s name. keep (λ other. not (name == other)) s;
}

server-IsServer : IsServer server
server-IsServer = record {
  mine = λ s name. contains s name;
  mine-acquire = λ s name other. ground arith;
  mine-release = λ s name other. contains-keep (λ x. not (name == x)) s other;
}

target_locks-released_example :
    contains
      (target_locks server "acme" "redis" ("qa" ∷ "prod" ∷ []) (λ s. s) []).0
      "vt:sync-lock:acme:redis:prod"
    ≡ false
unfolding server-IsServer
target_locks-released_example =
    target_locks-released server server-IsServer "acme" "redis" ("qa" ∷ "prod" ∷ []) (λ s. s) []
      (λ t name. refl) (λ name. refl) "vt:sync-lock:acme:redis:prod"

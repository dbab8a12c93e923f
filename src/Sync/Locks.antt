-- ===== src/Sync/Locks.antt =====
-- `target_locks` of app/pipeline/stage_sync.py: one sync at a time in each environment of a datasource.
use var_track.Prelude.{String, Bool, true, false, if◌then◌else◌, List, [], ◌∷◌, ◌++◌, ◌<>◌}
use var_track.Prelude.Order.{sorted_set}

-- What `lock.acquire()` answers: `unreachable` is a call that raises.
pub data Acquired : Type 0 where
  got busy unreachable : Acquired

abbrev pub is_got : Acquired → Bool
is_got got = true
is_got _ = false

-- Redis as a server of locks, by the lock's name. It is a server that the program talks to, so it is a
-- parameter. An error of `release` is swallowed.
pub record Locks : Type 1 where
  pub State : Type 0
  pub acquire : State → String → State × Acquired
  pub release : State → String → State

unfoldable pub lock_name : String → String → String → String
lock_name tenant_id datasource env =
    "vt:sync-lock:" <> (tenant_id <> (":" <> (datasource <> (":" <> env))))

module _ (L : Locks) (tenant_id datasource : String) where
  -- What the loop over the environments leaves: the locks held, and whether none was busy.
  pub record Taken : Type 0 where
    pub state : L.State
    pub held : List String
    pub free : Bool

  abbrev pub next :
      (List String → L.State → Taken) → List String → String → L.State × Acquired → Taken
  next later held env (s, got) = later (held ++ env ∷ []) s
  next later held env (s, unreachable) = later held s
  next later held env (s, busy) = record { state = s; held = held; free = false }

  -- The loop, over the environments that are left.
  unfoldable pub take_locks : List String → List String → L.State → Taken
  take_locks [] held s = record { state = s; held = held; free = true }
  take_locks (env ∷ envs) held s =
      next (take_locks envs) held env (L.acquire s (lock_name tenant_id datasource env))

  -- `for lock in reversed(held)`
  unfoldable pub release_locks : List String → L.State → L.State
  release_locks [] s = s
  release_locks (env ∷ held) s =
      L.release (release_locks held s) (lock_name tenant_id datasource env)

  -- `with target_locks(…): body`, and whether the body was run: when it was not, TargetBusy is raised.
  unfoldable pub target_locks : List String → (L.State → L.State) → L.State → L.State × Bool
  target_locks envs body s =
      let taken = take_locks (sorted_set envs) [] s in
      let after = (if taken.free then body taken.state else taken.state) in
      (release_locks taken.held after, taken.free)

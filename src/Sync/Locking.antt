-- ===== src/Sync/Locking.antt =====
-- Syncs do not wait on each other, and leave no lock behind.
use var_track.Prelude.{
  String, ◌≡◌, ◌≢◌, refl, Bool, true, false, not, ◌&&◌, ◌||◌, List, [], ◌∷◌, ◌++◌, arith, any,
  any-append, ◌==◌, string_eq, if◌then◌else◌, if-cases,
}
use var_track.Prelude.Order.{sorted_set}
use var_track.Sync.Locks.{
  Acquired, is_got, got, busy, unreachable, Locks, lock_name, next, take_locks, release_locks,
  target_locks,
}

abbrev pub is_busy : Acquired → Bool
is_busy busy = true
is_busy _ = false

-- What is relied on of Redis while a sync takes its locks: taking a lock changes the answer for no other.
abbrev pub IsApart : Locks → Type 0
IsApart L =
    (s : L.State) (name other : String)
    → name ≢ other
    → is_busy (L.acquire (L.acquire s name).0 other).1 ≡ is_busy (L.acquire s other).1

module _ (L : Locks) (apart : IsApart L) (tenant_id datasource : String) where
  -- Another holds the lock of the environment.
  abbrev pub is_taken : L.State → String → Bool
  is_taken s env = is_busy (L.acquire s (lock_name tenant_id datasource env)).1

-- What is relied on of Redis: which locks the sync has, by name.
pub record IsServer (L : Locks) : Type 0 where
  pub mine : L.State → String → Bool
  pub mine-acquire :
      (s : L.State) (name other : String)
      → mine (L.acquire s name).0 other
        ≡ (mine s other || (name == other && is_got (L.acquire s name).1))
  pub mine-release :
      (s : L.State) (name other : String)
      → mine (L.release s name) other ≡ (mine s other && not (name == other))

module _ (L : Locks) (I : IsServer L) (tenant_id datasource : String) where
  open I use {mine}

  -- The lock is one of those of the environments.
  abbrev is_held : List String → String → Bool
  is_held held name = any (λ env. lock_name tenant_id datasource env == name) held

  mine-release_locks :
      (held : List String) (s : L.State) (name : String)
      → mine (release_locks L tenant_id datasource held s) name
        ≡ (mine s name && not (is_held held name))
  unfolding release_locks
  mine-release_locks [] s name = ground arith
  mine-release_locks (env ∷ held) s name = ground (
    arith,
    I.mine-release (release_locks L tenant_id datasource held s)
        (lock_name tenant_id datasource env) name,
    mine-release_locks held s name,
  )

  abbrev Owned : List String → L.State → Type 0
  Owned held s = (name : String) → mine s name ≡ true → is_held held name ≡ true

  next-Owned :
      (rest held : List String) (env : String) (s : L.State)
      → ((h : List String) (s : L.State)
          → Owned h s
          → Owned
              (take_locks L tenant_id datasource rest h s).held
              (take_locks L tenant_id datasource rest h s).state)
      → Owned held s
      → (o : L.State × Acquired)
      → ((name : String)
          → mine o.0 name
            ≡ (mine s name || (lock_name tenant_id datasource env == name && is_got o.1)))
      → let t = next L tenant_id datasource (take_locks L tenant_id datasource rest) held env o in
        Owned t.held t.state
  next-Owned rest held env s later h (s', got) m = later (held ++ env ∷ []) s' (λ name p.
      rw (any-append (λ e. lock_name tenant_id datasource e == name) held (env ∷ []))
        (ground (arith, m name, h name, p)))
  next-Owned rest held env s later h (s', unreachable) m =
      later held s' (λ name p. ground (arith, m name, h name, p))
  next-Owned rest held env s later h (s', busy) m = λ name p. ground (arith, m name, h name, p)

  take_locks-Owned :
      (rest held : List String) (s : L.State)
      → Owned held s
      → Owned
          (take_locks L tenant_id datasource rest held s).held
          (take_locks L tenant_id datasource rest held s).state
  unfolding take_locks
  take_locks-Owned [] held s h = h
  take_locks-Owned (env ∷ rest) held s h =
      next-Owned rest held env s (take_locks-Owned rest) h
        (L.acquire s (lock_name tenant_id datasource env))
        (I.mine-acquire s (lock_name tenant_id datasource env))

  -- A sync that held no lock before `target_locks` holds none after it, whether or not a lock was busy, when
  -- its body neither takes nor releases one.
  pub target_locks-released :
      (envs : List String) (body : L.State → L.State) (s : L.State)
      → ((t : L.State) (name : String) → mine (body t) name ≡ mine t name)
      → ((name : String) → mine s name ≡ false)
      → (name : String) → mine (target_locks L tenant_id datasource envs body s).0 name ≡ false
  unfolding target_locks
  target_locks-released envs body s keeps none_yet name =
      let taken = take_locks L tenant_id datasource (sorted_set envs) [] s in
      let after : L.State = if taken.free then body taken.state else taken.state in
      let owned =
        take_locks-Owned (sorted_set envs) [] s (λ n p. absurd (ground (arith, p, none_yet n)))
          name in
      let same : mine after name ≡ mine taken.state name =
        if-cases (λ (t : L.State). mine t name ≡ mine taken.state name) taken.free
          (body taken.state) taken.state (λ _. keeps taken.state name) (λ _. refl) in
      rw (mine-release_locks taken.held after name) (ground (arith, same, owned))

-- ===== src/Prelude/Dict.antt =====
-- Python's `dict`, in insertion order. The proofs of other modules go by the laws.
use var_track.Prelude.Tests.{Eq, ◌==◌, if◌then◌else◌}
use var_track.Prelude.Lists.{contains}
use mathlib.Core.Path.{◌≡◌, refl}
use mathlib.Core.Bool.{Bool, true, false, not, ◌&&◌}
use mathlib.Core.Option.{Option, none, some}
use mathlib.Core.List.{List, [], ◌∷◌}
use native.Mathlib.Omega.{arith}

abbrev pub Dict {ℓ κ} : Type ℓ → Type κ → Type (ℓ ⊔ κ)
Dict K V = List (K × V)

unfoldable pub keys {ℓ κ} : {K : Type ℓ} {V : Type κ} → Dict K V → List K
keys [] = []
keys ((k, v) ∷ d) = k ∷ keys d

abbrev pub is_some {ℓ} : {A : Type ℓ} → Option A → Bool
is_some none = false
is_some (some a) = true

-- `d or {}` of a value that may be absent
abbrev pub or_else {ℓ} : {A : Type ℓ} → Option A → A → A
or_else none d = d
or_else (some a) d = a

module _ {ℓ κ} {K : Type ℓ} {V : Type κ} ⦃e : Eq K⦄ where
  -- `d.get(k)`
  unfoldable pub get : Dict K V → K → Option V
  get [] k = none
  get ((j, v) ∷ d) k = if k == j then some v else get d k

  -- `k in d`
  abbrev pub has : Dict K V → K → Bool
  has d k = is_some (get d k)

  -- `d[k] = v`
  unfoldable pub put : Dict K V → K → V → Dict K V
  put [] k v = (k, v) ∷ []
  put ((j, w) ∷ d) k v = if k == j then (j, v) ∷ d else (j, w) ∷ put d k v

  -- `d.pop(k, None)`
  unfoldable pub pop : Dict K V → K → Dict K V
  pop [] k = []
  pop ((j, w) ∷ d) k = let rest = pop d k in if k == j then rest else (j, w) ∷ rest

  -- `d.setdefault(k, v)`
  abbrev pub set_default : Dict K V → K → V → Dict K V
  set_default d k v = if has d k then d else put d k v

  -- `{k: v for k, v in d.items() if p(k)}`
  unfoldable pub keep_keys : (K → Bool) → Dict K V → Dict K V
  keep_keys p [] = []
  keep_keys p ((k, v) ∷ d) = let rest = keep_keys p d in if p k then (k, v) ∷ rest else rest

  -- `{**d, **c}`
  unfoldable pub update : Dict K V → Dict K V → Dict K V
  unfolding put
  update d [] = d
  update d ((k, v) ∷ c) = update (put d k v) c

  pub get-put :
      (d : Dict K V) (k j : K) (v : V) → get (put d k v) j ≡ (if j == k then some v else get d j)
  unfolding get put
  get-put [] k j v = refl
  get-put ((i, w) ∷ d) k j v = ground (arith, get-put d k j v)

  pub get-pop : (d : Dict K V) (k j : K) → get (pop d k) j ≡ (if j == k then none else get d j)
  unfolding get pop
  get-pop [] k j = ground arith
  get-pop ((i, w) ∷ d) k j = ground (arith, get-pop d k j)

  pub contains-keys : (d : Dict K V) (k : K) → contains (keys d) k ≡ has d k
  unfolding keys get
  contains-keys [] k = refl
  contains-keys ((j, v) ∷ d) k = ground (arith, contains-keys d k)

  pub get-keep_keys :
      (p : K → Bool) (d : Dict K V) (k : K)
      → get (keep_keys p d) k ≡ (if p k then get d k else none)
  unfolding keep_keys get
  get-keep_keys p [] k = ground arith
  get-keep_keys p ((j, v) ∷ d) k = ground (arith, get-keep_keys p d k)

  -- No key is there twice, as in every dict.
  abbrev pub IsDict : Dict K V → Type 0
  IsDict [] = Unit
  IsDict ((k, v) ∷ d) = (has d k ≡ false) × IsDict d

  -- `{**d, **c}`: what `c` says goes before what `d` says.
  pub get-update :
      (d c : Dict K V) (k : K)
      → IsDict c
      → get (update d c) k ≡ (if has c k then get c k else get d k)
  unfolding update get
  get-update d [] k u = refl
  get-update d ((j, v) ∷ c) k (fresh, u) =
      ground (arith, get-update (put d j v) c k u, get-put d j k v, fresh)

  -- A key that `c` does not have is as in `d`.
  pub get-update_other : (d c : Dict K V) (k : K) → has c k ≡ false → get (update d c) k ≡ get d k
  unfolding update get
  get-update_other d [] k h = refl
  get-update_other d ((j, v) ∷ c) k h =
      ground (arith, get-update_other (put d j v) c k, get-put d j k v, h)

  pub IsDict-put : (d : Dict K V) (k : K) (v : V) → IsDict d → IsDict (put d k v)
  unfolding put get
  IsDict-put [] k v u = (refl, tt)
  IsDict-put ((j, w) ∷ d) k v (fresh, u) =
      ground (arith, IsDict-put d k v u, get-put d k j v, fresh)

  pub IsDict-pop : (d : Dict K V) (k : K) → IsDict d → IsDict (pop d k)
  unfolding pop get
  IsDict-pop [] k u = tt
  IsDict-pop ((j, w) ∷ d) k (fresh, u) = ground (arith, IsDict-pop d k u, get-pop d k j, fresh)

  pub IsDict-update : (d c : Dict K V) → IsDict d → IsDict (update d c)
  unfolding update
  IsDict-update d [] u = u
  IsDict-update d ((j, v) ∷ c) u = IsDict-update (put d j v) c (IsDict-put d j v u)

  pub IsDict-keep_keys : (p : K → Bool) (d : Dict K V) → IsDict d → IsDict (keep_keys p d)
  unfolding keep_keys get
  IsDict-keep_keys p [] u = tt
  IsDict-keep_keys p ((j, w) ∷ d) (fresh, u) =
      ground (arith, IsDict-keep_keys p d u, get-keep_keys p d j, fresh)

  -- `d.setdefault(k, v)`, read back
  pub get-set_default :
      (d : Dict K V) (k j : K) (v : V)
      → get (set_default d k v) j ≡ (if (j == k) && not (has d k) then some v else get d j)
  get-set_default d k j v = ground (arith, get-put d k j v)

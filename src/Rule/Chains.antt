-- ===== src/Rule/Chains.antt =====
-- Presets that extend presets: the chain of names ends.
use var_track.Prelude.{
  ℕ, ◌<◌, ◌≤◌, String, ◌≡◌, ◌≢◌, refl, ◌⊎◌, inl, inr, Bool, true, false, not, Option, none, some,
  List, [], ◌∷◌, ◌++◌, contains, contains-append, length, keep, all, ◌==◌, string_eq, arith,
  Bool-cases,
}
use var_track.Prelude.Dict
use var_track.Prelude.Dict.{Dict, is_some, get-put}
use var_track.Value.{Value, text, Record}
use var_track.Rule.Presets.{
  Outcome, ok, fault, Fault, preset_error, recursion_error, ◌>>=◌, or_fault, PresetCache, FileId,
  file_eq, extends_of,
}

pub Outcome-cases {ℓ} :
    {A : Type ℓ} (m : Outcome A) → ((a : A) × (m ≡ ok a)) ⊎ ((e : Fault) × (m ≡ fault e))
Outcome-cases (ok a) = inl (a, refl)
Outcome-cases (fault e) = inr (e, refl)

-- A chain that did not raise: no step of it did.
pub >>=-eq-ok {ℓ κ} :
    {R : Type ℓ} {S : Type κ} {out : S} (first : Outcome R) (next : R → Outcome S)
    → (first >>= next) ≡ ok out
    → (value : R) × (first ≡ ok value) × (next value ≡ ok out)
>>=-eq-ok (fault stop) next e = cc
>>=-eq-ok (ok value) next e = (value, refl, e)

-- What it returns has the property, and it raises no RecursionError.
abbrev pub Holds : {A : Type 0} → (A → Type 0) → Outcome A → Type 0
Holds P (ok a) = P a
Holds P (fault e) = e ≢ recursion_error

pub Holds->>= :
    {A B : Type 0} (P : A → Type 0) (Q : B → Type 0) (m : Outcome A) (f : A → Outcome B)
    → Holds P m
    → ((a : A) → P a → Holds Q (f a))
    → Holds Q (m >>= f)
Holds->>= P Q (ok a) f h k = k a h
Holds->>= P Q (fault e) f h k = h

pub Holds-ends :
    {A : Type 0} (P : A → Type 0) (m : Outcome A) → Holds P m → m ≢ fault recursion_error
Holds-ends P (ok a) h = λ p. absurd (ground (arith, p))
Holds-ends P (fault e) h = λ p. h (ground (arith, p))

pub preset_error-apart : preset_error ≢ recursion_error
preset_error-apart = λ p. absurd (ground (arith, p))

pub Holds-or_fault : {A : Type 0} (o : Option A) → Holds (λ a. Unit) (or_fault preset_error o)
Holds-or_fault none = preset_error-apart
Holds-or_fault (some a) = tt

-- How many of the known names are not in a chain
abbrev pub free : List String → List String → ℕ
free known chain = length (keep (λ s. not (contains chain s)) known)

free_le :
    (known chain : List String) (name : String) → free known (chain ++ name ∷ []) ≤ free known chain
free_le [] chain name = ground arith
free_le (s ∷ known) chain name =
    ground (arith, free_le known chain name, contains-append chain (name ∷ []) s)

-- A known name that is added to a chain is one less that is free.
pub free-append :
    (known chain : List String) (name : String)
    → contains known name ≡ true
    → contains chain name ≡ false
    → free known (chain ++ name ∷ []) < free known chain
free-append [] chain name h k = absurd (ground (arith, h))
free-append (s ∷ known) chain name h k = elim (Bool-cases (name == s)) [
  | inl same ↦
      ground (arith, free_le known chain name, contains-append chain (name ∷ []) s, same, k)
  | inr other ↦
      ground (arith, free-append known chain name, contains-append chain (name ∷ []) s, other, h, k)
]

pub free_bound : (known chain : List String) → free known chain ≤ length known
free_bound [] chain = ground arith
free_bound (s ∷ known) chain = ground (arith, free_bound known chain)

-- Every preset that a config names is a known one.
abbrev pub is_known : List String → Value → Bool
is_known known (text s) = contains known s
is_known known v = true

abbrev pub all_known : List String → Outcome (List Value) → Bool
all_known known (ok names) = all (is_known known) names
all_known known (fault e) = true

abbrev pub knows : List String → Record → Bool
knows known config = all_known known (extends_of config)

-- The presets that the cache holds name known presets.
abbrev pub IsKnownCache : List String → PresetCache → Type 0
IsKnownCache known cache =
    (id : FileId) (settings : Record)
    → Dict.get cache id ≡ some settings
    → knows known settings ≡ true

pub IsKnownCache-put :
    (known : List String) (cache : PresetCache) (id : FileId) (settings : Record)
    → IsKnownCache known cache
    → knows known settings ≡ true
    → IsKnownCache known (Dict.put cache id settings)
IsKnownCache-put known cache id settings h k j found e = elim (Bool-cases (j == id)) [
  | inl same ↦
      let here : settings ≡ found = ground (arith, get-put cache id j settings, same, e) in
      rw (← here) k
  | inr other ↦ h j found (ground (arith, get-put cache id j settings, other, e))
]

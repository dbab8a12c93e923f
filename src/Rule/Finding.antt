-- ===== src/Rule/Finding.antt =====
-- The first rule for a platform and a datasource.
use var_track.Prelude.{
  ◌≡◌, refl, inl, inr, true, false, ◌&&◌, none, some, List, [], ◌∷◌, ◌++◌, string_eq, if◌then◌else◌,
  arith, Bool-cases, any,
}
use var_track.Prelude.Dict.{is_some}
use var_track.Value.{Value, Record}
use var_track.Rule.Tenants.{is_for, find}

pub find-append :
    (xs ys : List Record) (p d : Value)
    → find (xs ++ ys) p d ≡ (if is_some (find xs p d) then find xs p d else find ys p d)
unfolding find
find-append [] ys p d = refl
find-append (x ∷ xs) ys p d = ground (arith, find-append xs ys p d)

-- A rule that find gives is for the platform and the datasource.
pub find-is_for :
    (rules : List Record) (p d : Value) (rule : Record)
    → find rules p d ≡ some rule
    → is_for p d rule ≡ true
unfolding find
find-is_for [] p d rule h = absurd (ground (arith, h))
find-is_for (r ∷ rules) p d rule h = elim (Bool-cases (is_for p d r)) [
  | inl here ↦ let e : r ≡ rule = ground (arith, rw here at h) in rw (← e) here
  | inr other ↦ find-is_for rules p d rule (rw other at h)
]

-- config.cue has no second rule for the platform and the datasource.
abbrev pub IsSingle : Value → Value → List Record → Type 0
IsSingle p d [] = Unit
IsSingle p d (cue ∷ cues) = ((is_for p d cue && any (is_for p d) cues) ≡ false) × IsSingle p d cues

pub find-none :
    (rules : List Record) (p d : Value) → any (is_for p d) rules ≡ false → find rules p d ≡ none
unfolding find
find-none [] p d h = refl
find-none (r ∷ rules) p d h = ground (arith, h, find-none rules p d)

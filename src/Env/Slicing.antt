-- ===== src/Env/Slicing.antt =====
-- What a slice of a file holds.
use var_track.Prelude.{
  String, ◌≡◌, refl, ap, Bool, true, false, none, some, ◌==◌, string_eq, if◌then◌else◌, Bool-cases,
  inl, inr, arith,
}
use var_track.Prelude.Dict
use var_track.Prelude.Dict.{Dict, IsDict, or_else, get-update}
use var_track.Value.{Value, null, bool, num, text, list, dict, Record, to_dict}
use var_track.Env.Slice.{
  pattern_1, pattern_2, pattern_3, no_pattern, section, scalars, env_dicts, detect_record, slice,
  sliced, resolve_env_slice, detect_pattern,
}

-- What the tests of `slice` choose is what those of `detect_pattern` say.
chosen :
    (a b c : Bool) (x y z : Record)
    → (if a then pattern_1 else if b then pattern_2 else if c then pattern_3 else no_pattern)
      ≡ no_pattern
    → (if a then some x else if b then some y else if c then some z else none) ≡ none
chosen true b c x y z h = absurd (ground (arith, h))
chosen false true c x y z h = absurd (ground (arith, h))
chosen false false true x y z h = absurd (ground (arith, h))
chosen false false false x y z h = refl

first_chosen :
    (a b c : Bool) (x y z : Record)
    → (if a then pattern_1 else if b then pattern_2 else if c then pattern_3 else no_pattern)
      ≡ pattern_1
    → (if a then some x else if b then some y else if c then some z else none) ≡ some x
first_chosen true b c x y z h = refl
first_chosen false true c x y z h = absurd (ground (arith, h))
first_chosen false false true x y z h = absurd (ground (arith, h))
first_chosen false false false x y z h = absurd (ground (arith, h))

third_chosen :
    (a b c : Bool) (x y z : Record)
    → (if a then pattern_1 else if b then pattern_2 else if c then pattern_3 else no_pattern)
      ≡ pattern_3
    → (if a then some x else if b then some y else if c then some z else none) ≡ some z
third_chosen true b c x y z h = absurd (ground (arith, h))
third_chosen false true c x y z h = absurd (ground (arith, h))
third_chosen false false true x y z h = refl
third_chosen false false false x y z h = absurd (ground (arith, h))

slice-no_pattern :
    (d : Record) (env : String) → detect_record d env ≡ no_pattern → slice d env ≡ none
unfolding slice detect_record
slice-no_pattern d env h = chosen _ _ _ _ _ _ h

-- The data comes back as it is where detect_pattern says that no pattern is in it.
pub resolve_env_slice-unchanged :
    (v : Value) (env : String) → detect_pattern v env ≡ no_pattern → resolve_env_slice v env ≡ v
unfolding resolve_env_slice detect_pattern
resolve_env_slice-unchanged (dict fs) env h = elim (Bool-cases (env == "")) [
  | inl empty ↦ rw empty refl
  | inr other ↦ rw other (ap (sliced (dict fs)) (slice-no_pattern (to_dict fs) env (rw other at h)))
]
resolve_env_slice-unchanged null env h = refl
resolve_env_slice-unchanged (bool b) env h = refl
resolve_env_slice-unchanged (num n) env h = refl
resolve_env_slice-unchanged (text s) env h = refl
resolve_env_slice-unchanged (list vs) env h = refl

-- Where every value is a section, a key of the slice is the environment's if its section has it, and the
-- default section's otherwise; for sections whose keys are each there once.
pub slice-pattern_1 :
    (d : Record) (env k : String)
    → IsDict (section d env)
    → detect_record d env ≡ pattern_1
    → (out : Record) × (slice d env ≡ some out)
      × (Dict.get out k ≡ (
          if Dict.has (section d env) k
          then Dict.get (section d env) k
          else Dict.get (section d "default") k))
unfolding slice detect_record
slice-pattern_1 d env k u h = (
  Dict.update (section d "default") (section d env),
  first_chosen _ _ _ _ _ _ h,
  get-update (section d "default") (section d env) k u,
)

-- Where sections stand beside plain values, a key of the slice is the environment's if its section has
-- it, else the default section's if that has it, and the plain value otherwise; for sections whose keys
-- are each there once.
pub slice-pattern_3 :
    (d : Record) (env k : String)
    → IsDict (section (env_dicts d) env)
    → IsDict (section (env_dicts d) "default")
    → detect_record d env ≡ pattern_3
    → (out : Record) × (slice d env ≡ some out)
      × (Dict.get out k ≡ (
          if Dict.has (section (env_dicts d) env) k
          then Dict.get (section (env_dicts d) env) k
          else if Dict.has (section (env_dicts d) "default") k
          then Dict.get (section (env_dicts d) "default") k
          else Dict.get (scalars d) k))
unfolding slice detect_record
slice-pattern_3 d env k u w h =
    let base = Dict.update (scalars d) (section (env_dicts d) "default") in
    (
      Dict.update base (section (env_dicts d) env),
      third_chosen _ _ _ _ _ _ h,
      rw (get-update base (section (env_dicts d) env) k u)
          (rw (get-update (scalars d) (section (env_dicts d) "default") k w) refl),
    )

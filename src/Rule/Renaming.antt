-- ===== src/Rule/Renaming.antt =====
-- What with_current_names leaves.
use var_track.Prelude.{
  String, ◌≡◌, refl, Bool, true, false, not, ◌||◌, ◌&&◌, Option, none, List, [], ◌∷◌, any, contains,
  ◌==◌, string_eq, if◌then◌else◌, arith, Bool-cases, Option-cases, if-cases, inl, inr, All,
  All_of_In, In-of_contains,
}
use var_track.Prelude.Dict
use var_track.Prelude.Dict.{
  Dict, IsDict, set_default, get-pop, get-put, get-set_default, contains-keys, IsDict-pop,
  IsDict-put,
}
use var_track.Value.{Value, Record}
use var_track.Rule.Renamed.{
  removed_options, drop_removed, rename_one, rename_all, with_current_names, get-drop_removed,
  earliest,
}

abbrev pub currents : Dict String String → List String
currents [] = []
currents ((old, current) ∷ renamed) = current ∷ currents renamed

-- No old name is a current one or a removed one, and no current one was removed.
abbrev pub IsRenaming : Dict String String → Type 0
IsRenaming renamed =
    IsDict renamed
    × All (λ c. (Dict.has renamed c || contains removed_options c) ≡ false) (currents renamed)
    × All (λ k. Dict.has renamed k ≡ false) removed_options

get-rename_one :
    (old current : String) (out : Record) (k : String)
    → (current == old) ≡ false
    → Dict.get (rename_one old current out) k ≡ (
        if k == old
        then none
        else if (k == current) && (not (Dict.has out current) && Dict.has out old)
        then Dict.get out old
        else Dict.get out k)
get-rename_one old current out k apart = elim (Option-cases (Dict.get out old)) [
  | inl absent ↦ rw absent (ground (arith, absent))
  | inr (v, found) ↦ rw found (
      ground (
        arith,
        found,
        apart,
        get-set_default (Dict.pop out old) current k v,
        get-pop out old k,
        get-pop out old current,
      ))
]

earliest-same :
    (renamed : Dict String String) (out other : Record) (k : String)
    → ((o : String) → Dict.has renamed o ≡ true → Dict.get out o ≡ Dict.get other o)
    → earliest renamed out k ≡ earliest renamed other k
unfolding Dict.get
earliest-same [] out other k h = refl
earliest-same ((old, current) ∷ renamed) out other k h =
    ground (arith, h old, earliest-same renamed out other k (λ o m. h o (ground (arith, m))))

pub earliest-none :
    (renamed : Dict String String) (out : Record) (k : String)
    → contains (currents renamed) k ≡ false
    → earliest renamed out k ≡ none
earliest-none [] out k h = refl
earliest-none ((old, current) ∷ renamed) out k h = ground (arith, h, earliest-none renamed out k)

get-rename_all :
    (renamed : Dict String String) (out : Record) (k : String)
    → IsDict renamed
    → ((o : String) → Dict.has renamed o ≡ true → contains (currents renamed) o ≡ false)
    → Dict.get (rename_all renamed out) k ≡ (
        if Dict.has renamed k
        then none
        else if Dict.has out k
        then Dict.get out k
        else earliest renamed out k)
unfolding rename_all Dict.get
get-rename_all [] out k u h = ground arith
get-rename_all ((old, current) ∷ renamed) out k (fresh, u) h =
    let apart : (current == old) ≡ false = ground (arith, h old) in
    let next = rename_one old current out in
    let later : (o : String) → Dict.has renamed o ≡ true → contains (currents renamed) o ≡ false =
      λ o m. ground (arith, h o, m) in
    let same : (o : String) → Dict.has renamed o ≡ true → Dict.get next o ≡ Dict.get out o =
      λ o m. ground (arith, get-rename_one old current out o apart, h o, m, fresh) in
    ground (
      arith,
      get-rename_all renamed next k u later,
      get-rename_one old current out k apart,
      earliest-same renamed next out k same,
      earliest-none renamed next old,
      h old,
    )

none_of_any :
    (p : String → Bool) (xs : List String) (a : String)
    → any p xs ≡ false
    → contains xs a ≡ true
    → p a ≡ false
none_of_any p [] a h m = ground (arith, m)
none_of_any p (x ∷ xs) a h m = elim (Bool-cases (a == x)) [
  | inl same ↦ ground (arith, same, h)
  | inr other ↦ none_of_any p xs a (ground (arith, h)) (ground (arith, m, other))
]

earliest-unset :
    (renamed : Dict String String) (out : Record) (k : String)
    → any (Dict.has out) (Dict.keys renamed) ≡ false
    → earliest renamed out k ≡ none
unfolding Dict.keys
earliest-unset [] out k h = refl
earliest-unset ((old, current) ∷ renamed) out k h = ground (arith, h, earliest-unset renamed out k)

currents_apart :
    (renamed : Dict String String) (o : String)
    → IsRenaming renamed
    → (Dict.has renamed o || contains removed_options o) ≡ true
    → contains (currents renamed) o ≡ false
currents_apart renamed o (_, h, _) m = elim (Bool-cases (contains (currents renamed) o)) [
  | inr out ↦ out
  | inl within ↦ absurd (
      ground (
        arith,
        m,
        All_of_In (λ c. (Dict.has renamed c || contains removed_options c) ≡ false)
            (currents renamed) h o (In-of_contains o (currents renamed) within),
      ))
]

current_value : Dict String String → Record → String → Option Value
current_value renamed options k =
    if Dict.has renamed k || contains removed_options k
    then none
    else if Dict.has options k
    then Dict.get options k
    else earliest renamed options k

get-renamed :
    (renamed : Dict String String) (options : Record) (k : String)
    → IsRenaming renamed
    → Dict.get (rename_all renamed (drop_removed removed_options options)) k
      ≡ current_value renamed options k
unfolding current_value
get-renamed renamed options k (u, h, g) =
    let out = drop_removed removed_options options in
    let kept : (o : String) → Dict.has renamed o ≡ true → Dict.get out o ≡ Dict.get options o =
      λ o m. elim (Bool-cases (contains removed_options o)) [
        | inl gone ↦ absurd (
            ground (
              arith,
              m,
              All_of_In (λ c. Dict.has renamed c ≡ false) removed_options g o
                  (In-of_contains o removed_options gone),
            ))
        | inr there ↦ ground (arith, there, get-drop_removed removed_options options o)
      ] in
    ground (
      arith,
      get-rename_all renamed out k u
          (λ o m. currents_apart renamed o (u, h, g) (ground (arith, m))),
      get-drop_removed removed_options options k,
      earliest-same renamed out options k kept,
      earliest-none renamed options k,
      currents_apart renamed k (u, h, g),
    )

get-unset :
    (renamed : Dict String String) (options : Record) (k : String)
    → any (Dict.has options) (Dict.keys renamed) ≡ false
    → any (Dict.has options) removed_options ≡ false
    → Dict.get options k ≡ current_value renamed options k
unfolding current_value
get-unset renamed options k h g =
    let old = none_of_any (Dict.has options) (Dict.keys renamed) k h in
    let gone = none_of_any (Dict.has options) removed_options k g in
    ground (arith, old, gone, contains-keys renamed k, earliest-unset renamed options k h)

-- After with_current_names no key is a removed option or an old name, a key that was set is as it was,
-- and any other key has the value of the first of its old names that was set; for renames whose
-- current names are neither old names nor removed ones.
pub get-with_current_names :
    (renamed : Dict String String) (options : Record) (k : String)
    → IsRenaming renamed
    → Dict.get (with_current_names renamed options) k ≡ (
        if Dict.has renamed k || contains removed_options k
        then none
        else if Dict.has options k
        then Dict.get options k
        else earliest renamed options k)
unfolding with_current_names current_value
get-with_current_names renamed options k r =
    if-cases (λ out. Dict.get out k ≡ current_value renamed options k)
      (any (Dict.has options) (Dict.keys renamed) || any (Dict.has options) removed_options)
      (rename_all renamed (drop_removed removed_options options)) options
      (λ some_key. get-renamed renamed options k r)
      (λ no_key. get-unset renamed options k (ground (arith, no_key)) (ground (arith, no_key)))

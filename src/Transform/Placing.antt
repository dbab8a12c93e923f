-- ===== src/Transform/Placing.antt =====
-- What is put at a key of a file's shape is found there.
use Prim.Native.String.append
use var_track.Prelude.{
  ℕ, zero, suc, ◌+◌, String, ◌<>◌, ◌≡◌, ◌≢◌, refl, ap, true, some, List, [], ◌∷◌, arith,
  Option-cases, Bool-cases, inl, inr, string_eq,
}
use var_track.Prelude.Dict
use var_track.Prelude.Dict.{Dict, get-put, or_else}
use var_track.Value.{
  Value, null, bool, num, text, list, dict, Items, no_item, item, no_field, Record, to_dict,
  of_dict,
}
use var_track.Transform.Shape.{
  join, item_at, set_item, named_item, index_of, is_container, child_container, find, put_at,
}

to_dict-of_dict : (d : Record) → to_dict (of_dict d) ≡ d
unfolding to_dict of_dict
to_dict-of_dict [] = refl
to_dict-of_dict ((k, v) ∷ d) = ap (◌∷◌ (k, v)) (to_dict-of_dict d)

size : String → ℕ
size String.[] = 0
size (String.◌∷◌ c s) = suc (size s)

size-append : (s t : String) → size (s <> t) ≡ size s + size t
unfolding size
size-append String.[] t =
    let e : size ("" <> t) ≡ size t = ap size (λ i. append.nil t i) in omega (arith, e)
size-append (String.◌∷◌ c s) t =
    let e : size (String.◌∷◌ c s <> t) ≡ suc (size (s <> t)) = ap size (λ i. append.cons c s t i) in
    omega (arith, e, size-append s t)

-- A path of two parts or more is not its first part.
longer : (head rest : String) → head <> ("." <> rest) ≢ head
unfolding size
longer head rest e = omega (arith, ap size e, size-append head ("." <> rest), size-append "." rest)

item_at-set_item :
    (vs : Items) (i : ℕ) (v w : Value)
    → item_at vs i ≡ some v
    → item_at (set_item vs i w) i ≡ some w
unfolding item_at set_item
item_at-set_item no_item i v w e = absurd (ground (arith, e))
item_at-set_item (item u vs) zero v w e = refl
item_at-set_item (item u vs) (suc i) v w e = item_at-set_item vs i v w e

-- Only a dict or a list is changed.
put_at-container :
    (tree : Value) (parts : List String) (value changed : Value)
    → put_at tree parts value ≡ some changed
    → is_container changed ≡ true
unfolding put_at
put_at-container null parts value changed e = absurd (ground (arith, e))
put_at-container (bool b) parts value changed e = absurd (ground (arith, e))
put_at-container (num n) parts value changed e = absurd (ground (arith, e))
put_at-container (text s) parts value changed e = absurd (ground (arith, e))
put_at-container (dict fs) [] value changed e = absurd (ground (arith, e))
put_at-container (dict fs) (head ∷ []) value changed e = ground (arith, e)
put_at-container (dict fs) (head ∷ (next ∷ rest)) value changed e =
    let d = to_dict fs in
    elim (Bool-cases (Dict.has d (join (head ∷ (next ∷ rest))))) [
      | inl here ↦ ground (arith, e, here)
      | inr absent ↦
          elim (Option-cases (
            put_at (or_else (child_container (Dict.get d head)) (dict no_field)) (next ∷ rest)
              value)) [
                | inl none_there ↦ absurd (ground (arith, e, absent, none_there))
                | inr (w, found) ↦ ground (arith, e, absent, found)
              ]
    ]
put_at-container (list vs) [] value changed e = absurd (ground (arith, e))
put_at-container (list vs) (head ∷ []) value changed e = elim (Option-cases (named_item vs head)) [
  | inl absent ↦ absurd (ground (arith, e, absent))
  | inr ((i, v), known) ↦ ground (arith, e, known)
]
put_at-container (list vs) (head ∷ (next ∷ rest)) value changed e =
    elim (Option-cases (named_item vs head)) [
      | inl absent ↦ absurd (ground (arith, e, absent))
      | inr ((i, v), known) ↦ elim (Option-cases (put_at v (next ∷ rest) value)) [
        | inl none_there ↦ absurd (ground (arith, e, known, none_there))
        | inr (w, found) ↦ ground (arith, e, known, found)
      ]
    ]

-- In a list, the item that is set is the one that is named.
named_item-set_item :
    (vs : Items) (head : String) (i : ℕ) (v w : Value)
    → named_item vs head ≡ some (i, v)
    → named_item (set_item vs i w) head ≡ some (i, w)
named_item-set_item vs head i v w e = elim (Option-cases (index_of head)) [
  | inl none_there ↦ absurd (ground (arith, e, none_there))
  | inr (j, index) ↦ elim (Option-cases (item_at vs j)) [
    | inl absent ↦ absurd (ground (arith, e, index, absent))
    | inr (u, there) ↦ ground (arith, e, index, there, item_at-set_item vs j u w there)
  ]
]

-- What file_shape puts at a key it finds there, when it has a place for it.
pub find-put_at :
    (tree : Value) (parts : List String) (value changed : Value)
    → put_at tree parts value ≡ some changed
    → find changed parts ≡ some value
unfolding put_at find join
find-put_at null parts value changed e = absurd (ground (arith, e))
find-put_at (bool b) parts value changed e = absurd (ground (arith, e))
find-put_at (num n) parts value changed e = absurd (ground (arith, e))
find-put_at (text s) parts value changed e = absurd (ground (arith, e))
find-put_at (dict fs) [] value changed e = absurd (ground (arith, e))
find-put_at (dict fs) (head ∷ []) value changed e = ground (
  arith,
  e,
  to_dict-of_dict (Dict.put (to_dict fs) head value),
  get-put (to_dict fs) head head value,
)
find-put_at (dict fs) (head ∷ (next ∷ rest)) value changed e =
    let d = to_dict fs in
    let key = join (head ∷ (next ∷ rest)) in
    let child = or_else (child_container (Dict.get d head)) (dict no_field) in
    elim (Bool-cases (Dict.has d key)) [
      | inl here ↦
          ground (arith, e, here, to_dict-of_dict (Dict.put d key value), get-put d key key value)
      | inr absent ↦ elim (Option-cases (put_at child (next ∷ rest) value)) [
        | inl none_there ↦ absurd (ground (arith, e, absent, none_there))
        | inr (w, found) ↦ ground (
          arith,
          e,
          absent,
          found,
          to_dict-of_dict (Dict.put d head w),
          get-put d head key w,
          get-put d head head w,
          longer head (join (next ∷ rest)),
          put_at-container child (next ∷ rest) value w found,
          find-put_at child (next ∷ rest) value w found,
        )
      ]
    ]
find-put_at (list vs) [] value changed e = absurd (ground (arith, e))
find-put_at (list vs) (head ∷ []) value changed e = elim (Option-cases (named_item vs head)) [
  | inl absent ↦ absurd (ground (arith, e, absent))
  | inr ((i, v), known) ↦ ground (arith, e, known, named_item-set_item vs head i v value known)
]
find-put_at (list vs) (head ∷ (next ∷ rest)) value changed e =
    elim (Option-cases (named_item vs head)) [
      | inl absent ↦ absurd (ground (arith, e, absent))
      | inr ((i, v), known) ↦ elim (Option-cases (put_at v (next ∷ rest) value)) [
        | inl none_there ↦ absurd (ground (arith, e, known, none_there))
        | inr (w, found) ↦ ground (
          arith,
          e,
          known,
          found,
          named_item-set_item vs head i v w known,
          find-put_at v (next ∷ rest) value w found,
        )
      ]
    ]

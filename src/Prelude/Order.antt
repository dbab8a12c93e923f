-- ===== src/Prelude/Order.antt =====
-- Python's order of texts, by code point, and `sorted(set(xs))`.
use Prim.Native.Char.{code}
use Prim.Native.String.{String}
use mathlib.Core.Path.{◌≡◌, refl, ap₂}
use mathlib.Core.Bool.{Bool, true, false, ◌||◌}
use mathlib.Core.List.{List, [], ◌∷◌}
use native.Mathlib.Omega.{arith}
use text.Mathlib.TextEquality.{Char-path}
use var_track.Prelude.Tests.{◌==◌, string_eq, ltb, if◌then◌else◌}
use var_track.Prelude.Lists.{contains, All}

-- `s < t`
unfoldable pub text_ltb : String → String → Bool
text_ltb String.[] String.[] = false
text_ltb String.[] (String.◌∷◌ d t) = true
text_ltb (String.◌∷◌ c s) String.[] = false
text_ltb (String.◌∷◌ c s) (String.◌∷◌ d t) =
    let rest = text_ltb s t in
    if ltb (code c) (code d) then true else if ltb (code d) (code c) then false else rest

pub text_ltb_irrefl : (s : String) → text_ltb s s ≡ false
unfolding text_ltb
text_ltb_irrefl String.[] = refl
text_ltb_irrefl (String.◌∷◌ c s) = ground (arith, text_ltb_irrefl s)

pub text_ltb_trans :
    (s t u : String) → text_ltb s t ≡ true → text_ltb t u ≡ true → text_ltb s u ≡ true
unfolding text_ltb
text_ltb_trans String.[] String.[] u h k = ground arith
text_ltb_trans String.[] (String.◌∷◌ d t) String.[] h k = ground arith
text_ltb_trans String.[] (String.◌∷◌ d t) (String.◌∷◌ e u) h k = refl
text_ltb_trans (String.◌∷◌ c s) String.[] u h k = ground arith
text_ltb_trans (String.◌∷◌ c s) (String.◌∷◌ d t) String.[] h k = ground arith
text_ltb_trans (String.◌∷◌ c s) (String.◌∷◌ d t) (String.◌∷◌ e u) h k =
    ground (arith, text_ltb_trans s t u)

pub text_ltb_total : (s t : String) → text_ltb s t ≡ false → text_ltb t s ≡ false → s ≡ t
unfolding text_ltb
text_ltb_total String.[] String.[] h k = refl
text_ltb_total String.[] (String.◌∷◌ d t) h k = ground arith
text_ltb_total (String.◌∷◌ c s) String.[] h k = ground arith
text_ltb_total (String.◌∷◌ c s) (String.◌∷◌ d t) h k =
    ground (arith, Char-path c d, text_ltb_total s t)

-- The place of `a` in a sorted list without duplicates.
unfoldable pub insert_text : String → List String → List String
insert_text a [] = a ∷ []
insert_text a (x ∷ xs) =
    let rest = insert_text a xs in
    if a == x then x ∷ xs else if text_ltb a x then a ∷ x ∷ xs else x ∷ rest

-- `sorted(set(xs))`
unfoldable pub sorted_set : List String → List String
unfolding insert_text
sorted_set [] = []
sorted_set (x ∷ xs) = insert_text x (sorted_set xs)

contains-insert_text :
    (a : String) (xs : List String) (b : String)
    → contains (insert_text a xs) b ≡ (b == a || contains xs b)
unfolding insert_text
contains-insert_text a [] b = refl
contains-insert_text a (x ∷ xs) b = ground (arith, contains-insert_text a xs b)

pub contains-sorted_set :
    (xs : List String) (b : String) → contains (sorted_set xs) b ≡ contains xs b
unfolding sorted_set
contains-sorted_set [] b = refl
contains-sorted_set (x ∷ xs) b =
    ground (arith, contains-insert_text x (sorted_set xs) b, contains-sorted_set xs b)

-- Each text is before all that follow it.
abbrev pub IsAscending : List String → Type 0
IsAscending [] = Unit
IsAscending (x ∷ xs) = All (λ y. text_ltb x y ≡ true) xs × IsAscending xs

All-insert_text :
    (y a : String) (xs : List String)
    → text_ltb y a ≡ true
    → All (λ z. text_ltb y z ≡ true) xs
    → All (λ z. text_ltb y z ≡ true) (insert_text a xs)
unfolding insert_text
All-insert_text y a [] p h = (p, tt)
All-insert_text y a (x ∷ xs) p h = ground (arith, All-insert_text y a xs p h.1)

All-text_ltb_trans :
    (y x : String) (xs : List String)
    → text_ltb y x ≡ true
    → All (λ z. text_ltb x z ≡ true) xs
    → All (λ z. text_ltb y z ≡ true) xs
All-text_ltb_trans y x [] p h = tt
All-text_ltb_trans y x (z ∷ xs) p (q, h) = (text_ltb_trans y x z p q, All-text_ltb_trans y x xs p h)

insert_text-IsAscending :
    (a : String) (xs : List String) → IsAscending xs → IsAscending (insert_text a xs)
unfolding insert_text
insert_text-IsAscending a [] h = (tt, tt)
insert_text-IsAscending a (x ∷ xs) (h, k) = ground (
  arith,
  All-text_ltb_trans a x xs,
  All-insert_text x a xs,
  text_ltb_total a x,
  insert_text-IsAscending a xs k,
)

pub sorted_set-IsAscending : (xs : List String) → IsAscending (sorted_set xs)
unfolding sorted_set
sorted_set-IsAscending [] = tt
sorted_set-IsAscending (x ∷ xs) =
    insert_text-IsAscending x (sorted_set xs) (sorted_set-IsAscending xs)

-- What is before a whole list is not in it.
pub contains_before :
    (a : String) (xs : List String) → All (λ z. text_ltb a z ≡ true) xs → contains xs a ≡ false
contains_before a [] h = refl
contains_before a (x ∷ xs) (p, h) = ground (arith, contains_before a xs h, text_ltb_irrefl a)

All-contains :
    (x y : String) (ys : List String)
    → All (λ z. text_ltb y z ≡ true) ys
    → contains ys x ≡ true
    → text_ltb y x ≡ true
All-contains x y [] h m = ground arith
All-contains x y (z ∷ ys) (p, h) m = ground (arith, All-contains x y ys h)

-- The first texts of two ascending lists with the same members are one.
ascending_heads :
    (x y : String) (xs ys : List String)
    → IsAscending (x ∷ xs)
    → IsAscending (y ∷ ys)
    → ((a : String) → contains (x ∷ xs) a ≡ contains (y ∷ ys) a)
    → x ≡ y
ascending_heads x y xs ys (h, _) (k, _) same = ground (
  arith,
  same x,
  same y,
  All-contains x y ys k,
  All-contains y x xs h,
  text_ltb_trans x y x,
  text_ltb_irrefl x,
)

tail_members :
    (x : String) (xs ys : List String)
    → IsAscending (x ∷ xs)
    → IsAscending (x ∷ ys)
    → ((a : String) → contains (x ∷ xs) a ≡ contains (x ∷ ys) a)
    → (a : String) → contains xs a ≡ contains ys a
tail_members x xs ys (h, _) (k, _) same a =
    ground (arith, same a, contains_before x xs h, contains_before x ys k)

-- Two ascending lists with the same members are one list.
pub IsAscending-unique :
    (xs ys : List String)
    → IsAscending xs
    → IsAscending ys
    → ((a : String) → contains xs a ≡ contains ys a)
    → xs ≡ ys
IsAscending-unique [] [] h k same = refl
IsAscending-unique [] (y ∷ ys) h k same = ground (arith, same y)
IsAscending-unique (x ∷ xs) [] h k same = ground (arith, same x)
IsAscending-unique (x ∷ xs) (y ∷ ys) h k same =
    let e = ascending_heads x y xs ys h k same in
    ap₂ ◌∷◌ e (
      IsAscending-unique xs ys h.1 k.1
        (tail_members x xs ys h (rw (← e) at k) (λ a. rw (← e) at (same a))))

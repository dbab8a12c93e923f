-- ===== src/Prelude/Lists.antt =====
-- Lists measured by native numbers; Python's `in`, `any`, `all` and comprehensions.
use Prim.Native.Nat.{ℕ, zero, suc, ◌+◌}
use mathlib.Core.Path.{◌≡◌, refl, sym, ap, ◌∙◌}
use mathlib.Core.Logic.{◌⊎◌, inl, inr}
use mathlib.Core.Bool.{Bool, true, false, ◌&&◌, ◌||◌}
use mathlib.Core.List.{List, [], ◌∷◌, ◌++◌, map}
use native.Mathlib.Omega.{arith}
use var_track.Prelude.Tests.{Eq, Bool-cases, ◌==◌, if◌then◌else◌}

module _ {ℓ} {A : Type ℓ} where
  abbrev pub length : List A → ℕ
  length [] = 0
  length (x ∷ xs) = suc (length xs)

  pub length-append : (xs ys : List A) → length (xs ++ ys) ≡ length xs + length ys
  length-append [] ys = omega arith
  length-append (x ∷ xs) ys = omega (arith, length-append xs ys)

  abbrev pub take : ℕ → List A → List A
  take zero xs = []
  take (suc n) [] = []
  take (suc n) (x ∷ xs) = x ∷ take n xs

  -- `[x for x in xs if p(x)]`
  abbrev pub keep : (A → Bool) → List A → List A
  keep p [] = []
  keep p (x ∷ xs) = let rest = keep p xs in if p x then x ∷ rest else rest

  abbrev pub any : (A → Bool) → List A → Bool
  any p [] = false
  any p (x ∷ xs) = p x || any p xs

  abbrev pub all : (A → Bool) → List A → Bool
  all p [] = true
  all p (x ∷ xs) = p x && all p xs

  abbrev pub is_empty : List A → Bool
  is_empty [] = true
  is_empty (x ∷ xs) = false

  abbrev pub All {κ} : (A → Type κ) → List A → Type κ
  All P [] = Unit
  All P (x ∷ xs) = P x × All P xs

pub any-append {ℓ} :
    {A : Type ℓ} (p : A → Bool) (xs ys : List A) → any p (xs ++ ys) ≡ (any p xs || any p ys)
any-append p [] ys = refl
any-append p (x ∷ xs) ys = ground (arith, any-append p xs ys)

module _ {ℓ} {A : Type ℓ} ⦃e : Eq A⦄ where
  -- `a in xs`
  abbrev pub contains : List A → A → Bool
  contains [] a = false
  contains (x ∷ xs) a = a == x || contains xs a

  pub contains-append :
      (xs ys : List A) (a : A) → contains (xs ++ ys) a ≡ (contains xs a || contains ys a)
  contains-append [] ys a = refl
  contains-append (x ∷ xs) ys a = ground (arith, contains-append xs ys a)

  pub contains-keep :
      (p : A → Bool) (xs : List A) (a : A) → contains (keep p xs) a ≡ (contains xs a && p a)
  contains-keep p [] a = refl
  contains-keep p (x ∷ xs) a = ground (arith, contains-keep p xs a)

-- Membership as a proposition by recursion, for types whose equality is not decided.
abbrev pub In : {A : Type 0} → A → List A → Type 0
In a [] = ⊥
In a (x ∷ xs) = (a ≡ x) ⊎ In a xs

pub In-of_contains : {A : Type 0} ⦃e : Eq A⦄ (a : A) (xs : List A) → contains xs a ≡ true → In a xs
In-of_contains a [] h = ground arith
In-of_contains a (x ∷ xs) h = ground (arith, In-of_contains a xs)

pub contains_of_In : {A : Type 0} ⦃e : Eq A⦄ (a : A) (xs : List A) → In a xs → contains xs a ≡ true
contains_of_In a [] h = absurd h
contains_of_In a (x ∷ xs) h = ground (arith, contains_of_In a xs)

pub All_of_In : {A : Type 0} (P : A → Type 0) (xs : List A) → All P xs → (a : A) → In a xs → P a
All_of_In P [] h a m = absurd m
All_of_In P (x ∷ xs) (p, h) a (inl same) = rw same p
All_of_In P (x ∷ xs) (p, h) a (inr later) = All_of_In P xs h a later

-- What is kept of a list.
module _ {A : Type 0} where
  from_kept :
      (p : A → Bool) (a x : A) (xs : List A)
      → p x ≡ true
      → (In a (keep p xs) → In a (x ∷ xs) × (p a ≡ true))
      → In a (x ∷ keep p xs)
      → In a (x ∷ xs) × (p a ≡ true)
  from_kept p a x xs kept later (inl same) = (inl same, ap p same ∙ kept)
  from_kept p a x xs kept later (inr k) = later k

  pub In-keep : (p : A → Bool) (a : A) (xs : List A) → In a (keep p xs) → In a xs × (p a ≡ true)
  In-keep p a [] h = absurd h
  In-keep p a (x ∷ xs) h =
      let later : In a (keep p xs) → In a (x ∷ xs) × (p a ≡ true) =
        λ k. let (there, e) = In-keep p a xs k in (inr there, e) in
      elim (Bool-cases (p x)) [
        | inl kept ↦ from_kept p a x xs kept later (rw kept at h)
        | inr dropped ↦ later (rw dropped at h)
      ]

  pub In-keep_of : (p : A → Bool) (a : A) (xs : List A) → In a xs → p a ≡ true → In a (keep p xs)
  In-keep_of p a [] h e = absurd h
  In-keep_of p a (x ∷ xs) (inl same) e = rw (sym (ap p same) ∙ e) (inl same)
  In-keep_of p a (x ∷ xs) (inr later) e = elim (Bool-cases (p x)) [
    | inl kept ↦ rw kept (inr (In-keep_of p a xs later e))
    | inr dropped ↦ rw dropped (In-keep_of p a xs later e)
  ]

pub In-map : {A B : Type 0} (f : A → B) (a : A) (xs : List A) → In a xs → In (f a) (map f xs)
In-map f a [] h = h
In-map f a (x ∷ xs) (inl same) = inl (ap f same)
In-map f a (x ∷ xs) (inr later) = inr (In-map f a xs later)

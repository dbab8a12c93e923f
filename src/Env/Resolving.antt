-- ===== src/Env/Resolving.antt =====
-- The cache keeps what it is told, and the environment of a push is the one that its rule names.
use var_track.Prelude.{
  ℕ, suc, String, ◌≡◌, refl, ap, ◌∙◌, Bool, true, false, Option, none, some, [], ◌∷◌, ◌++◌, ◌<>◌,
  length, length-append, leb, ltb, ◌==◌, string_eq, if◌then◌else◌, Bool-cases, inl, inr, arith,
}
use mathlib.Core.Option.{some-injective}
use mathlib.Core.Path.{subst}
use var_track.Prelude.Dict
use var_track.Prelude.Dict.{Dict, or_else, get-pop}
use var_track.Env.Cache.{Cache, move_to_end, pop_first, add_entry, register, evict, lookup, found}
use var_track.Env.Resolver.{
  Push, given, mapped, via_maps, effective_pr, pr_or_lookup, resolve_pr, resolve_from,
  tag_or_default, pr_or_tag, resolve,
}

get-append :
    (c d : Cache) (b : String)
    → Dict.get (c ++ d) b ≡ (if Dict.has c b then Dict.get c b else Dict.get d b)
unfolding Dict.get
get-append [] d b = refl
get-append ((k, v) ∷ c) d b = ground (arith, get-append c d b)

get-move_to_end :
    (c : Cache) (branch pr b : String)
    → Dict.get (move_to_end c branch pr) b ≡ (if b == branch then some pr else Dict.get c b)
unfolding move_to_end Dict.get
get-move_to_end c branch pr b =
    ground (arith, get-append (Dict.pop c branch) ((branch, pr) ∷ []) b, get-pop c branch b)

get-found :
    (c : Cache) (branch b : String) (o : Option String)
    → Dict.get c branch ≡ o
    → (Dict.get (found c branch o).0 b ≡ Dict.get c b) × ((found c branch o).1 ≡ o)
get-found c branch b none e = (refl, refl)
get-found c branch b (some pr) e = (ground (arith, get-move_to_end c branch pr b, e), refl)

-- A lookup answers what is there for a branch that is given; it loses no entry and changes no number.
pub get-lookup :
    (branch : Option String) (c : Cache) (b : String)
    → (Dict.get (lookup branch c).0 b ≡ Dict.get c b)
      × ((lookup branch c).1 ≡ mapped c (given branch))
unfolding lookup
get-lookup none c b = (refl, refl)
get-lookup (some branch) c b = elim (Bool-cases (branch == "")) [
  | inl empty ↦ rw empty (refl, refl)
  | inr other ↦ rw other (get-found c branch b (Dict.get c branch) refl)
]

length-pop : (c : Cache) (k : String) → leb (length (Dict.pop c k)) (length c) ≡ true
unfolding Dict.pop
length-pop [] k = refl
length-pop ((j, v) ∷ c) k = ground (arith, length-pop c k)

length-pop_less :
    (c : Cache) (k : String) → Dict.has c k ≡ true → ltb (length (Dict.pop c k)) (length c) ≡ true
unfolding Dict.pop Dict.get
length-pop_less [] k h = absurd (ground (arith, h))
length-pop_less ((j, v) ∷ c) k h = ground (arith, h, length-pop c k, length-pop_less c k)

-- What a registration that changes the cache leaves.
abbrev pub Registered : ℕ → String → String → Cache → Type 0
Registered capacity branch pr c = (Dict.get c branch ≡ some pr) × (leb (length c) capacity ≡ true)

appended :
    (capacity : ℕ) (branch pr : String) (c : Cache)
    → Dict.has c branch ≡ false
    → ltb (length c) capacity ≡ true
    → Registered capacity branch pr (c ++ (branch, pr) ∷ [])
unfolding Dict.get
appended capacity branch pr c h room = (
  ground (arith, h, get-append c ((branch, pr) ∷ []) branch),
  ground (arith, room, length-append c ((branch, pr) ∷ [])),
)

add_entry-Registered :
    (capacity : ℕ) (branch pr : String) (c : Cache) {c' : Cache}
    → leb (length c) capacity ≡ true
    → Dict.has c branch ≡ false
    → add_entry capacity branch pr c ≡ some c'
    → Registered capacity branch pr c'
unfolding add_entry pop_first Dict.get
add_entry-Registered capacity branch pr [] {c'} fits h e = elim (Bool-cases (leb capacity 0)) [
  | inl full ↦ absurd (ground (arith, rw full at e))
  | inr room ↦
      subst (Registered capacity branch pr) (some-injective ((branch, pr) ∷ []) c' (rw room at e))
        (appended capacity branch pr [] h (ground (arith, room)))
]
add_entry-Registered capacity branch pr ((k, v) ∷ c) {c'} fits h e =
    elim (Bool-cases (leb capacity (suc (length c)))) [
      | inl full ↦
          subst (Registered capacity branch pr)
            (some-injective (c ++ (branch, pr) ∷ []) c' (rw full at e))
            (appended capacity branch pr c (ground (arith, h)) (ground (arith, fits)))
      | inr room ↦
          subst (Registered capacity branch pr)
            (some-injective ((k, v) ∷ (c ++ (branch, pr) ∷ [])) c' (rw room at e))
            (appended capacity branch pr ((k, v) ∷ c) h (ground (arith, room)))
    ]

moved :
    (capacity : ℕ) (branch pr : String) (c : Cache)
    → leb (length c) capacity ≡ true
    → Dict.has c branch ≡ true
    → Registered capacity branch pr (move_to_end c branch pr)
unfolding move_to_end
moved capacity branch pr c fits h = (
  ground (arith, get-move_to_end c branch pr branch),
  ground (
    arith,
    fits,
    length-pop_less c branch h,
    length-append (Dict.pop c branch) ((branch, pr) ∷ []),
  ),
)

-- After the registration of a branch that is given, the cache has its number, and it is within its
-- capacity if it was before.
pub register-Registered :
    (capacity : ℕ) (branch pr : String) (c c' : Cache)
    → (branch == "") ≡ false
    → leb (length c) capacity ≡ true
    → register capacity branch (some pr) c ≡ some c'
    → Registered capacity branch pr c'
unfolding register
register-Registered capacity branch pr c c' given fits e = elim (Bool-cases (Dict.has c branch)) [
  | inl there ↦
      rw (some-injective (move_to_end c branch pr) c' (rw (given, there) at e)) at
        (moved capacity branch pr c fits there)
  | inr new ↦ add_entry-Registered capacity branch pr c fits new (rw (given, new) at e)
]

get-effective_pr :
    (p : Push) (c : Cache) (b : String) (o : Option String)
    → Dict.get (pr_or_lookup p c o).0 b ≡ Dict.get c b
get-effective_pr p c b none = (get-lookup p.branch c b).0
get-effective_pr p c b (some n) = refl

get-resolve_pr :
    (p : Push) (c : Cache) (b : String) (on : Bool)
    → Dict.get (resolve_pr p c on).0 b ≡ Dict.get c b
unfolding effective_pr
get-resolve_pr p c b true = get-effective_pr p c b p.pr_number
get-resolve_pr p c b false = refl

get-resolve_from :
    (p : Push) (c : Cache) (b : String) (o : Option String)
    → Dict.get (resolve_from p c o).0 b ≡ Dict.get c b
get-resolve_from p c b (some env) = refl
get-resolve_from p c b none = get-resolve_pr p c b p.pr_as_env

-- Resolving an environment loses no entry of the cache and changes no number.
pub get-resolve : (p : Push) (c : Cache) (b : String) → Dict.get (resolve p c).0 b ≡ Dict.get c b
unfolding resolve
get-resolve p c b = get-resolve_from p c b (via_maps p)

-- The environment of a push without a number of its own, when no map and no branch names it.
resolve-cached :
    (p : Push) (c : Cache) (branch : String)
    → p.branch ≡ some branch
    → (branch == "") ≡ false
    → via_maps p ≡ none
    → p.pr_as_env ≡ true
    → p.pr_number ≡ none
    → (resolve p c).1 ≡ pr_or_tag p (given (Dict.get c branch))
unfolding resolve effective_pr
resolve-cached p c branch b here m on n =
    ap (λ o. (resolve_from p c o).1) m
    ∙ ap (λ x. (resolve_pr p c x).1) on
    ∙ ap (λ o. pr_or_tag p (given (pr_or_lookup p c o).1)) n
    ∙ ap (λ o. pr_or_tag p (given (lookup o c).1)) b
    ∙ ap (λ o. pr_or_tag p (given o)) ((get-lookup (some branch) c branch).1 ∙ rw here refl)

-- What may happen to a cache while a branch stays registered: pushes, evictions of other branches, and
-- registrations of other branches while the cache has room.
pub data Kept (capacity : ℕ) (branch : String) (c : Cache) : Cache → Type 0 where
  starts : Kept capacity branch c c
  pushes :
      (p : Push) {d : Cache} → Kept capacity branch c d → Kept capacity branch c (resolve p d).0
  evicts :
      (other : String) {d : Cache}
      → (branch == other) ≡ false
      → Kept capacity branch c d
      → Kept capacity branch c (evict other d)
  registers :
      (other : String) (pr : Option String) {d d' : Cache}
      → (branch == other) ≡ false
      → ltb (length d) capacity ≡ true
      → register capacity other pr d ≡ some d'
      → Kept capacity branch c d
      → Kept capacity branch c d'

get-add_entry :
    (capacity : ℕ) (other pr : String) (c d : Cache) (b : String)
    → (b == other) ≡ false
    → ltb (length c) capacity ≡ true
    → add_entry capacity other pr c ≡ some d
    → Dict.get d b ≡ Dict.get c b
unfolding add_entry Dict.get
get-add_entry capacity other pr c d b differ room e =
    let full : leb capacity (length c) ≡ false = ground (arith, room) in
    rw (← some-injective (c ++ (other, pr) ∷ []) d (rw full at e))
      (ground (arith, get-append c ((other, pr) ∷ []) b, differ))

get-put_entry :
    (capacity : ℕ) (other pr : String) (c d : Cache) (b : String)
    → (b == other) ≡ false
    → ltb (length c) capacity ≡ true
    → register capacity other (some pr) c ≡ some d
    → Dict.get d b ≡ Dict.get c b
unfolding register
get-put_entry capacity other pr c d b differ room e = elim (Bool-cases (other == "")) [
  | inl empty ↦ rw (← some-injective c d (rw empty at e)) refl
  | inr given ↦ elim (Bool-cases (Dict.has c other)) [
    | inl there ↦
        rw (← some-injective (move_to_end c other pr) d (rw (given, there) at e))
          (ground (arith, get-move_to_end c other pr b, differ))
    | inr new ↦ get-add_entry capacity other pr c d b differ room (rw (given, new) at e)
  ]
]

get-register :
    (capacity : ℕ) (other : String) (pr : Option String) (c d : Cache) (b : String)
    → (b == other) ≡ false
    → ltb (length c) capacity ≡ true
    → register capacity other pr c ≡ some d
    → Dict.get d b ≡ Dict.get c b
unfolding register
get-register capacity other none c d b differ room e = ground (arith, e)
get-register capacity other (some pr) c d b differ room e =
    get-put_entry capacity other pr c d b differ room e

get-Kept :
    (capacity : ℕ) (branch : String) (c d : Cache)
    → Kept capacity branch c d
    → Dict.get d branch ≡ Dict.get c branch
unfolding evict
get-Kept capacity branch c d starts = refl
get-Kept capacity branch c d (pushes p {d = x} k) =
    get-resolve p x branch ∙ get-Kept capacity branch c x k
get-Kept capacity branch c d (evicts other {d = x} differ k) =
    ground (arith, get-pop x other branch, differ, get-Kept capacity branch c x k)
get-Kept capacity branch c d (registers other pr {d = x} differ room e k) =
    get-register capacity other pr x d branch differ room e ∙ get-Kept capacity branch c x k

-- A push to the branch of an open pull request goes to the environment of the request after its registration,
-- whatever pushes, evictions of other branches and registrations of other branches into a cache that has room
-- come between; and it goes to the rule's tag or default after its own eviction. So it is when neither a map
-- nor branch_as_env names another environment, pr_as_env is on, the push has no number of its own, and the cache
-- was within its capacity.
pub resolve-registered :
    (capacity : ℕ) (p : Push) (c c' d : Cache) (branch pr : String)
    → p.branch ≡ some branch
    → (branch == "") ≡ false
    → (pr == "") ≡ false
    → via_maps p ≡ none
    → p.pr_as_env ≡ true
    → p.pr_number ≡ none
    → leb (length c) capacity ≡ true
    → register capacity branch (some pr) c ≡ some c'
    → Kept capacity branch c' d
    → ((resolve p d).1 ≡ "pr-" <> pr) × ((resolve p (evict branch d)).1 ≡ tag_or_default p)
unfolding evict
resolve-registered capacity p c c' d branch pr b here number m on n fits e kept =
    let (told, _) = register-Registered capacity branch pr c c' here fits e in
    let known : Dict.get d branch ≡ some pr = get-Kept capacity branch c' d kept ∙ told in
    (
      resolve-cached p d branch b here m on n ∙ rw (known, number) refl,
      resolve-cached p (Dict.pop d branch) branch b here m on n ∙ rw (gone d branch) refl,
    )
  where
    gone : (c : Cache) (branch : String) → Dict.get (Dict.pop c branch) branch ≡ none
    gone c branch = ground (arith, get-pop c branch branch)

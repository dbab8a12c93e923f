-- ===== src/Task/Heal/Healing.antt =====
-- Which tasks a heal starts, and for which branches.
use mathlib.Core.Path.{subst}
use var_track.Prelude.{
  String, ◌≡◌, refl, sym, ap, true, false, not, ◌&&◌, Option, none, some, List, [], ◌∷◌, ◌++◌, map,
  keep, In, In-keep, In-keep_of, In-of_contains, contains_of_In, contains, ◌⊎◌, inl, inr, ◌↔◌,
  is_empty, Bool-cases, if◌then◌else◌, ◌==◌, string_eq, arith,
}
use var_track.Prelude.Dict
use var_track.Value.{text, Record, same, truthy, dict_fields}
use var_track.Sink.{Reply, done, raised}
use var_track.Rule.Getters.{value_at}
use var_track.Etl.{text_option}
use var_track.Task.Heal.{
  Item, HealRequest, Heal, Healed, HealTools, given_text, fits, once, is_healed, branches_of,
  work_of, heal_of, heals_of, start, dispatched, sync_all,
}

module _ {A : Type 0} where
  In-append : (a : A) (xs ys : List A) → In a (xs ++ ys) → In a xs ⊎ In a ys
  In-append a [] ys h = inr h
  In-append a (x ∷ xs) ys (inl e) = inl (inl e)
  In-append a (x ∷ xs) ys (inr h) = elim (In-append a xs ys h) [
    | inl l ↦ inl (inr l)
    | inr r ↦ inr r
  ]

  In-append_left : (a : A) (xs ys : List A) → In a xs → In a (xs ++ ys)
  In-append_left a [] ys h = absurd h
  In-append_left a (x ∷ xs) ys (inl e) = inl e
  In-append_left a (x ∷ xs) ys (inr h) = inr (In-append_left a xs ys h)

  In-append_right : (a : A) (xs ys : List A) → In a ys → In a (xs ++ ys)
  In-append_right a [] ys h = h
  In-append_right a (x ∷ xs) ys h = inr (In-append_right a xs ys h)

-- The items of one rule
In-pair :
    (rule r : Record) (b : String) (bs : List String)
    → In {A = Item} (rule, b) (map (λ c. (r, c)) bs)
    → (rule ≡ r) × In b bs
In-pair rule r b [] h = absurd h
In-pair rule r b (c ∷ bs) (inl e) = (ap (λ p. p.0) e, inl (ap (λ p. p.1) e))
In-pair rule r b (c ∷ bs) (inr h) = let (same, later) = In-pair rule r b bs h in (same, inr later)

In-pair_of :
    (rule : Record) (b : String) (bs : List String)
    → In b bs
    → In {A = Item} (rule, b) (map (λ c. (rule, c)) bs)
In-pair_of rule b [] h = absurd h
In-pair_of rule b (c ∷ bs) (inl e) = inl (ap (λ x. (rule, x)) e)
In-pair_of rule b (c ∷ bs) (inr h) = inr (In-pair_of rule b bs h)

-- The work has a rule with each of its branches, and nothing else.
In-work_of :
    (rule : Record) (b : String) (rules : List Record)
    → In {A = Item} (rule, b) (work_of rules)
    → In rule rules × In b (branches_of rule)
unfolding work_of
In-work_of rule b [] h = absurd h
In-work_of rule b (r ∷ rules) h =
    elim (In-append (rule, b) (map (λ c. (r, c)) (branches_of r)) (work_of rules) h) [
      | inl here ↦
          let (same, branch) = In-pair rule r b (branches_of r) here in (inl same, rw same branch)
      | inr later ↦ let (there, branch) = In-work_of rule b rules later in (inr there, branch)
    ]

In-work_of_of :
    (rule : Record) (b : String) (rules : List Record)
    → In rule rules
    → In b (branches_of rule)
    → In {A = Item} (rule, b) (work_of rules)
unfolding work_of
In-work_of_of rule b [] h k = absurd h
In-work_of_of rule b (r ∷ rules) (inl same) k =
    In-append_left (rule, b) (map (λ c. (r, c)) (branches_of r)) (work_of rules)
      (subst (λ x. In {A = Item} (rule, b) (map (λ c. (x, c)) (branches_of x))) same
        (In-pair_of rule b (branches_of rule) k))
In-work_of_of rule b (r ∷ rules) (inr later) k =
    In-append_right (rule, b) (map (λ c. (r, c)) (branches_of r)) (work_of rules)
      (In-work_of_of rule b rules later k)

-- A rule that a request heals: it has self_heal, is not suspended, and is for the datasource and of the
-- platform that the request names, where it names them.
abbrev pub IsAsked : Option String → Record → String → Type 0
IsAsked none rule key = Unit
IsAsked (some wanted) rule key = (wanted ≡ "") ⊎ (same (value_at rule key) (text wanted) ≡ true)

pub record IsHealed (request : HealRequest) (rule : Record) : Type 0 where
  pub heals : truthy (value_at rule "self_heal") ≡ true
  pub awake : truthy (value_at rule "suspend") ≡ false
  pub asked_datasource : IsAsked request.datasource rule "datasource"
  pub asked_platform : IsAsked request.platform rule "platform"

fits-IsAsked :
    (o : Option String) (rule : Record) (key : String)
    → fits (given_text o) rule key ≡ true
    → IsAsked o rule key
fits-IsAsked none rule key h = tt
fits-IsAsked (some wanted) rule key h = elim (Bool-cases (wanted == "")) [
  | inl empty ↦ inl (ground (arith, empty))
  | inr named ↦ inr (rw named at h)
]

IsAsked-fits :
    (o : Option String) (rule : Record) (key : String)
    → IsAsked o rule key
    → fits (given_text o) rule key ≡ true
unfolding string_eq
IsAsked-fits none rule key h = refl
IsAsked-fits (some wanted) rule key (inl empty) = rw empty refl
IsAsked-fits (some wanted) rule key (inr h) = elim (Bool-cases (wanted == "")) [
  | inl empty ↦ rw empty refl
  | inr named ↦ rw named h
]

is_healed-IsHealed :
    (request : HealRequest) (rule : Record) → is_healed request rule ≡ true → IsHealed request rule
unfolding is_healed
is_healed-IsHealed request rule h = record {
  heals = ground (arith, h);
  awake = ground (arith, h);
  asked_datasource = fits-IsAsked request.datasource rule "datasource" (ground (arith, h));
  asked_platform = fits-IsAsked request.platform rule "platform" (ground (arith, h));
}

IsHealed-is_healed :
    (request : HealRequest) (rule : Record) → IsHealed request rule → is_healed request rule ≡ true
unfolding is_healed
IsHealed-is_healed request rule h = ground (
  arith,
  h.heals,
  h.awake,
  IsAsked-fits request.datasource rule "datasource" h.asked_datasource,
  IsAsked-fits request.platform rule "platform" h.asked_platform,
)

-- A branch of a rule: a key of its branch_map, or its branch where that map is empty
abbrev pub IsBranch : Record → String → Type 0
IsBranch rule b =
    let mapped = Dict.keys (dict_fields (value_at rule "branch_map")) in
    (contains mapped b ≡ true) ⊎ ((mapped ≡ []) × (b ≡ text_option rule "branch" "main"))

contains-once :
    (seen bs : List String) (b : String)
    → contains (once seen bs) b ≡ (contains bs b && not (contains seen b))
unfolding once
contains-once seen [] b = refl
contains-once seen (x ∷ bs) b =
    ground (arith, contains-once seen bs b, contains-once (x ∷ seen) bs b)

from_once : (bs : List String) (b : String) → In b (once [] bs) → contains bs b ≡ true
from_once bs b h = ground (arith, contains_of_In b (once [] bs) h, contains-once [] bs b)

to_once : (bs : List String) (b : String) → contains bs b ≡ true → In b (once [] bs)
to_once bs b h = In-of_contains b (once [] bs) (ground (arith, h, contains-once [] bs b))

from_default :
    (mapped : List String) (d b : String)
    → contains (if is_empty mapped then d ∷ [] else mapped) b ≡ true
    → (contains mapped b ≡ true) ⊎ ((mapped ≡ []) × (b ≡ d))
from_default [] d b h = inr (refl, ground (arith, h))
from_default (x ∷ mapped) d b h = inl h

to_default :
    (mapped : List String) (d b : String)
    → (contains mapped b ≡ true) ⊎ ((mapped ≡ []) × (b ≡ d))
    → contains (if is_empty mapped then d ∷ [] else mapped) b ≡ true
to_default [] d b (inl h) = absurd (ground (arith, h))
to_default [] d b (inr (e, same)) = ground (arith, same)
to_default (x ∷ mapped) d b (inl h) = h
to_default (x ∷ mapped) d b (inr (e, same)) = absurd (ground (arith, e))

branches_of-IsBranch : (rule : Record) (b : String) → In b (branches_of rule) → IsBranch rule b
unfolding branches_of
branches_of-IsBranch rule b h = from_default _ _ b (from_once _ b h)

IsBranch-branches_of : (rule : Record) (b : String) → IsBranch rule b → In b (branches_of rule)
unfolding branches_of
IsBranch-branches_of rule b h = to_once _ b (to_default _ _ b h)

module _ (t : HealTools) (request : HealRequest) where
  -- A task of the work, whose commit is known and which the queue takes.
  abbrev pub Started : List Item → Heal → Type 0
  Started work heal =
      (rule : Record) × ((branch : String) × ((sha : String) × (In {A = Item} (rule, branch) work
            × ((t.commit rule branch ≡ done sha)
                × ((heal ≡ heal_of request (rule, branch) sha) × (t.apply_async heal ≡ done tt))))))

  dispatched-Started :
      (item : Item) (sha : String) (work : List Item) (heal : Heal) (others : Healed)
      (r : Reply (Unit {0}))
      → t.commit item.0 item.1 ≡ done sha
      → t.apply_async (heal_of request item sha) ≡ r
      → (In heal others.started → Started (item ∷ work) heal)
      → In heal (dispatched (heal_of request item sha) r others).started
      → Started (item ∷ work) heal
  dispatched-Started item sha work heal others (raised m) e queued later h = later h
  dispatched-Started item sha work heal others (done tt) e queued later (inl same) =
      (item.0, (item.1, (sha, (inl refl, (e, (same, rw same queued))))))
  dispatched-Started item sha work heal others (done tt) e queued later (inr k) = later k

  start-Started :
      (item : Item) (work : List Item) (heal : Heal) (others : Healed) (r : Reply String)
      → t.commit item.0 item.1 ≡ r
      → (In heal others.started → Started (item ∷ work) heal)
      → In heal (start t.apply_async request item r others).started
      → Started (item ∷ work) heal
  unfolding start
  start-Started item work heal others (raised m) e later h = later h
  start-Started item work heal others (done sha) e later h =
      dispatched-Started item sha work heal others (t.apply_async (heal_of request item sha)) e refl
        later h

  heals_of-Started :
      (work : List Item) (heal : Heal)
      → In heal (heals_of t request work).started
      → Started work heal
  unfolding heals_of
  heals_of-Started [] heal h = absurd h
  heals_of-Started (item ∷ work) heal h =
      start-Started item work heal (heals_of t request work) (t.commit item.0 item.1) refl
        (λ k.
          let (r, (b, (sha, (there, found)))) = heals_of-Started work heal k in
          (r, (b, (sha, (inr there, found)))))
        h

  In-dispatched :
      (new heal : Heal) (others : Healed) (r : Reply (Unit {0}))
      → In heal others.started
      → In heal (dispatched new r others).started
  In-dispatched new heal others (raised m) h = h
  In-dispatched new heal others (done tt) h = inr h

  In-start :
      (item : Item) (heal : Heal) (others : Healed) (r : Reply String)
      → In heal others.started
      → In heal (start t.apply_async request item r others).started
  unfolding start
  In-start item heal others (raised m) h = h
  In-start item heal others (done sha) h =
      In-dispatched (heal_of request item sha) heal others
        (t.apply_async (heal_of request item sha)) h

  start-here :
      (item : Item) (sha : String) (others : Healed)
      → t.commit item.0 item.1 ≡ done sha
      → t.apply_async (heal_of request item sha) ≡ done tt
      → In
          (heal_of request item sha)
          (start t.apply_async request item (t.commit item.0 item.1) others).started
  unfolding start
  start-here item sha others e queued = rw (e, queued) (inl refl)

  heals_of_Started :
      (work : List Item) (item : Item) (sha : String)
      → In item work
      → t.commit item.0 item.1 ≡ done sha
      → t.apply_async (heal_of request item sha) ≡ done tt
      → In (heal_of request item sha) (heals_of t request work).started
  unfolding heals_of
  heals_of_Started [] item sha h e queued = absurd h
  heals_of_Started (i ∷ work) item sha (inl same) e queued =
      subst (λ x. In (heal_of request item sha) (heals_of t request (x ∷ work)).started) same
        (start-here item sha (heals_of t request work) e queued)
  heals_of_Started (i ∷ work) item sha (inr k) e queued =
      In-start i (heal_of request item sha) (heals_of t request work) (t.commit i.0 i.1)
        (heals_of_Started work item sha k e queued)

-- That a task is started: for a rule and a branch whose commit can be read, where the queue takes the task
abbrev pub IsStarted : HealTools → HealRequest → List Record → Heal → Type 0
IsStarted t request rules heal =
    (rule : Record) × ((branch : String) × ((sha : String) × (In rule rules
          × (IsHealed request rule
              × (IsBranch rule branch
                  × ((t.commit rule branch ≡ done sha)
                      × ((heal ≡ heal_of request (rule, branch) sha)
                          × (t.apply_async heal ≡ done tt))))))))

-- A heal starts a task for a rule and a branch exactly when the rule is one of those that it was given, or of
-- the bundles' where it was given none; it has self_heal, is not suspended, and is for the datasource and the
-- platform that the request names; the branch is a key of its branch_map, or its own where that is empty; its
-- commit can be read; and the queue takes the task.
pub sync_all-Started :
    (t : HealTools) (bundle_rules : List Record) (request : HealRequest) (rules : List Record)
    (heal : Heal)
    → In heal (sync_all t bundle_rules request rules).started
      ↔ IsStarted t request (if is_empty rules then bundle_rules else rules) heal
unfolding sync_all
sync_all-Started t bundle_rules request rules heal =
    let all = if is_empty rules then bundle_rules else rules in
    let chosen = keep (is_healed request) all in
    (
      λ h.
          let (rule, (branch, (sha, (item, found)))) =
            heals_of-Started t request (work_of chosen) heal h in
          let (there, one) = In-work_of rule branch chosen item in
          let (known, fit) = In-keep (is_healed request) rule all there in
          (
            rule,
            (
              branch,
              (
                sha,
                (
                  known,
                  (
                    is_healed-IsHealed request rule fit,
                    (branches_of-IsBranch rule branch one, found),
                  ),
                ),
              ),
            ),
          ),
      λ (rule, (branch, (sha, (known, (fit, (one, (e, (same, queued)))))))).
          subst (λ x. In x (heals_of t request (work_of chosen)).started) (sym same)
            (heals_of_Started t request (work_of chosen) (rule, branch) sha
              (In-work_of_of rule branch chosen
                (In-keep_of (is_healed request) rule all known
                  (IsHealed-is_healed request rule fit))
                (IsBranch-branches_of rule branch one))
              e (rw same at queued)),
    )

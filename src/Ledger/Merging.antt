-- ===== src/Ledger/Merging.antt =====
-- The loops of `record_target`, key by key.
use mathlib.Core.Option
use var_track.Prelude.{
  String, ◌≡◌, refl, ◌∙◌, false, not, ◌&&◌, ◌||◌, Option, none, some, List, [], ◌∷◌, ◌++◌, arith,
  contains, contains-append, ◌==◌, string_eq, if◌then◌else◌, Bool-cases, inl, inr,
}
use var_track.Prelude.Dict
use var_track.Prelude.Dict.{Dict, IsDict, or_else, is_some, get-put, get-pop, contains-keys}
use var_track.Ledger.{Entry, Pending, Target}
use var_track.Prune.Stale.{inventory}
use var_track.Ledger.Record.{
  shown, desired_of, digests_of, set_digest, merge_items, merge, pending_of,
}

-- A dict without a key is one to which the key is added at the end.
pub put-absent :
    {A : Type 0} (d : Dict String A) (k : String) (v : A)
    → Dict.has d k ≡ false
    → Dict.put d k v ≡ d ++ (k, v) ∷ []
unfolding Dict.put Dict.get
put-absent [] k v h = refl
put-absent ((j, w) ∷ d) k v h = ground (arith, put-absent d k v)

has-merge_items :
    (digs items : Dict String String) (acc : Dict String String × Dict String String) (k : String)
    → Dict.has (merge_items digs items acc).0 k ≡ (Dict.has items k || Dict.has acc.0 k)
unfolding merge_items Dict.get
has-merge_items digs [] acc k = refl
has-merge_items digs ((j, v) ∷ items) (d, g) k = ground (
  arith,
  has-merge_items digs items (Dict.put d j v, set_digest (Dict.get digs j) j g) k,
  get-put d j k v,
)

get-set_digest :
    (o : Option String) (g : Dict String String) (j k : String)
    → Dict.get (set_digest o j g) k ≡ (if k == j then o else Dict.get g k)
get-set_digest none g j k = get-pop g j k
get-set_digest (some d) g j k = get-put g j k d

-- A key that an entry does not have is as before.
merge_items-other :
    (digs items : Dict String String) (acc : Dict String String × Dict String String) (k : String)
    → Dict.has items k ≡ false
    → (Dict.get (merge_items digs items acc).0 k ≡ Dict.get acc.0 k)
      × (Dict.get (merge_items digs items acc).1 k ≡ Dict.get acc.1 k)
unfolding merge_items Dict.get
merge_items-other digs [] acc k h = (refl, refl)
merge_items-other digs ((j, v) ∷ items) (d, g) k h =
    let next : Dict String String × Dict String String =
      (Dict.put d j v, set_digest (Dict.get digs j) j g) in
    let (first, second) = merge_items-other digs items next k (ground (arith, h)) in
    (
      ground (arith, h, first, get-put d j k v),
      ground (arith, h, second, get-set_digest (Dict.get digs j) g j k),
    )

-- A key of an entry gets its value and its digest.
pub merge_items-own :
    (digs items : Dict String String) (acc : Dict String String × Dict String String) (k v : String)
    → IsDict items
    → Dict.get items k ≡ some v
    → (Dict.get (merge_items digs items acc).0 k ≡ some v)
      × (Dict.get (merge_items digs items acc).1 k ≡ Dict.get digs k)
unfolding merge_items Dict.get
merge_items-own digs [] acc k v u h = absurd (ground (arith, h))
merge_items-own digs ((j, w) ∷ items) (d, g) k v (fresh, u) h =
    let next : Dict String String × Dict String String =
      (Dict.put d j w, set_digest (Dict.get digs j) j g) in
    elim (Bool-cases (k == j)) [
      | inl same ↦
          let (first, second) = merge_items-other digs items next k (ground (arith, same, fresh)) in
          (
            ground (arith, h, same, first, get-put d j k w),
            ground (arith, same, second, get-set_digest (Dict.get digs j) g j k),
          )
      | inr other ↦ merge_items-own digs items next k v u (rw other at h)
    ]

pub has-merge :
    (entries : Dict String Entry) (acc : Dict String String × Dict String String) (k : String)
    → Dict.has (merge entries acc).0 k ≡ (contains (inventory entries) k || Dict.has acc.0 k)
unfolding merge inventory
has-merge [] acc k = refl
has-merge ((name, entry) ∷ entries) acc k = ground (
  arith,
  has-merge entries (merge_items entry.secret_digests entry.desired acc) k,
  has-merge_items entry.secret_digests entry.desired acc k,
  contains-append (Dict.keys entry.desired) (inventory entries) k,
  contains-keys entry.desired k,
)

pub merge-append :
    (entries more : Dict String Entry) (acc : Dict String String × Dict String String)
    → merge (entries ++ more) acc ≡ merge more (merge entries acc)
unfolding merge
merge-append [] more acc = refl
merge-append ((name, entry) ∷ entries) more acc = merge-append entries more _

has-desired_of :
    (secrets : List String) (flat : Dict String String) (k : String)
    → Dict.has (desired_of secrets flat) k ≡ Dict.has flat k
unfolding desired_of Dict.get
has-desired_of secrets [] k = refl
has-desired_of secrets ((j, w) ∷ flat) k = ground (arith, has-desired_of secrets flat k)

pub desired_of-IsDict :
    (secrets : List String) (flat : Dict String String)
    → IsDict flat
    → IsDict (desired_of secrets flat)
unfolding desired_of
desired_of-IsDict secrets [] u = tt
desired_of-IsDict secrets ((j, w) ∷ flat) (fresh, u) =
    (has-desired_of secrets flat j ∙ fresh, desired_of-IsDict secrets flat u)

pub get-desired_of :
    (secrets : List String) (flat : Dict String String) (k v : String)
    → Dict.get flat k ≡ some v
    → Dict.get (desired_of secrets flat) k ≡ some (shown secrets k v)
unfolding desired_of Dict.get
get-desired_of secrets [] k v h = absurd (ground (arith, h))
get-desired_of secrets ((j, w) ∷ flat) k v h = elim (Bool-cases (k == j)) [
  | inl same ↦ ground (arith, same, h)
  | inr other ↦ rw other (get-desired_of secrets flat k v (rw other at h))
]

pub get-digests_of :
    (sd : String → String) (secrets : List String) (flat : Dict String String) (k : String)
    → Dict.get (digests_of sd secrets flat) k
      ≡ (if contains secrets k then Option.map sd (Dict.get flat k) else none)
unfolding digests_of Dict.get
get-digests_of sd secrets [] k = ground arith
get-digests_of sd secrets ((j, w) ∷ flat) k = ground (arith, get-digests_of sd secrets flat k)

pub pending-keys :
    (prev_pending : Dict String Pending) (prev : Target) (desired : Dict String String)
    (ks : List String) (k : String)
    → contains (Dict.keys (pending_of prev_pending prev desired ks)) k ≡ (
        contains ks k
        && (not (Dict.has desired k) && (Dict.has prev_pending k || Dict.has prev.desired k)))
unfolding pending_of Dict.keys
pending-keys pp prev desired [] k = refl
pending-keys pp prev desired (j ∷ ks) k = ground (arith, pending-keys pp prev desired ks k)

-- ===== src/Payload.antt =====
-- The prune settings of a rule, from app/tasks/payload.py.
use var_track.Prelude.{
  String, Bool, true, false, Option, none, some, List, [], ◌∷◌, string_eq, if◌then◌else◌, ◌>>=◌,
}
use var_track.Prelude.Dict
use var_track.Value.{Value, text, list, dict, Items, no_item, item, Record, truthy, to_dict}

pub record PruneConfig : Type 0 where
  pub enabled : Bool
  pub dry_run : Bool
  pub protection : List String

-- The copy that the dry-run route uses.
unfoldable pub with_dry_run : PruneConfig → PruneConfig
with_dry_run c = record c { dry_run = true }

-- The items of a list of texts. Another item would make the match raise later: `none`.
texts : Items → Option (List String)
texts no_item = some []
texts (item (text s) vs) = do rest ← texts vs; some (s ∷ rest)
texts (item _ vs) = none

-- `list(s)`
characters : String → List String
characters String.[] = []
characters (String.◌∷◌ c s) = String.◌∷◌ c String.[] ∷ characters s

-- `list(v)`: `none` where it raises a TypeError
list_of : Value → Option (List String)
unfolding texts characters
list_of (list vs) = texts vs
list_of (text s) = some (characters s)
list_of (dict fs) = some (Dict.keys (to_dict fs))
list_of _ = none

-- `list(v or default)`
unfoldable pub list_or : Option Value → List String → Option (List String)
unfolding list_of truthy
list_or none default = some default
list_or (some v) default = if truthy v then list_of v else some default

-- `bool(d.get(key, default))`
unfoldable pub flag : Record → String → Bool → Bool
unfolding truthy
flag d key default = elim (Dict.get d key) [ none ↦ default | some v ↦ truthy v ]

abbrev structured : Record → Bool → List String → Option PruneConfig
structured raw dry_run protection = do
  patterns ← list_or (Dict.get raw "protection") protection
  some (record {
    enabled = flag raw "enabled" (Dict.has raw "dry_run");
    dry_run = flag raw "dry_run" dry_run;
    protection = patterns;
  })

abbrev of_raw : Option Value → Bool → List String → Option PruneConfig
of_raw (some (dict fs)) dry_run protection = structured (to_dict fs) dry_run protection
of_raw (some v) dry_run protection =
    some (record { enabled = truthy v; dry_run = dry_run; protection = protection })
of_raw none dry_run protection =
    some (record { enabled = false; dry_run = dry_run; protection = protection })

unfoldable pub extract_prune_config : Record → Option PruneConfig
unfolding list_or flag truthy to_dict
extract_prune_config rule = do
  protection ← list_or (Dict.get rule "prune_protection") []
  of_raw (Dict.get rule "prune") (flag rule "dry_run_prune" false) protection

-- ===== src/Rule.antt =====
-- The rule a sync runs with: app/pipeline/rule_layers.py and the modules that it uses. What the
-- generated protos say of a rule's options is a parameter.
use var_track.Prelude.{String, List}
use var_track.Prelude.Dict.{Dict}
pub mod Renamed
pub mod Renaming
pub mod Getters
pub mod Secrets
pub mod Settings
pub mod Layers
pub mod Forcing
pub mod Tenants
pub mod PresetNames
pub mod Presets
pub mod Overrides
pub mod Chains
pub mod Ending
pub mod Identity
pub mod Finding
pub mod Tenancy
pub mod Overriding
pub mod Errors
pub mod Merging
pub mod Protection

-- app/pipeline/rule_options.py: what rule.proto's annotations give.
pub record RuleOptions : Type 0 where
  pub mergeable : List String
  pub admin_only : List String
  pub repo_overridable : List String
  -- old name to current
  pub renamed : Dict String String

-- ===== src/Transform/Reference.antt =====
-- What flattening means: each leaf under the path of keys that leads to it.
use var_track.Prelude.{ℕ, suc, String, string_eq}
use var_track.Prelude.Texts.{show}
use var_track.Prelude.Dict
use var_track.Prelude.Dict.{Dict}
use var_track.Value.{
  Value, null, bool, num, text, list, dict, Items, no_item, item, Fields, no_field, field,
}
use var_track.Transform.{below, leaf}

-- The leaves of a value, laid over what is there: those of its first child are laid last.
unfoldable mutual
  unfolding below leaf Dict.put

  pub leaves : Value → String → Dict String String → Dict String String
  leaves (dict fs) pfx out = leaves_of_fields fs pfx out
  leaves (list vs) pfx out = leaves_of_items vs pfx 0 out
  leaves null pfx out = Dict.put out pfx (leaf null)
  leaves (bool b) pfx out = Dict.put out pfx (leaf (bool b))
  leaves (num n) pfx out = Dict.put out pfx (leaf (num n))
  leaves (text s) pfx out = Dict.put out pfx (leaf (text s))

  pub leaves_of_fields : Fields → String → Dict String String → Dict String String
  leaves_of_fields no_field pfx out = out
  leaves_of_fields (field key value fields) pfx out =
      leaves value (below pfx key) (leaves_of_fields fields pfx out)

  pub leaves_of_items : Items → String → ℕ → Dict String String → Dict String String
  leaves_of_items no_item pfx i out = out
  leaves_of_items (item value items) pfx i out =
      leaves value (below pfx (show i)) (leaves_of_items items pfx (suc i) out)

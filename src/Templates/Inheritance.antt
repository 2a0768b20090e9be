-- ===== src/Templates/Inheritance.antt =====
-- internal/runner/config/template_inheritance.go.
pub mod Rounds
pub mod Merged
pub mod Copied
use go_safe_cmd_runner.Base.{
  ◌≡◌, refl, Bool, true, false, List, [], ◌∷◌, ◌++◌, Option, none, some, Text, codes, if◌then◌else◌,
}
use go_safe_cmd_runner.Base.Dict.{Dict, lookup, insert}
use go_safe_cmd_runner.Names.{parse_key_value}
use go_safe_cmd_runner.Config.Imports.{is_defined, value_or_empty}
use go_safe_cmd_runner.Expand.Lazy.{RawValue}

abbrev pub or_default {ℓ} : {A : Type ℓ} → Option A → Option A → Option A
or_default none default = default
or_default (some a) default = some a

unfoldable pub override_string_pointer : Option Text → Option Text → Option Text
override_string_pointer none template_value = template_value
override_string_pointer (some v) template_value = some v

-- The internal name of a mapping, or all of one that is not well-formed.
unfoldable pub internal_name : Text → Text
internal_name mapping = elim (parse_key_value mapping) [ none ↦ mapping | some (name, _) ↦ name ]

-- `mappings` and `order`.
pub record Merge : Type 0 where
  pub mappings : Dict Text
  pub order : List Text

unfoldable pub add_new : Text → Merge → Merge
add_new mapping m = record {
  mappings = insert (internal_name mapping) mapping m.mappings;
  order = m.order ++ internal_name mapping ∷ [];
}

unfoldable pub add_template : Text → Merge → Merge
unfolding is_defined add_new
add_template mapping m =
    if is_defined (lookup (internal_name mapping) m.mappings) then m else add_new mapping m

unfoldable pub add_command : Text → Merge → Merge
unfolding is_defined add_new
add_command mapping m =
    if is_defined (lookup (internal_name mapping) m.mappings)
    then record m { mappings = insert (internal_name mapping) mapping m.mappings }
    else add_new mapping m

unfoldable pub add_all : (Text → Merge → Merge) → List Text → Merge → Merge
add_all add [] m = m
add_all add (mapping ∷ rest) m = add_all add rest (add mapping m)

-- The mappings in the order of their names.
unfoldable pub in_order : Dict Text → List Text → List Text
unfolding value_or_empty
in_order mappings [] = []
in_order mappings (name ∷ names) = value_or_empty (lookup name mappings) ∷ in_order mappings names

unfoldable pub merged : List Text → List Text → Merge
unfolding add_all add_template add_command
merged template_env_import cmd_env_import =
    add_all add_command cmd_env_import
      (add_all add_template template_env_import (record { mappings = []; order = [] }))

unfoldable pub merge_env_import : List Text → List Text → List Text
unfolding in_order merged
merge_env_import template_env_import cmd_env_import =
    let m = merged template_env_import cmd_env_import in in_order m.mappings m.order

-- `maps.Copy(dst, src)`
unfoldable pub copy_to {ℓ} : {V : Type ℓ} → Dict V → Dict V → Dict V
copy_to dst [] = dst
copy_to dst ((k, v) ∷ src) = copy_to (insert k v dst) src

unfoldable pub merge_vars : Dict RawValue → Dict RawValue → Dict RawValue
unfolding copy_to
merge_vars template_vars cmd_vars = copy_to (copy_to [] template_vars) cmd_vars

overridden :
    merge_env_import (codes "a=X" ∷ codes "b=Y" ∷ []) (codes "c=Z" ∷ codes "a=W" ∷ [])
    ≡ codes "a=W" ∷ codes "b=Y" ∷ codes "c=Z" ∷ []
unfolding merge_env_import internal_name lookup insert parse_key_value
overridden = refl

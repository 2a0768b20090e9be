-- ===== src/Levels/Timeouts.antt =====
-- internal/common/timeout_resolver.go and output_size_limit.go. An unset `OptionalValue` is `none`.
use go_safe_cmd_runner.Base.{◌*◌, Option, none, some, Text, codes, ℤ, pos}

abbrev pub default_timeout : ℤ
default_timeout = pos 60

abbrev pub default_output_size_limit : ℤ
default_output_size_limit = pos (10 * 1024 * 1024)

pub record TimeoutResolutionContext : Type 0 where
  pub command_name : Text
  pub group_name : Text
  pub level : Text

unfoldable pub resolve_timeout :
    Option ℤ → Option ℤ → Option ℤ → Text → Text → ℤ × TimeoutResolutionContext
resolve_timeout (some v) group_timeout global_timeout command_name group_name =
    (v, record { command_name = command_name; group_name = group_name; level = codes "command" })
resolve_timeout none (some v) global_timeout command_name group_name =
    (v, record { command_name = command_name; group_name = group_name; level = codes "group" })
resolve_timeout none none (some v) command_name group_name =
    (v, record { command_name = command_name; group_name = group_name; level = codes "global" })
resolve_timeout none none none command_name group_name = (
  default_timeout,
  record { command_name = command_name; group_name = group_name; level = codes "default" },
)

unfoldable pub resolve_output_size_limit : Option ℤ → Option ℤ → ℤ
resolve_output_size_limit (some v) global_limit = v
resolve_output_size_limit none (some v) = v
resolve_output_size_limit none none = default_output_size_limit

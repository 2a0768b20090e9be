-- ===== src/Templates/Command/Resolved.antt =====
-- What a command is after its template is resolved.
use go_safe_cmd_runner.Base.Dict.{Dict}

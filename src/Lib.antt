-- ===== src/Lib.antt =====
-- go-safe-cmd-runner runs configured commands under checks: names and values of variables are
-- expanded, environment variables come in through an allowlist, files are accessed only if their
-- owners and modes are safe, commands run only if their files' hashes are known, and root privilege
-- is held for one callback at a time.
--
-- The parts, and the files of this library that model them:
--
-- - internal/filevalidator: a hash file is named after the path it is for. PathEncoding has the
--   encoder and the decoder of pathencoding/substitution_hash_escape.go (Encode, Decode and their
--   loops), PathEncoding/HashPath the choice between the encoded name and the hashed one
--   (GetHashFilePath of hybrid_hash_path_getter.go and sha256_path_hash_getter.go). SHA-256 with its
--   base64 is a parameter. Utf8 is Go's own conversion between bytes and runes.
-- - internal/runner/base/security/environment_validation.go, internal/common/string.go,
--   internal/runner/base/variable/scope.go, internal/runner/base/environment/denylist.go: Names,
--   Names/Scopes and Names/Denylist.
-- - internal/runner/config/expansion.go: Expand/Pieces and Expand/Refs have processVarRefs, over a
--   resolver as the code has it; Expand/Strings has resolveAndExpand, ExpandString and ExpandWorkDir;
--   Expand/Lazy has varExpander, whose memo is a part of the state that is passed on. Config has
--   ProcessEnvImport (Config/Imports), ProcessVars (Config/Vars) and ProcessEnv (Config/Env), and in
--   Config/Errors the check of a name of internal/runner/config/validation.go.
-- - internal/groupmembership: Groups/Policy (SetProcessPermissionCheckUIDPolicy and the effective
--   policy), Groups/SudoUid (resolvePermissionCheckUID), Groups/Members (GetGroupMembers with its
--   cache), Groups/Access (the read and write checks) and Groups/Database (the members by
--   membership_files.go and membership_nocgo.go, over the lines of the files). The user database,
--   the conversions of the SUDO_UID check, the trimming of blanks and the enumeration of a group,
--   which the manager takes as a function, are parameters.
-- - internal/runner/base/privilege: Privilege/Manager (WithPrivileges of unix.go, with the steps it
--   is made of) and Privilege/Metrics. The kernel's seteuid, the reading of the saved-set IDs and the
--   callback are parameters.
-- - internal/runner/base/risk/evaluator.go: Risk/Assessment and Risk/Evaluator (EvaluateRisk and
--   evaluateDimensions), over an interface, Security, for what internal/runner/base/security and the
--   network analyzer answer.
-- - internal/runner/config/template_expansion.go and template_inheritance.go: Templates/Placeholders
--   (parsePlaceholders), Templates/Args (expandSingleArg and ExpandTemplateArgs), Templates/Env
--   (ExpandTemplateEnv), Templates/Vars (ExpandTemplateVars), Templates/Usage (CollectUsedParams) and
--   Templates/Inheritance (MergeEnvImport, MergeVars); Templates/Validation has the checks of a
--   template when it is loaded, and Templates/Command the resolution of a command's template, of
--   internal/runner/config/expansion.go.
-- - the rest of internal/runner/config/expansion.go: Levels/Expansion (ExpandGlobal, ExpandGroup and
--   ExpandCommand, over the steps that they share) and Levels/CmdAllowed (expandCmdAllowed);
--   Levels/Timeouts is internal/common/timeout_resolver.go and output_size_limit.go, Levels/SystemEnv
--   the parsing of the process environment and the automatic variables. Symbolic links, the clock
--   and the environment are parameters.
--
-- A text is the list of its bytes, a map an association list whose order is the order in which the
-- runtime visits it, or a function; a Go error is a constructor that carries what the error carries.
-- A shared object that the code mutates (the set of visited variables, the memo, the cache, the
-- process's IDs) is a state that the functions pass on; a mutex makes a call one step.
--
-- Expansion recurses on a number of levels that is left, from MaxRecursionDepth, 100, as the code
-- counts its depth up to it: running out is the code's own error. The loop of processVarRefs goes
-- over the bytes of its input, and the bytes that a piece covers are passed over.
--
-- Not modelled: logging, the loading of a configuration file and the checks of its other parts, the
-- classification tables behind the risk of a command, binary analysis, execution of commands, and
-- input and output.
pub mod Base
pub mod Utf8
pub mod PathEncoding
pub mod Names
pub mod Expand
pub mod Config
pub mod Groups
pub mod Privilege
pub mod Risk
pub mod Templates
pub mod Levels
pub mod Tests

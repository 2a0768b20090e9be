-- ===== src/Levels/CmdAllowed.antt =====
-- `expandCmdAllowed` of internal/runner/config/expansion.go. `filepath.EvalSymlinks` is a parameter, and
-- the set of the paths is a list without repeats.
pub mod Paths
use go_safe_cmd_runner.Base.{
  ℕ, ◌+◌, ◌≡◌, refl, Bool, true, false, not, List, [], ◌∷◌, ◌++◌, Option, none, some, Text, codes,
  text_eq, contains, length, ltb, decimal, if◌then◌else◌, Result, ok, err, ◌>>=◌, ◌>>◌, reject_if,
}
use go_safe_cmd_runner.Base.Dict.{Dict, lookup, insert}
use go_safe_cmd_runner.Expand.Pieces.{ExpandError}
use go_safe_cmd_runner.Expand.Strings.{expand_string, is_abs}
use go_safe_cmd_runner.Levels.Specs.{
  LevelError, expanding, duplicate_path, empty_path, path_not_absolute, path_too_long,
  failed_to_resolve_path, duplicate_resolved_path,
}

abbrev pub max_path_length : ℕ
max_path_length = 4096

abbrev pub group_level : Text → Text
group_level group_name = codes "group[" ++ (group_name ++ codes "]")

abbrev pub lift_expanding {ℓ} : {A : Type ℓ} → Result ExpandError A → Result LevelError A
lift_expanding (ok a) = ok a
lift_expanding (err e) = err (expanding e)

module _ (eval_symlinks : Text → Option Text) (vars : Dict Text) (group_name : Text) where
  unfoldable pub check_seen : Text → ℕ → Option ℕ → Result LevelError (Unit {0})
  check_seen raw_path i none = ok tt
  check_seen raw_path i (some first_idx) =
      err (duplicate_path (group_level group_name) raw_path first_idx i)

  -- The loop over the raw paths, with `seenRaw`.
  unfoldable pub check_raw_paths : ℕ → Dict ℕ → List Text → Result LevelError (Unit {0})
  unfolding check_seen
  check_raw_paths i seen_raw [] = ok tt
  check_raw_paths i seen_raw (raw_path ∷ rest) =
      check_seen raw_path i (lookup raw_path seen_raw)
      >> check_raw_paths (i + 1) (insert raw_path i seen_raw) rest

  unfoldable pub check_expanded : Text → Result LevelError (Unit {0})
  unfolding is_abs
  check_expanded expanded = do
    reject_if (not (is_abs expanded)) (path_not_absolute expanded)
    reject_if (ltb max_path_length (length expanded)) (path_too_long expanded)

  unfoldable pub resolved_path : ℕ → Text → Result LevelError Text
  resolved_path i expanded = elim (eval_symlinks expanded) [
    | none ↦ err (failed_to_resolve_path group_name i expanded)
    | some normalized ↦ ok normalized
  ]

  -- One raw path: it is put into the set.
  unfoldable pub allow_path : ℕ → Text → List Text → Result LevelError (List Text)
  unfolding check_expanded resolved_path expand_string
  allow_path i raw_path result = do
    reject_if (text_eq raw_path []) (empty_path group_name i)
    expanded ← lift_expanding (
        expand_string raw_path vars (group_level group_name)
          (codes "cmd_allowed[" ++ (decimal i ++ codes "]")))
    check_expanded expanded
    normalized ← resolved_path i expanded
    reject_if (contains result normalized)
        (duplicate_resolved_path (group_level group_name) raw_path normalized)
    ok (normalized ∷ result)

  unfoldable pub allow_paths : ℕ → List Text → List Text → Result LevelError (List Text)
  unfolding allow_path
  allow_paths i [] result = ok result
  allow_paths i (raw_path ∷ rest) result = allow_path i raw_path result >>= allow_paths (i + 1) rest

  unfoldable pub expand_cmd_allowed : List Text → Result LevelError (List Text)
  unfolding check_raw_paths allow_paths
  expand_cmd_allowed raw_paths = check_raw_paths 0 [] raw_paths >> allow_paths 0 raw_paths []

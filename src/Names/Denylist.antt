-- ===== src/Names/Denylist.antt =====
-- internal/runner/base/environment/denylist.go: variables that never reach a child process.
use go_safe_cmd_runner.Base.{
  ◌≡◌, refl, Bool, true, false, ◌||◌, List, [], ◌∷◌, Text, codes, has_prefix, contains,
}

abbrev pub forbidden_env_var_prefixes : List Text
forbidden_env_var_prefixes = codes "LD_" ∷ codes "DYLD_" ∷ codes "BASH_FUNC_" ∷ []

abbrev pub forbidden_env_var_exact : List Text
forbidden_env_var_exact =
    codes "GCONV_PATH"
    ∷ codes "LOCPATH"
    ∷ codes "HOSTALIASES"
    ∷ codes "NLSPATH"
    ∷ codes "RES_OPTIONS"
    ∷ codes "GLIBC_TUNABLES"
    ∷ codes "BASH_ENV"
    ∷ codes "ENV"
    ∷ codes "ZDOTDIR"
    ∷ codes "SHELLOPTS"
    ∷ codes "PS4"
    ∷ codes "PYTHONPATH"
    ∷ codes "PYTHONSTARTUP"
    ∷ codes "PYTHONHOME"
    ∷ codes "PERL5LIB"
    ∷ codes "PERLLIB"
    ∷ codes "PERL5OPT"
    ∷ codes "PERL5DB"
    ∷ codes "NODE_OPTIONS"
    ∷ codes "NODE_PATH"
    ∷ codes "RUBYOPT"
    ∷ codes "RUBYLIB"
    ∷ codes "GIT_SSH"
    ∷ codes "GIT_SSH_COMMAND"
    ∷ codes "GIT_ASKPASS"
    ∷ codes "SSH_ASKPASS"
    ∷ codes "GIT_EXTERNAL_DIFF"
    ∷ codes "LESSOPEN"
    ∷ codes "LESSCLOSE"
    ∷ []

-- The loop over the prefixes.
unfoldable pub has_any_prefix : Text → List Text → Bool
unfolding has_prefix
has_any_prefix name [] = false
has_any_prefix name (prefix ∷ rest) = has_prefix name prefix || has_any_prefix name rest

unfoldable pub is_forbidden_env_var : Text → Bool
unfolding has_any_prefix contains
is_forbidden_env_var name =
    has_any_prefix name forbidden_env_var_prefixes || contains forbidden_env_var_exact name

preload : is_forbidden_env_var (codes "LD_PRELOAD") ≡ true
unfolding is_forbidden_env_var
preload = refl

case_sensitive : is_forbidden_env_var (codes "ld_preload") ≡ false
unfolding is_forbidden_env_var
case_sensitive = refl

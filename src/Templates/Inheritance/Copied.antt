-- ===== src/Templates/Inheritance/Copied.antt =====
-- What `maps.Copy` and the merge of variables leave under a name.
use go_safe_cmd_runner.Base.{
  ◌≡◌, All, refl, ◌∙◌, ap, [], ◌∷◌, Option, none, some, Text, text_eq_iff, arith,
}
use go_safe_cmd_runner.Base.Dict.{Dict, lookup, insert, lookup-insert, insert-All, UniqueKeys}
use go_safe_cmd_runner.Expand.Lazy.{RawValue}
use go_safe_cmd_runner.Templates.Inheritance.{copy_to, merge_vars, or_default}

pub lookup-copy_to {ℓ} :
    {V : Type ℓ} (name : Text) (src dst : Dict V)
    → UniqueKeys src
    → lookup name (copy_to dst src) ≡ or_default (lookup name src) (lookup name dst)
unfolding lookup copy_to
lookup-copy_to name [] dst unique = refl
lookup-copy_to name ((k, v) ∷ src) dst (new, unique) =
    lookup-copy_to name src (insert k v dst) unique
    ∙ ap (or_default (lookup name src)) (lookup-insert name k v dst)
    ∙ ground (arith, text_eq_iff k name)

or_default-none {ℓ} : {A : Type ℓ} (o : Option A) → or_default o none ≡ o
or_default-none none = refl
or_default-none (some a) = refl

-- A variable of the command hides the template's.
pub lookup-merge_vars :
    (name : Text) (template_vars cmd_vars : Dict RawValue)
    → UniqueKeys template_vars
    → UniqueKeys cmd_vars
    → lookup name (merge_vars template_vars cmd_vars)
      ≡ or_default (lookup name cmd_vars) (lookup name template_vars)
unfolding merge_vars lookup
lookup-merge_vars name ts cs ts_unique cs_unique =
    lookup-copy_to name cs (copy_to [] ts) cs_unique
    ∙ ap (or_default (lookup name cs))
        (lookup-copy_to name ts [] ts_unique ∙ or_default-none (lookup name ts))

-- What all values of two maps have, all values have after the one is copied to the other.
pub copy_to-All {ℓ κ} :
    {V : Type ℓ} (P : Text → V → Type κ) (src dst : Dict V)
    → All (λ (e : Text × V). P e.0 e.1) dst
    → All (λ (e : Text × V). P e.0 e.1) src
    → All (λ (e : Text × V). P e.0 e.1) (copy_to dst src)
unfolding copy_to
copy_to-All P [] dst all more = all
copy_to-All P ((k, v) ∷ src) dst all (p, more) =
    copy_to-All P src (insert k v dst) (insert-All P dst k v all p) more

-- Where a map holds the values of another one, it does so after the same entries are copied to both.
pub copy_to_both :
    (src small large : Dict Text)
    → ((name v : Text) → lookup name small ≡ some v → lookup name large ≡ some v)
    → (name v : Text) → lookup name (copy_to small src) ≡ some v
    → lookup name (copy_to large src) ≡ some v
unfolding copy_to
copy_to_both [] small large holds name v h = holds name v h
copy_to_both ((k, w) ∷ src) small large holds name v h =
    copy_to_both src (insert k w small) (insert k w large)
      (λ x u e. ground (arith, lookup-insert x k w small, lookup-insert x k w large, holds x u))
      name v h

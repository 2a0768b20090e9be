-- ===== src/Base/Dict.antt =====
-- Go maps with string keys, as association lists in insertion order.
use go_safe_cmd_runner.Base.Tests.{if◌then◌else◌, Bool-cases}
use go_safe_cmd_runner.Base.Bytes.{Text, text_eq, text_eq_iff, text_eq_refl}
use go_safe_cmd_runner.Base.Lists.{All, All-map}
use mathlib.Core.Path.{◌≡◌, refl, subst}
use mathlib.Core.Logic.{inl, inr}
use mathlib.Core.Option.{Option, none, some}
use mathlib.Core.List.{List, [], ◌∷◌}
use native.Mathlib.Omega.{arith}

abbrev pub Dict {ℓ} : Type ℓ → Type ℓ
Dict V = List (Text × V)

module _ {ℓ} {V : Type ℓ} where
  unfoldable pub lookup : Text → Dict V → Option V
  unfolding text_eq
  lookup k [] = none
  lookup k ((j, v) ∷ m) = if text_eq j k then some v else lookup k m

  -- `m[k] = v`
  unfoldable pub insert : Text → V → Dict V → Dict V
  unfolding text_eq
  insert k v [] = (k, v) ∷ []
  insert k v ((j, w) ∷ m) = if text_eq j k then (k, v) ∷ m else (j, w) ∷ insert k v m

  -- `delete(m, k)`
  unfoldable pub delete : Text → Dict V → Dict V
  unfolding text_eq
  delete k [] = []
  delete k ((j, w) ∷ m) = let rest = delete k m in if text_eq j k then rest else (j, w) ∷ rest

  pub lookup-insert :
      (j k : Text) (v : V) (m : Dict V)
      → lookup j (insert k v m) ≡ (if text_eq k j then some v else lookup j m)
  unfolding lookup insert
  lookup-insert j k v [] = refl
  lookup-insert j k v ((i, w) ∷ m) =
      ground (arith, text_eq_iff k j, text_eq_iff i k, text_eq_iff i j, lookup-insert j k v m)

  pub lookup-delete :
      (j k : Text) (m : Dict V) → lookup j (delete k m) ≡ (if text_eq k j then none else lookup j m)
  unfolding lookup delete
  lookup-delete j k [] = ground arith
  lookup-delete j k ((i, w) ∷ m) =
      ground (arith, text_eq_iff k j, text_eq_iff i k, text_eq_iff i j, lookup-delete j k m)

  -- A Go map holds a key once.
  abbrev pub UniqueKeys : Dict V → Type ℓ
  UniqueKeys [] = Unit
  UniqueKeys ((k, v) ∷ m) = (lookup k m ≡ none) × UniqueKeys m

  lookup_under :
      (k : Text) (v : V) (m : Dict V) (e : Text × V)
      → lookup k m ≡ none
      → lookup e.0 m ≡ some e.1
      → lookup e.0 ((k, v) ∷ m) ≡ some e.1
  unfolding lookup
  lookup_under k v m e new h = ground (arith, text_eq_iff k e.0)

  -- Every entry of a map is found.
  pub UniqueKeys-lookup :
      (m : Dict V) → UniqueKeys m → All (λ (e : Text × V). lookup e.0 m ≡ some e.1) m
  UniqueKeys-lookup [] u = tt
  UniqueKeys-lookup ((k, v) ∷ m) (new, u) = (
    unfold lookup in rw text_eq_refl,
    All-map (λ (e : Text × V). lookup e.0 m ≡ some e.1)
        (λ (e : Text × V). lookup e.0 ((k, v) ∷ m) ≡ some e.1) m (λ e h. lookup_under k v m e new h)
        (UniqueKeys-lookup m u),
  )

  pub insert-UniqueKeys : (k : Text) (v : V) (m : Dict V) → UniqueKeys m → UniqueKeys (insert k v m)
  unfolding insert lookup
  insert-UniqueKeys k v [] u = (refl, tt)
  insert-UniqueKeys k v ((j, w) ∷ m) (new, u) = elim (Bool-cases (text_eq j k)) [
    | inl same ↦ rw same (subst (λ (x : Text). lookup x m ≡ none) ((text_eq_iff j k).0 same) new, u)
    | inr differ ↦ rw differ (
      ground (arith, lookup-insert j k v m, text_eq_iff k j, text_eq_iff j k),
      insert-UniqueKeys k v m u,
    )
  ]

  -- What all entries have, the entry of a key that is found has.
  pub lookup_All {κ} :
      (P : Text → V → Type κ) (m : Dict V) (k : Text) (v : V)
      → All (λ (e : Text × V). P e.0 e.1) m
      → lookup k m ≡ some v
      → P k v
  unfolding lookup
  lookup_All P [] k v all h = absurd (ground arith)
  lookup_All P ((j, w) ∷ m) k v (p, all) h = elim (Bool-cases (text_eq j k)) [
    | inl same ↦ subst (λ x. P k x) (ground arith) (subst (λ x. P x w) ((text_eq_iff j k).0 same) p)
    | inr differ ↦ lookup_All P m k v all (ground arith)
  ]

  pub insert-All {κ} :
      (P : Text → V → Type κ) (m : Dict V) (k : Text) (v : V)
      → All (λ (e : Text × V). P e.0 e.1) m
      → P k v
      → All (λ (e : Text × V). P e.0 e.1) (insert k v m)
  unfolding insert
  insert-All P [] k v all p = (p, tt)
  insert-All P ((j, w) ∷ m) k v (q, all) p = elim (Bool-cases (text_eq j k)) [
    | inl same ↦ rw same (p, all)
    | inr differ ↦ rw differ (q, insert-All P m k v all p)
  ]

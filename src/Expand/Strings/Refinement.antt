-- ===== src/Expand/Strings/Refinement.antt =====
-- `ExpandString` against the meaning of its input: the set of visited names and the chain change
-- no result.
use go_safe_cmd_runner.Base.{
  ℕ, zero, suc, ◌≤◌, ◌<◌, ◌≡◌, ◌↔◌, refl, inl, inr, true, false, List, [], ◌∷◌, ◌++◌, sym, ◌∙◌, ap,
  subst, arith, Text, text_eq, text_eq_iff, text_eq_refl, contains, Result, ok, err, Bool-cases,
  Option-cases, Result-cases, ok_pair, Option, none, some,
}
use go_safe_cmd_runner.Base.Dict.{Dict, lookup}
use go_safe_cmd_runner.Expand.Pieces.{ExpandError, max_recursion_depth}
use go_safe_cmd_runner.Expand.Refs.{State, process_var_refs}
use go_safe_cmd_runner.Expand.Refs.Sound.{IsSound, walk_sound}
use go_safe_cmd_runner.Expand.Refs.Complete.{Reads-read, walk_complete}
use go_safe_cmd_runner.Expand.Strings.{
  fst_result, unmark, resolver, resolve_and_expand, expand_string,
}
use go_safe_cmd_runner.Expand.Meaning.{defined_by, meaning, meaning-suc, meaning_mono}

unmark_fresh : (name : Text) (xs : List Text) → contains xs name ≡ false → unmark name xs ≡ xs
unfolding unmark contains
unmark_fresh name [] h = refl
unmark_fresh name (x ∷ xs) h = ground (arith, unmark_fresh name xs)

pub unmark-cons :
    (name : Text) (xs : List Text) → contains xs name ≡ false → unmark name (name ∷ xs) ≡ xs
unfolding unmark
unmark-cons name xs h = ground (arith, text_eq_refl name, unmark_fresh name xs)

module _ (vars : Dict Text) (level field : Text) where
  abbrev look : Text → Option Text
  look name = lookup name vars

  -- The resolver of one level, over a sound level below it.
  resolver_sound :
      (left : ℕ) (chain : List Text) (input : Text)
      → ((chain' : List Text) (value v : Text) (s s' : State (Unit {0}))
          → resolve_and_expand vars level field left chain' value s ≡ ok (v, s')
          → (meaning look left value ≡ some v) × (s'.visited ≡ s.visited))
      → IsSound
          (resolver vars level field (resolve_and_expand vars level field left) input)
          level
          field
          chain
          (λ name v. defined_by look (meaning look left) name ≡ some v)
          (λ _. Unit)
  unfolding resolver
  resolver_sound left chain input below name v s s' fresh _ h =
      elim (Option-cases (lookup name vars)) [
        | inl missing ↦ absurd (ground arith)
        | inr (value, e) ↦
            elim (Result-cases (
              resolve_and_expand vars level field left (chain ++ name ∷ []) value
                (record s { visited = name ∷ s.visited }))) [
                  | inl (x, failed) ↦ absurd (ground arith)
                  | inr ((w, t), done) ↦
                      let (means, same) =
                        below (chain ++ name ∷ []) value w (record s { visited = name ∷ s.visited })
                          t done in
                      let (value_eq, state_eq) =
                        ok_pair w v (record t { visited = unmark name t.visited }) s'
                          (rw (e, done, resolver) at h) in
                      (
                        rw (e, defined_by) (means ∙ ap some value_eq),
                        sym (ap (λ (x : State (Unit {0})). x.visited) state_eq)
                            ∙ ap (unmark name) same
                            ∙ unmark-cons name s.visited fresh,
                        tt,
                      )
                ]
      ]

  resolve_and_expand_sound :
      (left : ℕ) (chain : List Text) (input res : Text) (s s' : State (Unit {0}))
      → resolve_and_expand vars level field left chain input s ≡ ok (res, s')
      → (meaning look left input ≡ some res) × (s'.visited ≡ s.visited)
  unfolding resolve_and_expand process_var_refs meaning
  resolve_and_expand_sound zero chain input res s s' h = absurd (ground arith)
  resolve_and_expand_sound (suc left) chain input res s s' h =
      let sound =
        resolver_sound left chain input
          (λ chain' value v t t' e. resolve_and_expand_sound left chain' value v t t' e) in
      let (w, reads, q, same, _) =
        walk_sound (resolver vars level field (resolve_and_expand vars level field left) input)
          level field chain _ (λ _. Unit) sound input 0 input [] res s s' tt h in
      (Reads-read (defined_by look (meaning look left)) 0 input w reads ∙ ap some (sym q), same)

-- The least height at which a text has the meaning that it has at a greater one.
least_height :
    (look : Text → Option Text) (k : ℕ) (t v : Text)
    → meaning look k t ≡ some v
    → (m : ℕ) × (m < k) × (meaning look (suc m) t ≡ some v) × (meaning look m t ≡ none)
unfolding meaning
least_height look zero t v h = absurd (ground arith)
least_height look (suc k) t v h = elim (Option-cases (meaning look k t)) [
  | inl none_below ↦ (k, omega arith, h, none_below)
  | inr (w, below) ↦
      let (m, lt, at_least, under) = least_height look k t w below in
      (m, omega arith, at_least ∙ (sym (meaning-suc look k t w below) ∙ h), under)
]

none_below :
    (look : Text → Option Text) (m k : ℕ) (t : Text)
    → m ≤ k
    → meaning look k t ≡ none
    → meaning look m t ≡ none
none_below look m k t le h = elim (Option-cases (meaning look m t)) [
  | inl e ↦ e
  | inr (v, e) ↦ absurd (cc (meaning_mono look m k t v le e))
]

-- No visited name has a meaning below the height.
abbrev NotBelow : Dict Text → ℕ → List Text → Type 0
NotBelow vars m visited =
    (x value : Text)
    → contains visited x ≡ true
    → lookup x vars ≡ some value
    → meaning (λ name. lookup name vars) m value ≡ none

fst_result_ok :
    (r : Result ExpandError (Text × State (Unit {0}))) (out : Text)
    → fst_result r ≡ ok out
    → (s : State (Unit {0})) × (r ≡ ok (out, s))
fst_result_ok (ok (v, s)) out h = (s, ap (λ w. ok (w, s)) (cc))
fst_result_ok (err e) out h = absurd (cc)

module _ (vars : Dict Text) (level field : Text) where
  resolver_complete :
      (left m : ℕ) (chain : List Text) (input : Text) (visited : List Text)
      → m < suc left
      → ((m' : ℕ) (chain' : List Text) (value w : Text) (visited' : List Text)
          → m' < left
          → meaning (look vars level field) (suc m') value ≡ some w
          → NotBelow vars m' visited'
          → resolve_and_expand vars level field left chain' value
              (record { visited = visited'; memo = tt })
            ≡ ok (w, record { visited = visited'; memo = tt }))
      → NotBelow vars m visited
      → (name v : Text)
      → defined_by (look vars level field) (meaning (look vars level field) m) name ≡ some v
      → (contains visited name ≡ false)
        × (resolver vars level field
              (resolve_and_expand vars level field left)
              input
              name
              chain
              (record { visited = visited; memo = tt })
            ≡ ok (v, record { visited = visited; memo = tt }))
  unfolding contains resolver
  resolver_complete left m chain input visited lt below free name v stands =
      elim (Option-cases (lookup name vars)) [
        | inl missing ↦ absurd (ground arith)
        | inr (value, e) ↦
            let means = rw (e, defined_by) at stands in
            let (m', lt', at_least, under) = least_height (look vars level field) m value v means in
            let fresh = unseen name value v e means in
            let done =
              below m' (chain ++ name ∷ []) value v (name ∷ visited) (omega arith) at_least
                (still_free name value m' lt' e under) in
            (
              fresh,
              rw (e, resolver)
                  (rw done (
                    ap (λ vs. ok (v, record { visited = vs; memo = tt }))
                      (unmark-cons name visited fresh))),
            )
      ]
    where
      unseen :
          (name value v : Text)
          → lookup name vars ≡ some value
          → meaning (look vars level field) m value ≡ some v
          → contains visited name ≡ false
      unseen name value v e means = elim (Bool-cases (contains visited name)) [
        | inl seen ↦ absurd (cc (free name value seen e))
        | inr new ↦ new
      ]

      still_free :
          (name value : Text) (m' : ℕ)
          → m' < m
          → lookup name vars ≡ some value
          → meaning (look vars level field) m' value ≡ none
          → NotBelow vars m' (name ∷ visited)
      still_free name value m' lt' e under x val c l = elim (Bool-cases (text_eq name x)) [
        | inl same ↦
            let same' = (text_eq_iff name x).0 same in
            subst (λ y. meaning (look vars level field) m' y ≡ none) (cc) under
        | inr differ ↦
            none_below (look vars level field) m' m val (omega arith) (free x val (ground arith) l)
      ]

  resolve_and_expand_complete :
      (left m : ℕ) (chain : List Text) (input w : Text) (visited : List Text)
      → m < left
      → meaning (look vars level field) (suc m) input ≡ some w
      → NotBelow vars m visited
      → resolve_and_expand vars level field left chain input
          (record { visited = visited; memo = tt })
        ≡ ok (w, record { visited = visited; memo = tt })
  unfolding resolve_and_expand process_var_refs meaning
  resolve_and_expand_complete zero m chain input w visited lt h free = absurd (omega arith)
  resolve_and_expand_complete (suc left) m chain input w visited lt h free =
      walk_complete (resolver vars level field (resolve_and_expand vars level field left) input)
        level field chain (defined_by (look vars level field) (meaning (look vars level field) m))
        (record { visited = visited; memo = tt })
        (resolver_complete left m chain input visited lt
          (λ m' chain' value v visited' lt' e f.
            resolve_and_expand_complete left m' chain' value v visited' lt' e f)
          free)
        input 0 input [] w h

  -- Expansion succeeds exactly when its input has a meaning with references nested less than
  -- MaxRecursionDepth deep, and then it returns that meaning: neither the detection of circular
  -- references nor the depth limit refuses an input that has one.
  pub expand_string-meaning :
      (input out : Text)
      → (expand_string input vars level field ≡ ok out)
        ↔ (meaning (λ name. lookup name vars) max_recursion_depth input ≡ some out)
  unfolding expand_string contains
  expand_string-meaning input out = (
    (λ h.
        let (s, done) = fst_result_ok _ out h in
        (resolve_and_expand_sound vars level field max_recursion_depth [] input out
          (record { visited = []; memo = tt }) s done).0),
    (λ h. ap fst_result (
        resolve_and_expand_complete max_recursion_depth 99 [] input out [] (omega arith) h
          (λ x value c. absurd (ground arith)))),
  )

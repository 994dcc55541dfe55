-- ===== src/Reasoning/State/Genesis.antt =====
-- What the validators accept is consistent, and so is every initial state.
use mathlib.Core.Option
use deductra.Common.{
  String, ◌<>◌, ◌≡◌, refl, sym, ap, ◌∙◌, inl, inr, Bool, true, false, not, some, List, [], ◌∷◌,
  ◌++◌, arith, Option-cases, ◌==◌, string_eq, pair_eq, nat_eq, bool_eq, any, All, contains, Has,
  from_keys, subset, same_set, Distinct, All-all, ok, Result-cases,
}
use deductra.Common.Dict.{Dict, keys, values, lookup}
use deductra.Common.Dict.Items.{All-lookup, IsCandidates}
use deductra.Canonical.{Platform}
use deductra.Domain.Atoms.{Atom, assignment, exclusion, atom_dec, atom_eq}
use deductra.Domain.Puzzle.{PuzzleSpec, constraint_ids}
use deductra.Reasoning.State.{PuzzleState, projected, is_empty, validate_structure}
use deductra.Reasoning.State.Invariant.{IsConsistent}
use deductra.Reasoning.State.Validation.{
  variable_domains, lookup_or_empty, report, outside_domain, not_in_domain, not_only,
  atom_violations, note_assignment, asserted_violations, assignments_of, constraint_violations,
  validate_state,
}

append_empty : (xs ys : List String) → xs ++ ys ≡ [] → (xs ≡ []) × (ys ≡ [])
append_empty [] ys h = (refl, h)
append_empty (x ∷ xs) ys h = cc

from_keys_empty : (xs : List String) → from_keys xs ≡ [] → xs ≡ []
unfolding from_keys
from_keys_empty [] h = refl
from_keys_empty (x ∷ xs) h = cc

report_empty : (b : Bool) (s : String) → report b s ≡ [] → b ≡ false
report_empty true s h = cc
report_empty false s h = refl

same_set_single :
    (x : String) (xs : List String) → Distinct xs → same_set xs (x ∷ []) ≡ true → xs ≡ x ∷ []
unfolding contains subset
same_set_single x [] d h = cc
same_set_single x (y ∷ []) d h = ground arith
same_set_single x (y ∷ z ∷ zs) d h = absurd (ground (arith, d.0))

none_empty :
    (d : Dict (List String)) (v : String) (xs : List String)
    → any is_empty (values d) ≡ false
    → lookup v d ≡ some xs
    → is_empty xs ≡ false
unfolding lookup
none_empty [] v xs h e = absurd (ground arith)
none_empty ((w, ys) ∷ d) v xs h e = ground (arith, none_empty d v xs)

module _ (domains candidates : Dict (List String)) where
  -- Without violations, no atom shows one.
  no_violation :
      (assignments : Dict String) (atoms : List Atom) (a : Atom)
      → asserted_violations domains candidates assignments atoms ≡ []
      → Has atoms a
      → (before : Dict String) × (atom_violations domains candidates before a ≡ [])
  unfolding asserted_violations contains
  no_violation assignments [] a h m = absurd (ground arith)
  no_violation assignments (b ∷ atoms) a h m =
      let (first, rest) = append_empty (atom_violations domains candidates assignments b) _ h in
      elim (atom_dec b a) [
        | yes same ↦ (assignments, rw (sym same) first)
        | no differ ↦
            no_violation (note_assignment domains candidates assignments b) atoms a rest
              (ground arith)
      ]

  assigned-only :
      (v x : String) (before : Dict String)
      → All (λ (_, xs). Distinct xs) candidates
      → atom_violations domains candidates before (assignment v x) ≡ []
      → lookup v candidates ≡ some (x ∷ [])
  unfolding atom_violations
  assigned-only v x before distinct h =
      let outside = report (not_in_domain domains v x) ("assignment_outside_domain:" <> v) in
      let conflict =
        report (not (Option.get_or (lookup v before) x == x)) ("conflicting_assignment:" <> v) in
      let mismatch = report (not_only candidates v x) ("assignment_candidate_mismatch:" <> v) in
      let rest = (append_empty outside (conflict ++ mismatch) h).1 in
      let last = (append_empty conflict mismatch rest).1 in
      let only_that =
        report_empty (not_only candidates v x) ("assignment_candidate_mismatch:" <> v) last in
      elim (Option-cases (lookup v candidates)) [
        | inl missing ↦ absurd (ground arith)
        | inr (xs, found) ↦
            let one =
              same_set_single x xs
                (All-lookup (λ (_, ys). Distinct ys) v xs candidates distinct found)
                (ground arith) in
            found ∙ ap some one
      ]

  excluded-gone :
      (v x : String) (before : Dict String) (xs : List String)
      → atom_violations domains candidates before (exclusion v x) ≡ []
      → lookup v candidates ≡ some xs
      → contains xs x ≡ false
  unfolding atom_violations
  excluded-gone v x before xs h e =
      let gone =
        report_empty (contains (lookup_or_empty v candidates) x)
          ("excluded_candidate_present:" <> v) h in
      ground arith

module _ (P : Platform) (p : PuzzleSpec) (s : PuzzleState) where
  violations-asserted :
      validate_state s p ≡ ok []
      → (domains : Dict (List String)) × (asserted_violations domains s.candidate_domains []
            s.asserted_atoms
          ≡ [])
  unfolding validate_state
  violations-asserted h = elim (Result-cases (variable_domains p)) [
    | inr (x, failed) ↦ absurd (ground arith)
    | inl (domains, found) ↦
        let candidates = s.candidate_domains in
        let revision =
          report (not (s.puzzle_revision_id == p.identity.revision_id))
            "puzzle_revision_mismatch" in
        let variables =
          report (not (same_set (keys candidates) (keys domains))) "candidate_variable_mismatch" in
        let outside = outside_domain domains candidates in
        let asserted = asserted_violations domains candidates [] s.asserted_atoms in
        let rest =
          report (not (subset s.active_constraint_ids (constraint_ids p)))
            "unknown_active_constraint"
          ++ constraint_violations (assignments_of domains candidates [] s.asserted_atoms)
              p.constraints in
        let everything : from_keys (revision ++ (variables ++ (outside ++ (asserted ++ rest))))
            ≡ [] =
          ground arith in
        let first =
          from_keys_empty (revision ++ (variables ++ (outside ++ (asserted ++ rest)))) everything in
        let second =
          (append_empty revision (variables ++ (outside ++ (asserted ++ rest))) first).1 in
        let third = (append_empty variables (outside ++ (asserted ++ rest)) second).1 in
        let fourth = (append_empty outside (asserted ++ rest) third).1 in
        (domains, (append_empty asserted rest fourth).0)
  ]

  -- A state whose variables differ, and the values of each, without contradictions or rejected
  -- atoms, is consistent if it passes its own validator and shows no violation against a
  -- specification.
  pub validate_state-IsConsistent :
      IsCandidates s.candidate_domains
      → s.rejected_atoms ≡ []
      → s.contradiction_ids ≡ []
      → validate_structure P s ≡ ok tt
      → validate_state s p ≡ ok []
      → IsConsistent P s
  unfolding validate_structure
  validate_state-IsConsistent candidates no_rejected no_contradiction structure valid_state =
      let (domains, none_asserted) = violations-asserted valid_state in
      record {
        facts = record {
          candidates = candidates;
          some_variable = ground arith;
          inhabited = λ v xs e. none_empty s.candidate_domains v xs (ground arith) e;
          assigned = λ v x h.
              let (before, clean) =
                no_violation domains s.candidate_domains [] s.asserted_atoms (assignment v x)
                  none_asserted h in
              assigned-only domains s.candidate_domains v x before candidates.1 clean;
          excluded = λ v x xs h e.
              let (before, clean) =
                no_violation domains s.candidate_domains [] s.asserted_atoms (exclusion v x)
                  none_asserted h in
              excluded-gone domains s.candidate_domains v x before xs clean e;
        };
        decided = λ v x e.
            All-lookup (λ item. projected s.asserted_atoms item ≡ true) v (x ∷ [])
              s.candidate_domains
              (All-all (projected s.asserted_atoms) s.candidate_domains (ground arith)) e;
        no_rejected = no_rejected;
        contradictions = ground arith;
        solved_iff = ground arith;
        hash = ground arith;
      }

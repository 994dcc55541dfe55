-- ===== src/Reasoning/State/Build.antt =====
-- `build_state`: what it returns, and when its own validators accept it.
use deductra.Common.{
  String, ◌≡◌, refl, sym, ap, ◌∙◌, true, false, some, List, [], ◌∷◌, arith, string_eq, pair_eq,
  nat_eq, bool_eq, any, All, contains, Has, to_set, unique, to_set_idem, any-false, all_of_All,
  place, ok, ◌>>◌,
}
use deductra.Common.Dict.{
  Dict, values, lookup, item_le, sort_items, lookup-sort_items, sort_items_idem, map_values,
  map_values-sort_items, map_values_idem,
}
use deductra.Common.Dict.Items.{All-by_lookup, IsCandidates, map_to_set, sort_items-IsCandidates}
use deductra.Canonical.{Platform}
use deductra.Domain.Atoms.{Atom, assignment, atom_eq}
use deductra.Reasoning.State.{
  PuzzleState, freeze, dump_state, compute_state_hash, projected, is_empty, validate_structure,
  make_state, StateFields, unsigned_state, build_state,
}

pub freeze_idem : (d : Dict (List String)) → freeze (freeze d) ≡ freeze d
unfolding freeze
freeze_idem d = rw (map_values-sort_items, map_values_idem to_set to_set_idem, sort_items_idem)

pub freeze_candidates : (d : Dict (List String)) → IsCandidates d → freeze d ≡ sort_items d
unfolding freeze
freeze_candidates d h = ap sort_items (map_to_set d h)

pub lookup-freeze :
    (v : String) (d : Dict (List String)) → IsCandidates d → lookup v (freeze d) ≡ lookup v d
lookup-freeze v d h = ap (lookup v) (freeze_candidates d h) ∙ lookup-sort_items v d

pub freeze-IsCandidates : (d : Dict (List String)) → IsCandidates d → IsCandidates (freeze d)
freeze-IsCandidates d h = rw (freeze_candidates d h) (sort_items-IsCandidates d h)

is_empty-place :
    (x : String × List String) (d : Dict (List String)) → is_empty (place item_le x d) ≡ false
unfolding place
is_empty-place x [] = refl
is_empty-place x (y ∷ d) = ground arith

pub is_empty-freeze : (d : Dict (List String)) → is_empty d ≡ false → is_empty (freeze d) ≡ false
unfolding freeze map_values sort_items
is_empty-freeze [] h = h
is_empty-freeze ((k, v) ∷ d) h = is_empty-place (k, to_set v) (sort_items (map_values to_set d))

projected_of_decided :
    (asserted : List Atom) (v : String) (xs : List String)
    → ((x : String) → xs ≡ x ∷ [] → Has asserted (assignment v x))
    → projected asserted (v, xs) ≡ true
projected_of_decided asserted v [] h = refl
projected_of_decided asserted v (x ∷ []) h = h x refl
projected_of_decided asserted v (x ∷ y ∷ xs) h = refl

any-is_empty :
    (d : Dict (List String))
    → All (λ (_, xs). is_empty xs ≡ false) d
    → any is_empty (values d) ≡ false
any-is_empty [] h = refl
any-is_empty (_ ∷ d) h = ground (arith, any-is_empty d h.1)

-- The state with its hash filled in.
unfoldable pub signed : Platform → StateFields → PuzzleState
signed P f = record (unsigned_state f) { state_hash = compute_state_hash P (unsigned_state f) }

-- What the caller has to supply for `build_state` to succeed.
pub record IsBuildable (f : StateFields) : Type 0 where
  pub candidates : IsCandidates f.candidate_domains
  pub some_variable : is_empty f.candidate_domains ≡ false
  pub inhabited :
      (v : String) (xs : List String) → lookup v f.candidate_domains ≡ some xs → is_empty xs ≡ false
  pub disjoint : (a : Atom) → Has f.asserted_atoms a → contains f.rejected_atoms a ≡ false
  pub contradictions : unique f.contradiction_ids ≡ true
  pub decided :
      (v x : String)
      → lookup v f.candidate_domains ≡ some (x ∷ [])
      → Has f.asserted_atoms (assignment v x)

module _ (P : Platform) where
  pub build_state-signed :
      (f : StateFields) → build_state P f ≡ (do validate_structure P (signed P f); ok (signed P f))
  unfolding build_state make_state signed
  build_state-signed f = rw freeze_idem

  pub build_state_eq-signed :
      (f : StateFields) {s : PuzzleState} → build_state P f ≡ ok s → s ≡ signed P f
  build_state_eq-signed f h = ground (arith, build_state-signed f)

  pub hash-signed : (f : StateFields) → (signed P f).state_hash ≡ compute_state_hash P (signed P f)
  unfolding signed compute_state_hash dump_state
  hash-signed f = refl

  -- The model validator passes whatever `build_state` is given as it should be.
  pub build_state_ok : (f : StateFields) → IsBuildable f → build_state P f ≡ ok (signed P f)
  unfolding validate_structure signed unsigned_state
  build_state_ok f b = ground (
    arith,
    build_state-signed f,
    hash-signed f,
    is_empty-freeze f.candidate_domains b.some_variable,
    any-is_empty (freeze f.candidate_domains) (
        All-by_lookup (λ (_, xs). is_empty xs ≡ false) (freeze f.candidate_domains)
          (freeze-IsCandidates f.candidate_domains b.candidates).0
          (λ v xs e.
            b.inhabited v xs (sym (lookup-freeze v f.candidate_domains b.candidates) ∙ e))),
    any-false (contains f.rejected_atoms) f.asserted_atoms b.disjoint,
    all_of_All (projected f.asserted_atoms) (freeze f.candidate_domains) (
        All-by_lookup (λ item. projected f.asserted_atoms item ≡ true) (freeze f.candidate_domains)
          (freeze-IsCandidates f.candidate_domains b.candidates).0
          (λ v xs e. projected_of_decided f.asserted_atoms v xs (λ x p.
            b.decided v x
              (sym (lookup-freeze v f.candidate_domains b.candidates) ∙ e ∙ ap some p)))),
  )

-- ===== src/Tests/Genesis.antt =====
-- The initial state of a puzzle of one variable.
use deductra.Common.{
  ◌≡◌, refl, [], ◌∷◌, string_dec, string_eq, pair_eq, nat_eq, bool_eq, contains, add, to_set,
  difference, from_keys, intersection, subset, unique, text_le, place, sort_by, ok,
}
use deductra.Common.Dict.{lookup, insert, dict_of, sort_items, map_values}
use deductra.Canonical.{canonical_sha256}
use deductra.Domain.Atoms.{exclusion, atom_dec, atom_eq}
use deductra.Domain.Puzzle.{PuzzleSpec}
use deductra.Reasoning.State.{
  freeze, compute_state_hash, validate_structure, make_state, unsigned_state, build_state,
}
use deductra.Reasoning.State.Build.{signed}
use deductra.Reasoning.State.Initial.{assert_singletons, create_initial_state}
use deductra.Reasoning.State.Invariant.{IsConsistent}
use deductra.Reasoning.State.Validation.{variable_domains, validate_state}
use deductra.Reasoning.State.Genesis.{validate_state-IsConsistent}
use deductra.Tests.Samples.{flat}
use deductra.Tests.Solving.{one_variable, initial, valid_initial}

program : Unit {0}
unfolding create_initial_state validate_state variable_domains dict_of from_keys lookup insert
    string_dec signed unsigned_state subset freeze sort_items map_values contains to_set add unique
    compute_state_hash canonical_sha256 assert_singletons sort_by place text_le build_state
    make_state validate_structure atom_dec difference intersection
program = tt

-- The puzzle with the first value excluded.
abbrev excluding_one : PuzzleSpec
excluding_one = record one_variable { givens = exclusion "a" "1" ∷ [] }

structured : validate_structure flat initial ≡ ok tt
unfolding program
structured = refl

validate_state-IsConsistent_example : IsConsistent flat initial
unfolding program
validate_state-IsConsistent_example =
    validate_state-IsConsistent flat one_variable initial ((refl, tt), ((refl, (refl, tt)), tt))
      refl refl structured valid_initial

-- ===== src/Reasoning/Branches/History.antt =====
-- What an event does to the retained branches: which states and records it may change.
use mathlib.Core.Path.{subst}
use mathlib.Core.Logic.{if_pos, if_neg}
use deductra.Common.{
  ℕ, String, ◌≡◌, refl, sym, ◌≢◌, true, Option, none, some, List, [], ◌∷◌, ◌++◌, arith, string_dec,
  string_eq, pair_eq, nat_eq, bool_eq, All, contains, ok, >>=-eq-ok, ok-injective,
}
use deductra.Domain.Atoms.{atom_eq}
use deductra.Reasoning.State.{PuzzleState}
use deductra.Reasoning.Branches.{
  Status, BranchRecord, BranchProjection, validate_record, record_ids, find_state, find_record,
  or_stop, validate_projection, make_record, make_projection,
}
use deductra.Reasoning.Branches.Reduction.{replace_records, replace_states, close_records}

pub make_projection-eq-ok :
    (p q : BranchProjection) → make_projection p ≡ ok q → (q ≡ p) × (validate_projection p ≡ ok tt)
unfolding make_projection
make_projection-eq-ok p q h =
    let (x, checked, same) = >>=-eq-ok (validate_projection p) (λ _. ok p) h in
    (sym (ok-injective same), checked)

pub make_record-eq-ok : (r s : BranchRecord) → make_record r ≡ ok s → s ≡ r
unfolding make_record
make_record-eq-ok r s h =
    let (x, checked, same) = >>=-eq-ok (validate_record r) (λ _. ok r) h in sym (ok-injective same)

pub find_state-snoc :
    (b : String) (ss : List PuzzleState) (t : PuzzleState)
    → t.branch_id ≢ b
    → find_state b (ss ++ t ∷ []) ≡ find_state b ss
unfolding find_state
find_state-snoc b [] t n = ground arith
find_state-snoc b (s ∷ ss) t n = ground (arith, find_state-snoc b ss t n)

pub find_record-snoc :
    (b : String) (rs : List BranchRecord) (t : BranchRecord)
    → t.branch_id ≢ b
    → find_record b (rs ++ t ∷ []) ≡ find_record b rs
unfolding find_record
find_record-snoc b [] t n = ground arith
find_record-snoc b (s ∷ ss) t n = ground (arith, find_record-snoc b ss t n)

pub find_state-replace :
    (b : String) (t : PuzzleState) (ss : List PuzzleState)
    → t.branch_id ≢ b
    → find_state b (replace_states t ss) ≡ find_state b ss
unfolding find_state replace_states
find_state-replace b t [] n = refl
find_state-replace b t (s ∷ ss) n = ground (arith, find_state-replace b t ss n)

pub find_record-replace :
    (b : String) (t : PuzzleState) (x : Option Status) (rs : List BranchRecord)
    → t.branch_id ≢ b
    → find_record b (replace_records t x rs) ≡ find_record b rs
unfolding find_record replace_records
find_record-replace b t x [] n = refl
find_record-replace b t x (r ∷ rs) n = ground (arith, find_record-replace b t x rs n)

pub find_record-close :
    (b c : String) (x : Status) (n : ℕ) (rs : List BranchRecord)
    → c ≢ b
    → find_record b (close_records c x n rs) ≡ find_record b rs
unfolding find_record close_records
find_record-close b c x n [] d = refl
find_record-close b c x n (r ∷ rs) d = ground (arith, find_record-close b c x n rs d)

pub find_state-branch :
    (b : String) (ss : List PuzzleState) (t : PuzzleState)
    → find_state b ss ≡ some t
    → t.branch_id ≡ b
unfolding find_state
find_state-branch b [] t h = cc
find_state-branch b (s ∷ ss) t h = ground (arith, find_state-branch b ss t)

pub find_record-branch :
    (b : String) (rs : List BranchRecord) (t : BranchRecord)
    → find_record b rs ≡ some t
    → t.branch_id ≡ b
unfolding find_record
find_record-branch b [] t h = cc
find_record-branch b (s ∷ ss) t h = ground (arith, find_record-branch b ss t)

pub All-find_state {ℓ} :
    (Q : PuzzleState → Type ℓ) (b : String) (ss : List PuzzleState) (t : PuzzleState)
    → All Q ss
    → find_state b ss ≡ some t
    → Q t
unfolding find_state
All-find_state Q b [] t a h = absurd (ground arith)
All-find_state Q b (s ∷ ss) t a h = elim (string_dec s.branch_id b) [
  | yes same ↦ subst Q (ground arith) a.0
  | no differ ↦ All-find_state Q b ss t a.1 (ground arith)
]

pub All-replace_states {ℓ} :
    (Q : PuzzleState → Type ℓ) (t : PuzzleState) (ss : List PuzzleState)
    → All Q ss
    → Q t
    → All Q (replace_states t ss)
unfolding replace_states
All-replace_states Q t [] a q = tt
All-replace_states Q t (s ∷ ss) a q = elim (string_dec s.branch_id t.branch_id) [
  | yes same ↦ (rw (if_pos _ same) q, All-replace_states Q t ss a.1 q)
  | no differ ↦ (rw (if_neg _ differ) a.0, All-replace_states Q t ss a.1 q)
]

pub All-snoc {ℓ κ} :
    {A : Type ℓ} (Q : A → Type κ) (xs : List A) (x : A) → All Q xs → Q x → All Q (xs ++ x ∷ [])
All-snoc Q [] x a q = (q, tt)
All-snoc Q (y ∷ ys) x a q = (a.0, All-snoc Q ys x a.1 q)

pub or_stop-eq-ok {ℓ} : {A : Type ℓ} (o : Option A) {a : A} → or_stop o ≡ ok a → o ≡ some a
or_stop-eq-ok none h = cc
or_stop-eq-ok (some b) h = cc

pub find_record-contains :
    (b : String) (rs : List BranchRecord) (r : BranchRecord)
    → find_record b rs ≡ some r
    → contains (record_ids rs) b ≡ true
unfolding find_record contains
find_record-contains b [] r h = cc
find_record-contains b (x ∷ rs) r h = ground (arith, find_record-contains b rs r)

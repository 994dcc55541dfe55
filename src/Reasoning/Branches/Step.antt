-- ===== src/Reasoning/Branches/Step.antt =====
-- src/deductra/reasoning/branches.py: the events as a step relation between projections, one
-- constructor for each kind, and the reduction read as a step.
use deductra.Common.{
  ◌<◌, String, ◌≡◌, refl, ap, ◌↔◌, inl, inr, Bool, true, false, none, some, [], ◌∷◌, ◌++◌, arith,
  Option-cases, string_eq, pair_eq, nat_eq, bool_eq, contains, ok, raise_if-eq-ok, >>=-eq-ok,
  Result-cases,
}
use deductra.Canonical.{Platform}
use deductra.Reasoning.Events.{
  BranchOpened, BranchClosed, Payload, candidates_eliminated, value_assigned, branch_opened,
  contradiction_detected, branch_closed, EventEnvelope,
}
use deductra.Reasoning.Integrity.{verify_event}
use deductra.Reasoning.State.{PuzzleState}
use deductra.Reasoning.Reducer.{
  Mutation, eliminated, assigned, contradiction, as_mutation, reduce_state, derive_branch_state,
}
use deductra.Reasoning.Branches.{
  opened, ended, by, BranchRecord, BranchProjection, is_search, search_origin, is_open,
  is_contradicted, is_solved, ended_contradicted, record_ids, find_state, find_record, state_for,
  record_for, validate_projection, make_record, make_projection,
}
use deductra.Reasoning.Branches.Reduction.{
  replace_records, replace_states, check_origin, mutation_status, close_records, open_branch,
  close_branch, mutate_branch, dispatch, opens, reduce_branch_projection,
}
use deductra.Reasoning.Branches.History.{make_projection-eq-ok, make_record-eq-ok, or_stop-eq-ok}

-- The event neither opens a branch, closes one, nor changes a state.
abbrev pub is_note : Payload → Bool
is_note (branch_opened payload) = false
is_note (branch_closed payload) = false
is_note (candidates_eliminated payload) = false
is_note (value_assigned payload) = false
is_note (contradiction_detected payload) = false
is_note _ = true

-- The mutation is of the origin search exactly on a search branch.
abbrev pub IsDisclosed : BranchRecord → Mutation → Type 0
IsDisclosed r (eliminated x) = search_origin x.origin ≡ is_search r.method
IsDisclosed r (assigned x) = search_origin x.origin ≡ is_search r.method
IsDisclosed r (contradiction x) = Unit

-- The record of a branch that has just been opened.
abbrev pub opened_record : PuzzleState → PuzzleState → EventEnvelope → BranchOpened → BranchRecord
opened_record parent child e payload = record {
  branch_id = e.branch_id;
  parent_branch_id = some parent.branch_id;
  opened_from_state_hash = parent.state_hash;
  assumption = some payload.assumption;
  method = by payload.method;
  status = opened;
  opened_sequence_no = e.sequence_no;
  closed_sequence_no = none;
  latest_state_hash = child.state_hash;
}

check_origin-IsDisclosed :
    (r : BranchRecord) (m : Mutation) → (check_origin r m ≡ ok tt) ↔ IsDisclosed r m
check_origin-IsDisclosed r (eliminated x) = ground arith
check_origin-IsDisclosed r (assigned x) = ground arith
check_origin-IsDisclosed r (contradiction x) = (λ h. tt, λ h. refl)

module _ (P : Platform) (p : BranchProjection) (e : EventEnvelope) (q : BranchProjection) where
  -- A new branch opens from the active, open one.
  pub record Opening (payload : BranchOpened) : Type 0 where
    pub kind : e.payload ≡ branch_opened payload
    pub new : contains (record_ids p.branches) e.branch_id ≡ false
    pub from_active : payload.parent_branch_id ≡ p.active_branch_id
    pub origin : BranchRecord
    pub origin_found : find_record p.active_branch_id p.branches ≡ some origin
    pub origin_open : is_open origin.status ≡ true
    pub parent : PuzzleState
    pub parent_found : find_state p.active_branch_id p.states ≡ some parent
    pub child : PuzzleState
    pub derived : derive_branch_state P parent e payload ≡ ok child
    pub active : q.active_branch_id ≡ e.branch_id
    pub branches : q.branches ≡ p.branches ++ opened_record parent child e payload ∷ []
    pub states : q.states ≡ p.states ++ child ∷ []
    pub number : q.sequence_no ≡ e.sequence_no
    pub checked : validate_projection q ≡ ok tt

  -- The active branch closes, and its parent becomes active.
  pub record Closing (payload : BranchClosed) : Type 0 where
    pub kind : e.payload ≡ branch_closed payload
    pub of_active : e.branch_id ≡ p.active_branch_id
    pub closing : BranchRecord
    pub closing_found : find_record e.branch_id p.branches ≡ some closing
    pub parent : String
    pub has_parent : closing.parent_branch_id ≡ some parent
    pub state : PuzzleState
    pub state_found : find_state e.branch_id p.states ≡ some state
    pub source : payload.source_state_hash ≡ state.state_hash
    pub contradiction_first :
        is_contradicted payload.status ≡ true → ended_contradicted closing.status ≡ true
    pub solved_first : is_solved payload.status ≡ true → state.solved ≡ true
    pub active : q.active_branch_id ≡ parent
    pub branches :
        q.branches ≡ close_records closing.branch_id (ended payload.status) e.sequence_no p.branches
    pub states : q.states ≡ p.states
    pub number : q.sequence_no ≡ e.sequence_no
    pub checked : validate_projection q ≡ ok tt

  -- The active, open branch is mutated.
  pub record Mutating (m : Mutation) : Type 0 where
    pub kind : as_mutation e.payload ≡ some m
    pub of_active : e.branch_id ≡ p.active_branch_id
    pub target : BranchRecord
    pub target_found : find_record e.branch_id p.branches ≡ some target
    pub target_open : is_open target.status ≡ true
    pub disclosed : IsDisclosed target m
    pub before : PuzzleState
    pub before_found : find_state e.branch_id p.states ≡ some before
    pub after : PuzzleState
    pub reduced : reduce_state P before e ≡ ok after
    pub active : q.active_branch_id ≡ p.active_branch_id
    pub branches : q.branches ≡ replace_records after (mutation_status m) p.branches
    pub states : q.states ≡ replace_states after p.states
    pub number : q.sequence_no ≡ e.sequence_no
    pub checked : validate_projection q ≡ ok tt

  -- Any other event is of a retained branch, and only advances the number.
  pub record Noting : Type 0 where
    pub kind : is_note e.payload ≡ true
    pub known : contains (record_ids p.branches) e.branch_id ≡ true
    pub active : q.active_branch_id ≡ p.active_branch_id
    pub branches : q.branches ≡ p.branches
    pub states : q.states ≡ p.states
    pub number : q.sequence_no ≡ e.sequence_no

  pub data Step : Type 0 where
    opening : (payload : BranchOpened) → Opening payload → Step
    closing : (payload : BranchClosed) → Closing payload → Step
    mutating : (m : Mutation) → Mutating m → Step
    noting : Noting → Step

  open_branch-Opening :
      (payload : BranchOpened)
      → e.payload ≡ branch_opened payload
      → open_branch P p e payload ≡ ok q
      → Opening payload
  unfolding open_branch
  open_branch-Opening payload kind h =
      let (new, h1) = raise_if-eq-ok _ _ _ h in
      let (from_active, h2) = raise_if-eq-ok _ _ _ h1 in
      let (origin, o, h3) = >>=-eq-ok (record_for p p.active_branch_id) _ h2 in
      let (origin_open, h4) = raise_if-eq-ok _ _ _ h3 in
      let (parent, f, h5) = >>=-eq-ok (state_for p p.active_branch_id) _ h4 in
      let (child, derived, h6) = >>=-eq-ok (derive_branch_state P parent e payload) _ h5 in
      let (added, made, h7) = >>=-eq-ok (make_record _) _ h6 in
      let (same, checked) = make_projection-eq-ok _ q h7 in
      let record_same : added ≡ opened_record parent child e payload =
        make_record-eq-ok _ added made in
      record {
        kind = kind;
        new = new;
        from_active = ground arith;
        origin = origin;
        origin_found = or_stop-eq-ok _ o;
        origin_open = ground arith;
        parent = parent;
        parent_found = or_stop-eq-ok _ f;
        child = child;
        derived = derived;
        active = ground arith;
        branches = ground arith;
        states = ground arith;
        number = ground arith;
        checked = rw same checked;
      }

  close_branch-Closing :
      (payload : BranchClosed)
      → e.payload ≡ branch_closed payload
      → close_branch P p e payload ≡ ok q
      → Closing payload
  unfolding close_branch make_projection
  close_branch-Closing payload kind h = elim (Option-cases (find_record e.branch_id p.branches)) [
    | inl missing ↦ absurd (ground arith)
    | inr (r, r_found) ↦ elim (Option-cases (find_state e.branch_id p.states)) [
      | inl missing ↦ absurd (ground arith)
      | inr (state, state_found) ↦ elim (Option-cases r.parent_branch_id) [
        | inl root_branch ↦ absurd (ground arith)
        | inr (parent, has_parent) ↦ record {
          kind = kind;
          of_active = ground arith;
          closing = r;
          closing_found = r_found;
          parent = parent;
          has_parent = has_parent;
          state = state;
          state_found = state_found;
          source = ground arith;
          contradiction_first = λ x. ground arith;
          solved_first = λ x. ground arith;
          active = ground arith;
          branches = ground arith;
          states = ground arith;
          number = ground arith;
          checked = ground arith;
        }
      ]
    ]
  ]

  mutate_branch-Mutating :
      (m : Mutation) → as_mutation e.payload ≡ some m → mutate_branch P p e m ≡ ok q → Mutating m
  unfolding mutate_branch
  mutate_branch-Mutating m kind h = elim (Option-cases (find_record e.branch_id p.branches)) [
    | inl missing ↦ absurd (ground arith)
    | inr (target, target_found) ↦ elim (Option-cases (find_state e.branch_id p.states)) [
      | inl missing ↦ absurd (ground arith)
      | inr (before, before_found) ↦ elim (Result-cases (reduce_state P before e)) [
        | inr (x, failed) ↦ absurd (ground arith)
        | inl (after, reduced) ↦
            let next : BranchProjection = record {
              sequence_no = e.sequence_no;
              active_branch_id = p.active_branch_id;
              branches = replace_records after (mutation_status m) p.branches;
              states = replace_states after p.states;
            } in
            let made : make_projection next ≡ ok q = ground arith in
            let (same, checked) = make_projection-eq-ok next q made in
            record {
              kind = kind;
              of_active = ground arith;
              target = target;
              target_found = target_found;
              target_open = ground arith;
              disclosed = (check_origin-IsDisclosed target m).0 (ground arith);
              before = before;
              before_found = before_found;
              after = after;
              reduced = reduced;
              active = ap (λ (x : BranchProjection). x.active_branch_id) same;
              branches = ap (λ (x : BranchProjection). x.branches) same;
              states = ap (λ (x : BranchProjection). x.states) same;
              number = ap (λ (x : BranchProjection). x.sequence_no) same;
              checked = rw same checked;
            }
      ]
    ]
  ]

  dispatch-Step :
      (payload : Payload)
      → e.payload ≡ payload
      → (opens P payload ≡ false → contains (record_ids p.branches) e.branch_id ≡ true)
      → dispatch P p e payload ≡ ok q
      → Step
  unfolding dispatch
  dispatch-Step (branch_opened payload) kind known h =
      opening payload (open_branch-Opening payload kind h)
  dispatch-Step (branch_closed payload) kind known h =
      closing payload (close_branch-Closing payload kind h)
  dispatch-Step (candidates_eliminated x) kind known h =
      mutating (eliminated x) (mutate_branch-Mutating (eliminated x) (ap as_mutation kind) h)
  dispatch-Step (value_assigned x) kind known h =
      mutating (assigned x) (mutate_branch-Mutating (assigned x) (ap as_mutation kind) h)
  dispatch-Step (contradiction_detected x) kind known h =
      mutating (contradiction x) (mutate_branch-Mutating (contradiction x) (ap as_mutation kind) h)
  dispatch-Step _ kind known h = noting (record {
    kind = ap is_note kind;
    known = known refl;
    active = ground arith;
    branches = ground arith;
    states = ground arith;
    number = ground arith;
  })

  -- The event is intact, later than the projection, of the active state's revision, and a step.
  pub record IsAccepted : Type 0 where
    pub step : Step
    pub later : p.sequence_no < e.sequence_no
    pub intact : verify_event P e ≡ true
    pub current : PuzzleState
    pub current_found : find_state p.active_branch_id p.states ≡ some current
    pub revision : e.puzzle_revision_id ≡ current.puzzle_revision_id

  pub accepted_of : reduce_branch_projection P p e ≡ ok q → IsAccepted
  unfolding reduce_branch_projection
  accepted_of h = elim (Option-cases (find_state p.active_branch_id p.states)) [
    | inl missing ↦ absurd (ground arith)
    | inr (current, found) ↦ record {
      step = dispatch-Step e.payload refl (λ o. ground arith) (ground arith);
      later = ground arith;
      intact = ground arith;
      current = current;
      current_found = found;
      revision = ground arith;
    }
  ]

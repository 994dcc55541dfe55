-- ===== src/Verification/Contracts.antt =====
-- src/deductra/verification/contracts.py: obligations, certificates and decisions.
use deductra.Common.{
  ℕ, String, ◌<>◌, Bool, true, false, not, ◌&&◌, ◌||◌, Option, none, some, List, [], ◌∷◌, map, eqb,
  Eq, ◌==◌, string_dec, string_eq, pair_eq, nat_eq, bool_eq, length, any, subset, same_set, unique,
  value_error, Result, err, ok, raise_if, ◌>>◌,
}
use deductra.Canonical.{
  Json, null, text, Platform, array_of, object_of, texts, number, optional, canonical_json,
  canonical_sha256,
}
use deductra.Domain.Atoms.{Atom, assignment, exclusion, atom_eq, dump_atom}

pub data VerificationStatus : Type 0 where
  not_checked structurally_valid backend_verified cross_verified : VerificationStatus
  rejected inconclusive quarantined : VerificationStatus

pub data NegatedClaim : Type 0 where
  -- the variable and the value
  assignment_negation : String → String → NegatedClaim
  elimination_negation : String → String → NegatedClaim

NegatedClaim-discrete : Discrete NegatedClaim
NegatedClaim-discrete = hlevel string_dec

unfoldable pub claim_dec : Discrete NegatedClaim
unfolding NegatedClaim-discrete
claim_dec = NegatedClaim-discrete

instance abbrev pub claim_eq : Eq NegatedClaim
claim_eq = record { dec = claim_dec }

-- `expected_result` is always "unsat", so it is no field.
pub record ProofObligation : Type 0 where
  pub obligation_id : String
  pub puzzle_revision_id : String
  pub source_state_hash : String
  pub assumptions : List Atom
  pub claimed_conclusions : List Atom
  pub negated_claim : NegatedClaim
  pub encoding_version : String

-- The negation that `validate_claim_contract` expects.
unfoldable pub negation_of : Atom → Option NegatedClaim
negation_of (assignment v x) = some (assignment_negation v x)
negation_of (exclusion v x) = some (elimination_negation v x)
negation_of _ = none

-- `BackendResult`
pub data Verdict : Type 0 where
  sat unsat unknown invalid : Verdict

Verdict-discrete : Discrete Verdict
Verdict-discrete = hlevel

unfoldable pub verdict_dec : Discrete Verdict
unfolding Verdict-discrete
verdict_dec = Verdict-discrete

instance abbrev pub verdict_eq : Eq Verdict
verdict_eq = record { dec = verdict_dec }

pub record VerificationCertificate : Type 0 where
  pub certificate_id : String
  pub backend_id : String
  pub backend_version : String
  pub encoding_version : String
  pub obligation_id : String
  pub outcome : Verdict
  pub duration_ms : ℕ
  pub unsat_core_refs : List String
  pub model_snapshot : Option Json
  pub raw_artifact_hash : Option String
  pub certificate_hash : String

pub record VerificationDecision : Type 0 where
  pub obligation_id : String
  pub status : VerificationStatus
  pub certificates : List VerificationCertificate
  pub reason : String

pub write_verdict : Verdict → String
write_verdict sat = "sat"
write_verdict unsat = "unsat"
write_verdict unknown = "unknown"
write_verdict invalid = "invalid"

dump_claim : NegatedClaim → Json
dump_claim (assignment_negation v x) =
    object_of
      (("kind", text "assignment_negation") ∷ ("variable_id", text v) ∷ ("value_id", text x) ∷ [])
dump_claim (elimination_negation v x) =
    object_of
      (("kind", text "elimination_negation") ∷ ("variable_id", text v) ∷ ("value_id", text x) ∷ [])

unfoldable pub dump_obligation : ProofObligation → Json
unfolding dump_atom dump_claim
dump_obligation o = object_of (
    ("obligation_id", text o.obligation_id)
    ∷ ("puzzle_revision_id", text o.puzzle_revision_id)
    ∷ ("source_state_hash", text o.source_state_hash)
    ∷ ("assumptions", array_of (map dump_atom o.assumptions))
    ∷ ("claimed_conclusions", array_of (map dump_atom o.claimed_conclusions))
    ∷ ("negated_claim", dump_claim o.negated_claim)
    ∷ ("expected_result", text "unsat")
    ∷ ("encoding_version", text o.encoding_version)
    ∷ [])

json_or_null : Option Json → Json
json_or_null none = null
json_or_null (some j) = j

-- `certificate.model_dump(mode="json", exclude={"certificate_hash"})`
unfoldable pub dump_certificate : VerificationCertificate → Json
unfolding write_verdict json_or_null
dump_certificate c = object_of (
    ("certificate_id", text c.certificate_id)
    ∷ ("backend_id", text c.backend_id)
    ∷ ("backend_version", text c.backend_version)
    ∷ ("encoding_version", text c.encoding_version)
    ∷ ("obligation_id", text c.obligation_id)
    ∷ ("result", text (write_verdict c.outcome))
    ∷ ("duration_ms", number c.duration_ms)
    ∷ ("unsat_core_refs", texts c.unsat_core_refs)
    ∷ ("model_snapshot", json_or_null c.model_snapshot)
    ∷ ("raw_artifact_hash", optional c.raw_artifact_hash)
    ∷ [])

abbrev pub snapshot_given : Option Json → Bool
snapshot_given (some j) = true
snapshot_given none = false

abbrev pub verdicts : List VerificationCertificate → List Verdict
verdicts = map (λ c. c.outcome)

abbrev pub backend_ids : List VerificationCertificate → List String
backend_ids = map (λ c. c.backend_id)

-- `status in {BACKEND_VERIFIED, CROSS_VERIFIED}`
unfoldable pub verified : VerificationStatus → Bool
verified backend_verified = true
verified cross_verified = true
verified _ = false

abbrev pub is_quarantined : VerificationStatus → Bool
is_quarantined quarantined = true
is_quarantined _ = false

-- `VerificationDecision.accepted`
unfoldable pub accepted : VerificationDecision → Bool
unfolding verified
accepted d = verified d.status

-- `VerificationDecision.validate_decision`
unfoldable pub validate_decision : VerificationDecision → Result (Unit {0})
validate_decision d = do
  raise_if (any (λ c. not (c.obligation_id == d.obligation_id)) d.certificates)
      (value_error "all certificates must reference the decision obligation")
  raise_if (not (unique (backend_ids d.certificates)))
      (value_error "a decision cannot contain duplicate backend certificates")
  let found = verdicts d.certificates
  raise_if
      (verified d.status && (eqb (length d.certificates) 0 || not (same_set found (unsat ∷ []))))
      (value_error "verified decisions require only unsat certificates")
  raise_if (is_quarantined d.status && not (subset (sat ∷ unsat ∷ []) found))
      (value_error "quarantine requires conflicting sat and unsat certificates")

-- `VerificationDecision(…)`
unfoldable pub make_decision : VerificationDecision → Result VerificationDecision
unfolding validate_decision
make_decision d = do validate_decision d; ok d

-- `VerificationRecord`
pub record VerificationRecord : Type 0 where
  pub obligation : ProofObligation
  pub decision : VerificationDecision

-- `VerificationRecord.match_identity`
unfoldable pub match_identity : VerificationRecord → Result (Unit {0})
match_identity r =
    raise_if (not (r.obligation.obligation_id == r.decision.obligation_id))
      (value_error "verification record identities must match")

module _ (P : Platform) where
  -- The test of the one conclusion in `validate_claim_contract`.
  claim_matches : List Atom → NegatedClaim → Result (Unit {0})
  claim_matches [] claim =
      err (value_error "CR-004 proof obligations require exactly one conclusion")
  claim_matches (c ∷ cs) claim = elim (negation_of c) [
    | some expected ↦
        raise_if (not (claim == expected))
          (value_error "negated_claim must be the logical negation of the conclusion")
    | none ↦ err (value_error "CR-004 supports assignment and elimination conclusions only")
  ]

  -- `ProofObligation.validate_claim_contract`
  unfoldable pub validate_claim_contract : ProofObligation → Result (Unit {0})
  unfolding claim_matches
  validate_claim_contract o = do
    raise_if (not (eqb (length o.claimed_conclusions) 1))
        (value_error "CR-004 proof obligations require exactly one conclusion")
    raise_if (not (unique (map (λ a. canonical_json P (dump_atom a)) o.assumptions)))
        (value_error "proof assumptions must be unique")
    claim_matches o.claimed_conclusions o.negated_claim

  unfoldable pub make_obligation : ProofObligation → Result ProofObligation
  unfolding validate_claim_contract
  make_obligation o = do validate_claim_contract o; ok o

  unfoldable pub compute_obligation_hash : ProofObligation → String
  compute_obligation_hash o = canonical_sha256 P (dump_obligation o)

  unfoldable pub compute_certificate_hash : VerificationCertificate → String
  compute_certificate_hash c = canonical_sha256 P (dump_certificate c)

  -- `VerificationCertificate.validate_evidence_shape`
  unfoldable pub validate_evidence_shape : VerificationCertificate → Result (Unit {0})
  validate_evidence_shape c = do
    raise_if (not (eqb (length c.unsat_core_refs) 0) && not (c.outcome == unsat))
        (value_error "unsat cores are valid only for unsat certificates")
    raise_if (snapshot_given c.model_snapshot && not (c.outcome == sat))
        (value_error "model snapshots are valid only for sat certificates")
    raise_if (not (c.certificate_hash == compute_certificate_hash c))
        (value_error "certificate_hash does not match canonical certificate contents")

  -- `build_certificate` of a certificate whose identifier and digest are not set yet
  unfoldable pub build_certificate : VerificationCertificate → Result VerificationCertificate
  build_certificate given = do
    let identity = canonical_sha256 P (
        object_of (
          ("backend_id", text given.backend_id)
          ∷ ("encoding_version", text given.encoding_version)
          ∷ ("obligation_id", text given.obligation_id)
          ∷ ("raw_artifact_hash", optional given.raw_artifact_hash)
          ∷ ("result", text (write_verdict given.outcome))
          ∷ []))
    let unsigned = record given { certificate_id = "deductra:certificate:" <> identity }
    let certificate = record unsigned { certificate_hash = compute_certificate_hash unsigned }
    validate_evidence_shape certificate
    ok certificate

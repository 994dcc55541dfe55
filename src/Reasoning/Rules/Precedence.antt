-- ===== src/Reasoning/Rules/Precedence.antt =====
-- Which of two candidates comes first, apart from how the code compares their keys.
use deductra.Common.{
  ℕ, ◌<◌, String, ◌≡◌, ap, ◌↔◌, ◌⊎◌, inl, inr, false, List, [], ◌∷◌, arith, Bool-cases, text_le,
}
use deductra.Common.Int.{pos}
use deductra.Reasoning.Rules.{
  RuleApplicationCandidate, KeyPart, amount, word, part_le, key_le, stable_tail,
}
use deductra.Reasoning.Rules.Keys.{part_le_refl, part_le_antisymm}

-- `s < t`
abbrev pub Before : String → String → Type 0
Before s t = text_le t s ≡ false

-- The candidate of the lower technique rank comes first; of equal ranks the first rule identifier
-- decides, then the rule version, then the text of the conclusion, then the candidate identifier.
abbrev pub Precedes : RuleApplicationCandidate → RuleApplicationCandidate → Type 0
Precedes c d =
    (c.rule.technique_rank < d.rule.technique_rank)
    ⊎ ((c.rule.technique_rank ≡ d.rule.technique_rank)
        × (Before c.rule.rule_id d.rule.rule_id
            ⊎ ((c.rule.rule_id ≡ d.rule.rule_id)
                × (Before c.rule.rule_version d.rule.rule_version
                    ⊎ ((c.rule.rule_version ≡ d.rule.rule_version)
                        × (Before c.tie_break_key d.tie_break_key
                            ⊎ ((c.tie_break_key ≡ d.tie_break_key)
                                × Before c.candidate_id d.candidate_id)))))))

-- A first key that is smaller, or the same first key and smaller keys behind it.
pub key_le-cons :
    {A : Type 0} (part : A → KeyPart) (P : Type 0) (Q : Type 0) (x y : A) (js ks : List KeyPart)
    → (part x ≡ part y → x ≡ y)
    → ((part_le (part y) (part x) ≡ false) ↔ P)
    → ((key_le ks js ≡ false) ↔ Q)
    → (key_le (part y ∷ ks) (part x ∷ js) ≡ false) ↔ (P ⊎ ((x ≡ y) × Q))
unfolding key_le
key_le-cons part P Q x y js ks same first rest = elim (Bool-cases (part_le (part y) (part x))) [
  | inr smaller ↦ (λ h. inl (first.0 smaller), λ h. ground arith)
  | inl at_least ↦ elim (Bool-cases (part_le (part x) (part y))) [
    | inl at_most ↦
        let equal = same (part_le_antisymm (part x) (part y) at_most at_least) in
        (
          λ h. inr (equal, rest.0 (ground arith)),
          λ h. elim h [
            | inl less ↦ absurd (ground (arith, first.1 less))
            | inr (e, q) ↦ ground (arith, rest.1 q)
          ],
        )
    | inr larger ↦ (
      λ h. absurd (ground arith),
      λ h. elim h [
        | inl less ↦ absurd (ground (arith, first.1 less))
        | inr (e, q) ↦
            absurd (ground (arith, part_le_refl (part x), ap (λ z. part_le (part x) (part z)) e))
      ],
    )
  ]
]

key_le-word :
    (P : Type 0) (x y : String) (js ks : List KeyPart)
    → ((key_le ks js ≡ false) ↔ P)
    → (key_le (word y ∷ ks) (word x ∷ js) ≡ false) ↔ (Before x y ⊎ ((x ≡ y) × P))
key_le-word P x y js ks rest =
    key_le-cons word (Before x y) P x y js ks (λ h. cc) (λ h. h, λ h. h) rest

pub key_le-amount :
    (P : Type 0) (m n : ℕ) (js ks : List KeyPart)
    → ((key_le ks js ≡ false) ↔ P)
    → (key_le (amount (pos n) ∷ ks) (amount (pos m) ∷ js) ≡ false) ↔ ((m < n) ⊎ ((m ≡ n) × P))
key_le-amount P m n js ks rest =
    key_le-cons (λ k. amount (pos k)) (m < n) P m n js ks (λ h. cc) (ground arith) rest

key_le-last : (x y : String) → (key_le (word y ∷ []) (word x ∷ []) ≡ false) ↔ Before x y
unfolding key_le
key_le-last x y = ground arith

-- Comparing the keys of the final sort decides it.
pub stable_tail-Precedes :
    (c d : RuleApplicationCandidate)
    → (key_le (stable_tail d) (stable_tail c) ≡ false) ↔ Precedes c d
stable_tail-Precedes c d = key_le-amount _ c.rule.technique_rank d.rule.technique_rank _ _ (
    key_le-word _ c.rule.rule_id d.rule.rule_id _ _ (
      key_le-word _ c.rule.rule_version d.rule.rule_version _ _ (
        key_le-word _ c.tie_break_key d.tie_break_key _ _
          (key_le-last c.candidate_id d.candidate_id))))

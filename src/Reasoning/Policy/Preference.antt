-- ===== src/Reasoning/Policy/Preference.antt =====
-- src/deductra/reasoning/policy.py: what the policies prefer, apart from the scores that the code
-- compares.
use mathlib.Core.Path.{subst}
use deductra.Common.{
  ℕ, zero, suc, ◌<◌, ◌≡◌, refl, sym, ap, ◌∙◌, ◌↔◌, ◌⊎◌, inl, inr, true, false, none, some, List, [],
  ◌∷◌, ◌++◌, arith, if◌then◌else◌, Bool-cases, some_injective, string_eq, pair_eq, nat_eq, bool_eq,
  All, All-map, contains,
}
use deductra.Reasoning.Rules.{
  reference_eq, RuleApplicationCandidate, candidate_eq, KeyPart, amount, part_le, key_le,
}
use deductra.Reasoning.Rules.Keys.{key_le_trans}
use deductra.Reasoning.Rules.Precedence.{Precedes, key_le-cons, key_le-amount, stable_tail-Precedes}
use deductra.Reasoning.Policy.{
  ReasoningPolicy, teaching_first, shortest_trace, max_information_gain, family_canonical, negated,
  score, least, select_rule_application,
}
use deductra.Reasoning.Policy.Selection.{least-minimal}

-- Teaching prefers what costs less, the shortest trace what gains more and of equal gains what costs
-- less, the maximal gain what gains more; what is still equal is in the order of the final sort.
abbrev pub Prefers : ReasoningPolicy → RuleApplicationCandidate → RuleApplicationCandidate → Type 0
Prefers teaching_first c d =
    (c.pedagogical_cost < d.pedagogical_cost)
    ⊎ ((c.pedagogical_cost ≡ d.pedagogical_cost) × Precedes c d)
Prefers shortest_trace c d =
    (d.information_gain < c.information_gain)
    ⊎ ((c.information_gain ≡ d.information_gain)
        × ((c.pedagogical_cost < d.pedagogical_cost)
            ⊎ ((c.pedagogical_cost ≡ d.pedagogical_cost) × Precedes c d)))
Prefers max_information_gain c d =
    (d.information_gain < c.information_gain)
    ⊎ ((c.information_gain ≡ d.information_gain) × Precedes c d)
Prefers family_canonical c d = Precedes c d

-- The candidate is preferred to all before it, and none behind it is preferred to it.
pub record IsFirst (policy : ReasoningPolicy) (cs : List RuleApplicationCandidate)
    (chosen : RuleApplicationCandidate) : Type 0 where
  pub earlier : List RuleApplicationCandidate
  pub later : List RuleApplicationCandidate
  pub split : cs ≡ earlier ++ chosen ∷ later
  pub beats : All (λ c. Prefers policy chosen c) earlier
  pub unbeaten : All (λ c. ¬ Prefers policy c chosen) later

negated-strict : (m n : ℕ) → (part_le (amount (negated n)) (amount (negated m)) ≡ false) ↔ (n < m)
negated-strict zero zero = ground arith
negated-strict zero (suc n) = ground arith
negated-strict (suc m) zero = ground arith
negated-strict (suc m) (suc n) = ground arith

negated-injective : (m n : ℕ) → amount (negated m) ≡ amount (negated n) → m ≡ n
negated-injective zero zero h = refl
negated-injective zero (suc n) h = cc
negated-injective (suc m) zero h = cc
negated-injective (suc m) (suc n) h = cc

key_le-gain :
    (P : Type 0) (m n : ℕ) (js ks : List KeyPart)
    → ((key_le ks js ≡ false) ↔ P)
    → (key_le (amount (negated n) ∷ ks) (amount (negated m) ∷ js) ≡ false)
      ↔ ((n < m) ⊎ ((m ≡ n) × P))
key_le-gain P m n js ks rest =
    key_le-cons (λ k. amount (negated k)) (n < m) P m n js ks (negated-injective m n)
      (negated-strict m n) rest

-- Comparing the scores decides the preference.
score-Prefers :
    (policy : ReasoningPolicy) (c d : RuleApplicationCandidate)
    → (key_le (score policy d) (score policy c) ≡ false) ↔ Prefers policy c d
unfolding score
score-Prefers teaching_first c d =
    key_le-amount _ c.pedagogical_cost d.pedagogical_cost _ _ (stable_tail-Precedes c d)
score-Prefers shortest_trace c d =
    key_le-gain _ c.information_gain d.information_gain _ _
      (key_le-amount _ c.pedagogical_cost d.pedagogical_cost _ _ (stable_tail-Precedes c d))
score-Prefers max_information_gain c d =
    key_le-gain _ c.information_gain d.information_gain _ _ (stable_tail-Precedes c d)
score-Prefers family_canonical c d = stable_tail-Precedes c d

module _ (policy : ReasoningPolicy) where
  Splits : List RuleApplicationCandidate → RuleApplicationCandidate → Type 0
  Splits cs chosen =
      (earlier : List RuleApplicationCandidate) × (later : List RuleApplicationCandidate) × (cs
        ≡ earlier ++ chosen ∷ later)
      × All (λ c. key_le (score policy c) (score policy chosen) ≡ false) earlier
      × All (λ c. key_le (score policy chosen) (score policy c) ≡ true) later

  -- The least so far stays before a candidate that is not smaller.
  keeps_best :
      (best d : RuleApplicationCandidate) (cs : List RuleApplicationCandidate)
      (chosen : RuleApplicationCandidate)
      → key_le (score policy best) (score policy d) ≡ true
      → Splits (best ∷ cs) chosen
      → Splits (best ∷ d ∷ cs) chosen
  unfolding Splits
  keeps_best best d cs chosen stays ([], later, split, beats, unbeaten) =
      let same : best ≡ chosen = cc in
      let rest : cs ≡ later = cc in
      (
        [],
        d ∷ later,
        cc,
        tt,
        (ap (λ b. key_le (score policy b) (score policy d)) (sym same) ∙ stays, unbeaten),
      )
  keeps_best best d cs chosen stays (b ∷ earlier, later, split, beats, unbeaten) =
      let same : best ≡ b = cc in
      let rest : cs ≡ earlier ++ chosen ∷ later = cc in
      let above = beats.0 in
      let below = key_le_trans (score policy best) (score policy d) (score policy chosen) in
      (
        b ∷ d ∷ earlier,
        later,
        cc (same, rest),
        (above, (ground (arith, same, below), beats.1)),
        unbeaten,
      )

  least-Splits :
      (best : RuleApplicationCandidate) (cs : List RuleApplicationCandidate)
      → Splits (best ∷ cs) (least policy best cs)
  unfolding least Splits contains
  least-Splits best [] = ([], [], refl, tt, tt)
  least-Splits best (d ∷ cs) = elim (Bool-cases (key_le (score policy best) (score policy d))) [
    | inl stays ↦
        let same : least policy best (d ∷ cs) ≡ least policy best cs =
          ap (λ b. least policy (if b then best else d) cs) stays in
        subst (Splits (best ∷ d ∷ cs)) (sym same)
          (keeps_best best d cs (least policy best cs) stays (least-Splits best cs))
    | inr moves ↦
        let same : least policy best (d ∷ cs) ≡ least policy d cs =
          ap (λ b. least policy (if b then best else d) cs) moves in
        let (earlier, later, split, beats, unbeaten) = least-Splits d cs in
        let chosen = least policy d cs in
        let least_of : key_le (score policy chosen) (score policy d) ≡ true =
          least-minimal policy d cs d (ground arith) in
        let trans = key_le_trans (score policy best) (score policy chosen) (score policy d) in
        subst (Splits (best ∷ d ∷ cs)) (sym same) (
          best ∷ earlier,
          later,
          ap (λ xs. best ∷ xs) split,
          (ground (arith, trans), beats),
          unbeaten,
        )
  ]

  unbeaten_of :
      (chosen : RuleApplicationCandidate) (later : List RuleApplicationCandidate)
      → All (λ c. key_le (score policy chosen) (score policy c) ≡ true) later
      → All (λ c. ¬ Prefers policy c chosen) later
  unbeaten_of chosen later =
      All-map (λ c h better. absurd (ground (arith, h, (score-Prefers policy c chosen).1 better)))
        later

  -- Nothing is selected exactly when there is no candidate. What is selected is preferred by the
  -- policy to every candidate before it, and no candidate behind it is preferred to it.
  pub select_rule_application-IsFirst :
      (cs : List RuleApplicationCandidate)
      → ((select_rule_application cs policy ≡ none) ↔ (cs ≡ []))
        × ((chosen : RuleApplicationCandidate)
            → select_rule_application cs policy ≡ some chosen
            → IsFirst policy cs chosen)
  unfolding select_rule_application Splits
  select_rule_application-IsFirst [] = ((λ h. refl, λ h. refl), λ chosen h. cc)
  select_rule_application-IsFirst (b ∷ cs) = (
    (λ h. cc, λ h. cc),
    λ chosen h.
        let (earlier, later, split, beats, unbeaten) = least-Splits b cs in
        subst (IsFirst policy (b ∷ cs)) (some_injective h) (record {
          earlier = earlier;
          later = later;
          split = split;
          beats = All-map (λ c. (score-Prefers policy (least policy b cs) c).0) earlier beats;
          unbeaten = unbeaten_of (least policy b cs) later unbeaten;
        }),
  )

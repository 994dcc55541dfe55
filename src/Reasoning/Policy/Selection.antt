-- ===== src/Reasoning/Policy/Selection.antt =====
-- The selected candidate is the least one, whatever the order of the candidates.
use deductra.Common.{
  ◌≡◌, refl, sym, ap, ◌∙◌, ◌↔◌, inl, inr, Bool, true, none, some, List, [], ◌∷◌, arith, Bool-cases,
  Option-cases, some_injective, string_eq, pair_eq, nat_eq, bool_eq, contains, Has,
}
use deductra.Reasoning.Rules.{reference_eq, RuleApplicationCandidate, candidate_eq, key_le}
use deductra.Reasoning.Rules.Keys.{key_le_refl, key_le_total, key_le_trans, key_le_antisymm}
use deductra.Reasoning.Policy.{
  ReasoningPolicy, teaching_first, shortest_trace, max_information_gain, family_canonical, score,
  least, select_rule_application,
}

abbrev better : ReasoningPolicy → RuleApplicationCandidate → RuleApplicationCandidate → Bool
better policy c d = key_le (score policy c) (score policy d)

score-candidate_id :
    (policy : ReasoningPolicy) (c d : RuleApplicationCandidate)
    → score policy c ≡ score policy d
    → c.candidate_id ≡ d.candidate_id
unfolding score
score-candidate_id teaching_first c d h = cc
score-candidate_id shortest_trace c d h = cc
score-candidate_id max_information_gain c d h = cc
score-candidate_id family_canonical c d h = cc

module _ (policy : ReasoningPolicy) where
  Has-least :
      (best : RuleApplicationCandidate) (cs : List RuleApplicationCandidate)
      → Has (best ∷ cs) (least policy best cs)
  unfolding least contains
  Has-least best [] = ground arith
  Has-least best (c ∷ cs) = ground (arith, Has-least best cs, Has-least c cs)

  pub least-minimal :
      (best : RuleApplicationCandidate) (cs : List RuleApplicationCandidate)
      → (c : RuleApplicationCandidate) → Has (best ∷ cs) c
      → better policy (least policy best cs) c ≡ true
  unfolding least contains
  least-minimal best [] c h = ground (arith, key_le_refl (score policy c))
  least-minimal best (d ∷ cs) c h = elim (Bool-cases (better policy best d)) [
    | inl stays ↦
        let below =
          key_le_trans (score policy (least policy best cs)) (score policy best) (score policy d) in
        ground (arith, least-minimal best cs c, least-minimal best cs best, below)
    | inr moves ↦
        let below =
          key_le_trans (score policy (least policy d cs)) (score policy d) (score policy best) in
        ground (
          arith,
          least-minimal d cs c,
          least-minimal d cs d,
          below,
          key_le_total (score policy best) (score policy d) moves,
        )
  ]

  -- Nothing is selected exactly when there is no candidate; what is selected is one of the
  -- candidates, and no candidate has a smaller score.
  pub select_rule_application-minimal :
      (cs : List RuleApplicationCandidate)
      → ((select_rule_application cs policy ≡ none) ↔ (cs ≡ []))
        × ((chosen : RuleApplicationCandidate)
            → select_rule_application cs policy ≡ some chosen
            → Has cs chosen
              × ((c : RuleApplicationCandidate)
                  → Has cs c
                  → key_le (score policy chosen) (score policy c) ≡ true))
  unfolding select_rule_application
  select_rule_application-minimal [] = ((λ h. refl, λ h. refl), λ chosen h. cc)
  select_rule_application-minimal (b ∷ cs) = (
    (λ h. cc, λ h. cc),
    λ chosen h. rw (sym (some_injective h)) (Has-least b cs, least-minimal b cs),
  )

  nothing_in :
      {cs : List RuleApplicationCandidate} (c : RuleApplicationCandidate) → cs ≡ [] → Has cs c → ⊥
  unfolding contains
  nothing_in c h m = cc

  -- With distinct candidate identifiers the selection does not depend on the order, nor on
  -- repetitions, of the candidates.
  pub select_rule_application_order :
      (cs ds : List RuleApplicationCandidate)
      → ((c : RuleApplicationCandidate) → contains cs c ≡ contains ds c)
      → ((c d : RuleApplicationCandidate)
          → Has cs c
          → Has cs d
          → c.candidate_id ≡ d.candidate_id
          → c ≡ d)
      → select_rule_application cs policy ≡ select_rule_application ds policy
  select_rule_application_order cs ds same distinct =
      let (none_of, some_of) = select_rule_application-minimal cs in
      let (none_other, some_other) = select_rule_application-minimal ds in
      elim (Option-cases (select_rule_application cs policy)) [
        | inl nothing ↦ elim (Option-cases (select_rule_application ds policy)) [
          | inl nothing_other ↦ ground arith
          | inr (d, chosen) ↦
              absurd (nothing_in d (none_of.0 nothing) (same d ∙ (some_other d chosen).0))
        ]
        | inr (c, chosen) ↦
            let (here, least_here) = some_of c chosen in
            elim (Option-cases (select_rule_application ds policy)) [
              | inl nothing ↦ absurd (nothing_in c (none_other.0 nothing) (sym (same c) ∙ here))
              | inr (d, chosen_other) ↦
                  let (there, least_there) = some_other d chosen_other in
                  let equal =
                    key_le_antisymm (score policy c) (score policy d)
                      (least_here d (same d ∙ there)) (least_there c (sym (same c) ∙ here)) in
                  chosen
                  ∙ ap some
                      (distinct c d here (same d ∙ there) (score-candidate_id policy c d equal))
                  ∙ sym chosen_other
            ]
      ]

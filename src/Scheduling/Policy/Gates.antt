-- ===== src/Scheduling/Policy/Gates.antt =====
-- The hard gates and the threshold, as the decisions of an evaluation show them.
use brain_inspired_agent.Prelude.{
  ℕ, suc, ◌+◌, ◌≤◌, ◌≡◌, sym, subst, true, none, some, List, [], ◌∷◌, arith, All, Dict, lookup, ok,
  ◌≢◌,
}
use brain_inspired_agent.Prelude.Int.{pos, ◌≤ℤ◌}
use brain_inspired_agent.Prelude.Sort.{sorted, All-of_sorted}
use brain_inspired_agent.Scheduling.Models.{
  SchedulingCandidate, BudgetSnapshot, AdmissionDecision, admit, defer, reject, safe,
}
use brain_inspired_agent.Scheduling.Policy.{
  PolicyConfig, Remaining, goes_first, judge, decision, decisions, collect, evaluate, start, score,
}
use brain_inspired_agent.Scheduling.Policy.Rank.{
  Decided, decisions-Decided, collect-cons, evaluate-ok,
}

-- What a decision guarantees of its candidate: an admitted one is before its deadline, allowed in
-- SAFE mode if that is the mode, ready, free of conflicts, and at or above the threshold; an expired
-- one is rejected; and exactly the deferred ones are given a next evaluation, one interval on.
pub record IsSound (p : PolicyConfig) (b : BudgetSnapshot) (now : ℕ) (c : SchedulingCandidate)
    (d : AdmissionDecision) : Type 0 where
  pub in_time : d.outcome ≡ admit → (t : ℕ) → c.deadline ≡ some t → suc now ≤ t
  pub allowed : d.outcome ≡ admit → b.mode ≡ safe → c.safe_allowed ≡ true
  pub ready : d.outcome ≡ admit → (c.dependency_ready ≡ true) × (c.conflict_free ≡ true)
  pub worthy : d.outcome ≡ admit → pos p.admission_threshold ≤ℤ score p b now c
  pub expired : (t : ℕ) → c.deadline ≡ some t → t ≤ now → d.outcome ≡ reject
  pub again : d.outcome ≡ defer → d.next_evaluation_at ≡ some (now + p.reevaluation)
  pub never_again : d.outcome ≢ defer → d.next_evaluation_at ≡ none

-- The candidates beside their decisions.
abbrev pub AllSound :
    PolicyConfig → BudgetSnapshot → ℕ → List SchedulingCandidate → List AdmissionDecision → Type 0
AllSound p b now [] [] = Unit
AllSound p b now (c ∷ cs) (d ∷ ds) = IsSound p b now c d × AllSound p b now cs ds
AllSound p b now _ _ = ⊥

module _ (p : PolicyConfig) (b : BudgetSnapshot) (now : ℕ) where
  decision-IsSound :
      (c : SchedulingCandidate) (left : Remaining) → IsSound p b now c (decision p b now c left)
  unfolding decision
  decision-IsSound c left = record {
    in_time = λ h t e. ground (arith, h, e);
    allowed = λ h e. ground (arith, h, e);
    ready = λ h. ground (arith, h);
    worthy = λ h. ground (arith, h);
    expired = λ t e h. ground (arith, h, e);
    again = λ h. ground (arith, h);
    never_again = λ h. ground (arith, h);
  }

  abbrev HasSound : Dict AdmissionDecision → SchedulingCandidate → Type 0
  HasSound done c =
      (d : AdmissionDecision) → lookup c.candidate_id done ≡ some d → IsSound p b now c d

  Decided-HasSound :
      (cs : List SchedulingCandidate) (left : Remaining) (done : Dict AdmissionDecision)
      → Decided p b now cs left done
      → All (HasSound done) cs
  unfolding Decided
  Decided-HasSound [] left done h = tt
  Decided-HasSound (c ∷ cs) left done h = (
    λ d e.
        let same : decision p b now c left ≡ d = cc (h.0, e) in
        subst (IsSound p b now c) same (decision-IsSound c left),
    Decided-HasSound cs (judge p b now c left).2 done h.1,
  )

  collect-AllSound :
      (cs : List SchedulingCandidate) (done : Dict AdmissionDecision) (ds : List AdmissionDecision)
      → All (HasSound done) cs
      → collect done cs ≡ ok ds
      → AllSound p b now cs ds
  unfolding collect
  collect-AllSound [] done ds a h = let e : [] ≡ ds = cc h in subst (AllSound p b now []) e tt
  collect-AllSound (c ∷ cs) done ds a h =
      let (d, rest, found, f, e) = collect-cons p b now done c cs ds h in
      subst (AllSound p b now (c ∷ cs)) (sym e) (a.0 d found, collect-AllSound cs done rest a.1 f)

  -- Every decision of an evaluation is sound for the candidate at its place: only candidates that
  -- pass every hard gate and reach the threshold are admitted, expired ones are rejected, and
  -- exactly the deferred ones have a next evaluation.
  pub evaluate-AllSound :
      (cs : List SchedulingCandidate) (ds : List AdmissionDecision)
      → evaluate p now cs b ≡ ok ds
      → AllSound p b now cs ds
  evaluate-AllSound cs ds h =
      let (apart, e) = evaluate-ok p b now cs ds h in
      let done = decisions p b now cs in
      let sound =
        Decided-HasSound (sorted (goes_first p b now) cs) (start b) done
          (decisions-Decided p b now cs apart) in
      collect-AllSound cs done ds (All-of_sorted (goes_first p b now) (HasSound done) cs sound) e

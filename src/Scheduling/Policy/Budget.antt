-- ===== src/Scheduling/Policy/Budget.antt =====
-- The global budget: what the admitted candidates use together.
use brain_inspired_agent.Prelude.{
  ℕ, ◌+◌, ◌≤◌, ◌≡◌, refl, none, some, List, [], ◌∷◌, arith, Dict, lookup, ok,
}
use brain_inspired_agent.Prelude.Sort.{sorted, sum_by, sum_by-sorted}
use brain_inspired_agent.Scheduling.Models.{
  SchedulingCandidate, BudgetSnapshot, AdmissionDecision, AdmissionOutcome, admit,
}
use brain_inspired_agent.Scheduling.Policy.{
  PolicyConfig, Remaining, goes_first, judge, decision, decisions, collect, evaluate, start,
}
use brain_inspired_agent.Scheduling.Policy.Rank.{
  Decided, decisions-Decided, collect-cons, evaluate-ok,
}

abbrev pub if_admitted : AdmissionOutcome → ℕ → ℕ
if_admitted admit n = n
if_admitted _ n = 0

-- What the admitted candidates use of a resource of which each needs `need`, by a result that is
-- in the candidates' order: their estimated cost, and their number.
pub admitted_use : (SchedulingCandidate → ℕ) → List SchedulingCandidate → List AdmissionDecision → ℕ
admitted_use need (c ∷ cs) (d ∷ ds) = if_admitted d.outcome (need c) + admitted_use need cs ds
admitted_use need _ _ = 0

abbrev pub admitted_cost : List SchedulingCandidate → List AdmissionDecision → ℕ
admitted_cost = admitted_use (λ c. c.estimated_cost)

abbrev pub admitted_count : List SchedulingCandidate → List AdmissionDecision → ℕ
admitted_count = admitted_use (λ c. 1)

-- The same by the dictionary: what a candidate uses of a resource of which it needs `n`.
abbrev uses : Dict AdmissionDecision → (SchedulingCandidate → ℕ) → SchedulingCandidate → ℕ
uses done need c = elim (lookup c.candidate_id done) [
  | none ↦ 0
  | some d ↦ if_admitted d.outcome (need c)
]

module _ (p : PolicyConfig) (b : BudgetSnapshot) (now : ℕ) where
  -- One round takes from what is left exactly what an admitted candidate uses.
  judge_takes :
      (c : SchedulingCandidate) (left : Remaining)
      → let (o, rules, left') = judge p b now c left in
        (if_admitted o c.estimated_cost + left'.cost ≡ left.cost)
        × (if_admitted o 1 + left'.slots ≡ left.slots)
  unfolding judge
  judge_takes c left = ground arith

  used_cost :
      (cs : List SchedulingCandidate) (left : Remaining) (done : Dict AdmissionDecision)
      → Decided p b now cs left done
      → sum_by (uses done (λ c. c.estimated_cost)) cs ≤ left.cost
  unfolding Decided decision
  used_cost [] left done h = omega arith
  used_cost (c ∷ cs) left done h =
      ground (arith, h.0, judge_takes c left, used_cost cs (judge p b now c left).2 done h.1)

  used_slots :
      (cs : List SchedulingCandidate) (left : Remaining) (done : Dict AdmissionDecision)
      → Decided p b now cs left done
      → sum_by (uses done (λ c. 1)) cs ≤ left.slots
  unfolding Decided decision
  used_slots [] left done h = omega arith
  used_slots (c ∷ cs) left done h =
      ground (arith, h.0, judge_takes c left, used_slots cs (judge p b now c left).2 done h.1)

  -- The result in the candidates' order uses what the dictionary says.
  use-collect :
      (need : SchedulingCandidate → ℕ) (done : Dict AdmissionDecision)
      (cs : List SchedulingCandidate) (ds : List AdmissionDecision)
      → collect done cs ≡ ok ds
      → admitted_use need cs ds ≡ sum_by (uses done need) cs
  unfolding admitted_use
  use-collect need done [] ds h = refl
  use-collect need done (c ∷ cs) ds h =
      let (d, rest, found, f, e) = collect-cons p b now done c cs ds h in
      ground (arith, found, e, use-collect need done cs rest f)

  -- Whatever the candidates: the admitted ones together cost at most the remaining budget, and are
  -- at most as many as its free slots.
  pub evaluate_within_budget :
      (cs : List SchedulingCandidate) (ds : List AdmissionDecision)
      → evaluate p now cs b ≡ ok ds
      → (admitted_cost cs ds ≤ b.remaining_cost) × (admitted_count cs ds ≤ b.available_slots)
  evaluate_within_budget cs ds h =
      let (apart, e) = evaluate-ok p b now cs ds h in
      let done = decisions p b now cs in
      let ranked = sorted (goes_first p b now) cs in
      let decided = decisions-Decided p b now cs apart in
      (
        omega (
          arith,
          use-collect (λ c. c.estimated_cost) done cs ds e,
          used_cost ranked (start b) done decided,
          sum_by-sorted (goes_first p b now) (uses done (λ c. c.estimated_cost)) cs,
        ),
        omega (
          arith,
          use-collect (λ c. 1) done cs ds e,
          used_slots ranked (start b) done decided,
          sum_by-sorted (goes_first p b now) (uses done (λ c. 1)) cs,
        ),
      )

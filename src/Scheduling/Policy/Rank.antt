-- ===== src/Scheduling/Policy/Rank.antt =====
-- The ranking and the dictionary of decisions.
use brain_inspired_agent.Prelude.{
  ℕ, String, ◌≡◌, refl, ◌∙◌, Bool, true, false, some, List, [], ◌∷◌, map, arith, has, eq_iff,
  eq_refl, inl, inr, All, Dict, lookup, insert, lookup-insert, ok, Option-cases, Result-cases,
}
use brain_inspired_agent.Prelude.Sort.{sorted, insert_sorted, All-of_sorted}
use brain_inspired_agent.Scheduling.Models.{SchedulingCandidate, BudgetSnapshot, AdmissionDecision}
use brain_inspired_agent.Scheduling.Policy.{
  PolicyConfig, Remaining, goes_first, judge, decision, decide_all, decisions, collect, ids,
  distinct, evaluate, start,
}

module _ (less : SchedulingCandidate → SchedulingCandidate → Bool) where
  has-ids-insert_sorted :
      (k : String) (x : SchedulingCandidate) (ys : List SchedulingCandidate)
      → has k (ids (insert_sorted less x ys)) ≡ has k (ids (x ∷ ys))
  unfolding insert_sorted ids
  has-ids-insert_sorted k x [] = refl
  has-ids-insert_sorted k x (y ∷ ys) = ground (arith, has-ids-insert_sorted k x ys)

  has-ids-sorted :
      (k : String) (xs : List SchedulingCandidate) → has k (ids (sorted less xs)) ≡ has k (ids xs)
  unfolding sorted ids
  has-ids-sorted k [] = refl
  has-ids-sorted k (x ∷ xs) =
      ground (arith, has-ids-insert_sorted k x (sorted less xs), has-ids-sorted k xs)

  distinct-insert_sorted :
      (x : SchedulingCandidate) (ys : List SchedulingCandidate)
      → distinct (ids (insert_sorted less x ys)) ≡ distinct (ids (x ∷ ys))
  unfolding insert_sorted ids
  distinct-insert_sorted x [] = refl
  distinct-insert_sorted x (y ∷ ys) = ground (
    arith,
    distinct-insert_sorted x ys,
    has-ids-insert_sorted y.candidate_id x ys,
    eq_iff x.candidate_id y.candidate_id,
    eq_iff y.candidate_id x.candidate_id,
  )

  pub distinct-sorted :
      (xs : List SchedulingCandidate) → distinct (ids (sorted less xs)) ≡ distinct (ids xs)
  unfolding sorted ids
  distinct-sorted [] = refl
  distinct-sorted (x ∷ xs) = ground (
    arith,
    distinct-insert_sorted x (sorted less xs),
    distinct-sorted xs,
    has-ids-sorted x.candidate_id xs,
  )

module _ (p : PolicyConfig) (b : BudgetSnapshot) (now : ℕ) where
  decide_all-untouched :
      (k : String) (cs : List SchedulingCandidate) (left : Remaining)
      (done : Dict AdmissionDecision)
      → has k (ids cs) ≡ false
      → lookup k (decide_all p b now cs left done) ≡ lookup k done
  unfolding decide_all ids
  decide_all-untouched k [] left done h = refl
  decide_all-untouched k (c ∷ cs) left done h =
      decide_all-untouched k cs (judge p b now c left).2
        (insert c.candidate_id (decision p b now c left) done) (ground (arith, h))
      ∙ ground (arith, h, lookup-insert c.candidate_id k (decision p b now c left) done)

  -- The dictionary holds for each ranked candidate the decision made with what was left then.
  unfoldable pub Decided : List SchedulingCandidate → Remaining → Dict AdmissionDecision → Type 0
  Decided [] left done = Unit
  Decided (c ∷ cs) left done =
      (lookup c.candidate_id done ≡ some (decision p b now c left))
      × Decided cs (judge p b now c left).2 done

  pub decide_all-Decided :
      (cs : List SchedulingCandidate) (left : Remaining) (done : Dict AdmissionDecision)
      → distinct (ids cs) ≡ true
      → Decided cs left (decide_all p b now cs left done)
  unfolding Decided decide_all ids
  decide_all-Decided [] left done h = tt
  decide_all-Decided (c ∷ cs) left done h = (
    decide_all-untouched c.candidate_id cs (judge p b now c left).2
          (insert c.candidate_id (decision p b now c left) done) (ground (arith, h))
        ∙ rw (lookup-insert, eq_refl c.candidate_id) refl,
    decide_all-Decided cs (judge p b now c left).2
        (insert c.candidate_id (decision p b now c left) done) (ground (arith, h)),
  )

  pub decisions-Decided :
      (cs : List SchedulingCandidate)
      → distinct (ids cs) ≡ true
      → Decided (sorted (goes_first p b now) cs) (start b) (decisions p b now cs)
  unfolding decisions
  decisions-Decided cs h =
      decide_all-Decided (sorted (goes_first p b now) cs) (start b) []
        (distinct-sorted (goes_first p b now) cs ∙ h)

  -- A decision for this candidate stands in the dictionary.
  abbrev IsFound : Dict AdmissionDecision → SchedulingCandidate → Type 0
  IsFound done c =
      (d : AdmissionDecision) × (lookup c.candidate_id done ≡ some d)
      × (d.candidate_id ≡ c.candidate_id)

  pub All-IsFound :
      (cs : List SchedulingCandidate) (left : Remaining) (done : Dict AdmissionDecision)
      → Decided cs left done
      → All (IsFound done) cs
  unfolding Decided decision
  All-IsFound [] left done h = tt
  All-IsFound (c ∷ cs) left done h =
      ((decision p b now c left, h.0, refl), All-IsFound cs (judge p b now c left).2 done h.1)

  collect_total :
      (cs : List SchedulingCandidate) (done : Dict AdmissionDecision)
      → All (IsFound done) cs
      → (ds : List AdmissionDecision) × (collect done cs ≡ ok ds)
        × (map (λ d. d.candidate_id) ds ≡ ids cs)
  unfolding collect ids
  collect_total [] done h = ([], refl, refl)
  collect_total (c ∷ cs) done ((d, found, same), h) =
      let (ds, e, names) = collect_total cs done h in (d ∷ ds, ground (arith, found, e), cc)

  -- With distinct identifiers and a budget of the active version, every candidate gets exactly one
  -- decision: the evaluation raises nothing, and its result names the candidates in the order given.
  pub evaluate_total :
      (cs : List SchedulingCandidate)
      → b.policy_version ≡ p.version
      → distinct (ids cs) ≡ true
      → (ds : List AdmissionDecision) × (evaluate p now cs b ≡ ok ds)
        × (map (λ d. d.candidate_id) ds ≡ ids cs)
  unfolding evaluate
  evaluate_total cs v h =
      let found = All-of_sorted (goes_first p b now) (IsFound (decisions p b now cs)) cs (
        All-IsFound (sorted (goes_first p b now) cs) (start b) (decisions p b now cs)
          (decisions-Decided cs h)) in
      let (ds, e, names) = collect_total cs (decisions p b now cs) found in
      (ds, rw ((eq_iff b.policy_version p.version).1 v, h) e, names)

  -- What a result tells of the dictionary.
  pub collect-cons :
      (done : Dict AdmissionDecision) (c : SchedulingCandidate) (cs : List SchedulingCandidate)
      (ds : List AdmissionDecision)
      → collect done (c ∷ cs) ≡ ok ds
      → (d : AdmissionDecision) × (rest : List AdmissionDecision) × (lookup c.candidate_id done
          ≡ some d)
        × (collect done cs ≡ ok rest)
        × (ds ≡ d ∷ rest)
  unfolding collect
  collect-cons done c cs ds h = elim (Option-cases (lookup c.candidate_id done)) [
    | inl e ↦ absurd (ground (arith, e, h))
    | inr (d, e) ↦ elim (Result-cases (collect done cs)) [
      | inl (rest, f) ↦ (d, rest, e, f, ground (arith, e, f, h))
      | inr (x, f) ↦ absurd (ground (arith, e, f, h))
    ]
  ]

  pub evaluate-ok :
      (cs : List SchedulingCandidate) (ds : List AdmissionDecision)
      → evaluate p now cs b ≡ ok ds
      → (distinct (ids cs) ≡ true) × (collect (decisions p b now cs) cs ≡ ok ds)
  unfolding evaluate
  evaluate-ok cs ds h = ground arith

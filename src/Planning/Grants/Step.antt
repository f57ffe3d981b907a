-- ===== src/Planning/Grants/Step.antt =====
-- What a call does to the grants and to the attempts.
use brain_inspired_agent.Prelude.{
  ℕ, ◌<◌, String, ◌≡◌, refl, ap, ◌∙◌, subst, Bool, true, false, ◌&&◌, ◌⊎◌, Option, none, some, List,
  [], ◌∷◌, ◌++◌, map, leb, str_eq, arith, Option-cases, Bool-cases, inl, inr, Result, ok, raise,
  Result-cases,
}
use brain_inspired_agent.Planning.Validation.{PlanDocument, CandidatePlan}
use brain_inspired_agent.Planning.Grants.{
  PlanningError, GrantStatus, is_active, PlanDecision, GrantDocument, ExecutionGrant, GrantAttempt,
  Store, add_transition, find_grant, get, numbers_of, highest, expected_attempt, new_attempt,
  authorize_attempt, set_status, end_grant, revoke, expire, new_grant, get_decision, get_plan,
  issue, add_plan, add_decision, Call, plan_call, decision_call, issue_call, authorize_call,
  revoke_call, expire_call, after, call,
}

-- A grant is still there, for the same task and time, and as it was if it had ended.
abbrev pub Continues : List ExecutionGrant → List ExecutionGrant → Type 0
Continues before now =
    (id : String) (g : ExecutionGrant)
    → find_grant id before ≡ some g
    → (g' : ExecutionGrant) × (find_grant id now ≡ some g')
      × (g'.task_id ≡ g.task_id)
      × (g'.expires_at ≡ g.expires_at)
      × (is_active g.status ≡ false → g' ≡ g)

Continues-refl : (grants : List ExecutionGrant) → Continues grants grants
Continues-refl grants id g f = (g, f, refl, refl, λ h. refl)

find-snoc :
    (id : String) (grants : List ExecutionGrant) (g new : ExecutionGrant)
    → find_grant id grants ≡ some g
    → find_grant id (grants ++ new ∷ []) ≡ some g
find-snoc id [] g new f = absurd (ground (arith, f))
find-snoc id (x ∷ grants) g new f = ground (arith, f, find-snoc id grants g new)

Continues-snoc :
    (grants : List ExecutionGrant) (new : ExecutionGrant) → Continues grants (grants ++ new ∷ [])
Continues-snoc grants new id g f = (g, find-snoc id grants g new f, refl, refl, λ h. refl)

abbrev option_map :
    (ExecutionGrant → ExecutionGrant) → Option ExecutionGrant → Option ExecutionGrant
option_map f none = none
option_map f (some g) = some (f g)

grant_id-set_status :
    (ended : String) (s : GrantStatus) (g : ExecutionGrant)
    → (set_status ended s g).grant_id ≡ g.grant_id
grant_id-set_status ended s g = elim (Bool-cases (str_eq g.grant_id ended && is_active g.status)) [
  | inl e ↦ rw e refl
  | inr e ↦ rw e refl
]

find-set_status :
    (id ended : String) (s : GrantStatus) (grants : List ExecutionGrant)
    → find_grant id (map (set_status ended s) grants)
      ≡ option_map (set_status ended s) (find_grant id grants)
find-set_status id ended s [] = refl
find-set_status id ended s (x ∷ grants) =
    let rest = find-set_status id ended s grants in
    let same = ap (λ k. str_eq k id) (grant_id-set_status ended s x) in
    elim (Bool-cases (str_eq x.grant_id id)) [
      | inl e ↦ rw (same ∙ e, e) refl
      | inr e ↦ rw (same ∙ e, e) rest
    ]

Continues-set_status :
    (ended : String) (s : GrantStatus) (grants : List ExecutionGrant)
    → Continues grants (map (set_status ended s) grants)
Continues-set_status ended s grants id g f =
    let there = find-set_status id ended s grants ∙ ap (option_map (set_status ended s)) f in
    elim (Bool-cases (str_eq g.grant_id ended && is_active g.status)) [
      | inl e ↦
          let now : set_status ended s g ≡ record g { status = s } = rw e refl in
          (
            set_status ended s g,
            there,
            ap (λ (x : ExecutionGrant). x.task_id) now,
            ap (λ (x : ExecutionGrant). x.expires_at) now,
            λ h. absurd (ground (arith, e, h)),
          )
      | inr e ↦
          let now : set_status ended s g ≡ g = rw e refl in
          (
            set_status ended s g,
            there,
            ap (λ (x : ExecutionGrant). x.task_id) now,
            ap (λ (x : ExecutionGrant). x.expires_at) now,
            λ h. now,
          )
    ]

-- An attempt is added under an active grant.
pub record Authorizes (db db' : Store) : Type 0 where
  pub grant_id : String
  pub grant : ExecutionGrant
  pub attempt : ℕ
  pub at_time : ℕ
  pub found : find_grant grant_id db.grants ≡ some grant
  pub is_open : is_active grant.status ≡ true
  pub in_time : at_time < grant.expires_at
  pub next : attempt ≡ expected_attempt (highest (numbers_of grant_id db.attempts))
  pub grants_same : db.grants ≡ db'.grants
  pub added : db.attempts ++ new_attempt grant attempt at_time ∷ [] ≡ db'.attempts

abbrev pub Steps : Store → Store → Type 0
Steps db db' = ((db.attempts ≡ db'.attempts) × Continues db.grants db'.grants) ⊎ Authorizes db db'

Steps-refl : (db : Store) → Steps db db
Steps-refl db = inl (refl, Continues-refl db.grants)

authorize-Steps :
    (grant_id task_id : String) (attempt at_time : ℕ) (db db' : Store) (a : GrantAttempt)
    → authorize_attempt grant_id task_id attempt at_time db ≡ ok (a, db')
    → Steps db db'
unfolding authorize_attempt get
authorize-Steps grant_id task_id attempt at_time db db' a e =
    elim (Option-cases (find_grant grant_id db.grants)) [
      | inl n ↦ absurd (ground (arith, e, n))
      | inr (g, n) ↦
          let opened : is_active g.status ≡ true = ground (arith, e, n) in
          let time : leb g.expires_at at_time ≡ false = ground (arith, e, n, opened) in
          let task : str_eq task_id g.task_id ≡ true = ground (arith, e, n, opened, time) in
          let number : attempt ≡ expected_attempt (highest (numbers_of grant_id db.attempts)) =
            ground (arith, e, n, opened, time, task) in
          inr (record {
            grant_id = grant_id;
            grant = g;
            attempt = attempt;
            at_time = at_time;
            found = n;
            is_open = opened;
            in_time = ground (arith, time);
            next = number;
            grants_same = ground (arith, e, n, opened, time, task, number);
            added = ground (arith, e, n, opened, time, task, number);
          })
    ]

end-Steps :
    (grant_id : String) (s : GrantStatus) (reason : String) (at_time : ℕ) (late : Bool)
    (db db' : Store) (g : ExecutionGrant)
    → end_grant grant_id s reason at_time late db ≡ ok (g, db')
    → Steps db db'
unfolding end_grant add_transition
end-Steps grant_id s reason at_time late db db' g e = elim (Result-cases (get grant_id db)) [
  | inr (x, f) ↦ absurd (ground (arith, e, f))
  | inl (old, f) ↦
      let grants : map (set_status grant_id s) db.grants ≡ db'.grants = ground (arith, e, f) in
      let attempts : db.attempts ≡ db'.attempts = ground (arith, e, f) in
      inl (attempts, subst (Continues db.grants) grants (Continues-set_status grant_id s db.grants))
]

module _ (digest_of : PlanDocument → String) where
  issue-Steps :
      (d : GrantDocument) (db db' : Store) (g : ExecutionGrant)
      → issue digest_of d db ≡ ok (g, db')
      → Steps db db'
  unfolding issue add_transition
  issue-Steps d db db' g e = elim (Result-cases (get_decision d.decision_id db)) [
    | inr (x, f) ↦ absurd (ground (arith, e, f))
    | inl (decision, f) ↦ elim (Result-cases (get_plan digest_of decision.plan_id db)) [
      | inr (x, h) ↦ absurd (ground (arith, e, f, h))
      | inl (plan, h) ↦
          let grants : db.grants ++ new_grant d ∷ [] ≡ db'.grants = ground (arith, e, f, h) in
          let attempts : db.attempts ≡ db'.attempts = ground (arith, e, f, h) in
          inl
            (attempts, subst (Continues db.grants) grants (Continues-snoc db.grants (new_grant d)))
    ]
  ]

  plan-Steps :
      (p q : CandidatePlan) (db db' : Store) → add_plan digest_of p db ≡ ok (q, db') → Steps db db'
  unfolding add_plan
  plan-Steps p q db db' e =
      let grants : db.grants ≡ db'.grants = ground (arith, e) in
      let attempts : db.attempts ≡ db'.attempts = ground (arith, e) in
      inl (attempts, subst (Continues db.grants) grants (Continues-refl db.grants))

  decision-Steps :
      (d x : PlanDecision) (db db' : Store)
      → add_decision digest_of d db ≡ ok (x, db')
      → Steps db db'
  unfolding add_decision
  decision-Steps d x db db' e = elim (Result-cases (get_plan digest_of d.plan_id db)) [
    | inr (y, h) ↦ absurd (ground (arith, e, h))
    | inl (plan, h) ↦
        let grants : db.grants ≡ db'.grants = ground (arith, e, h) in
        let attempts : db.attempts ≡ db'.attempts = ground (arith, e, h) in
        inl (attempts, subst (Continues db.grants) grants (Continues-refl db.grants))
  ]

  after-Steps {ℓ} :
      {A : Type ℓ} (db : Store) (m : Result PlanningError (A × Store))
      → ((a : A) (db' : Store) → m ≡ ok (a, db') → Steps db db')
      → Steps db (after db m)
  after-Steps db (ok (a, db')) k = k a db' refl
  after-Steps db (raise e) k = Steps-refl db

  pub call-Steps : (c : Call) (db : Store) → Steps db (call digest_of c db)
  unfolding call revoke expire
  call-Steps (plan_call p) db =
      after-Steps db (add_plan digest_of p db) (λ q db' e. plan-Steps p q db db' e)
  call-Steps (decision_call d) db =
      after-Steps db (add_decision digest_of d db) (λ x db' e. decision-Steps d x db db' e)
  call-Steps (issue_call d) db =
      after-Steps db (issue digest_of d db) (λ g db' e. issue-Steps d db db' g e)
  call-Steps (authorize_call g t n o) db =
      after-Steps db (authorize_attempt g t n o db) (λ a db' e. authorize-Steps g t n o db db' a e)
  call-Steps (revoke_call g r o) db =
      after-Steps db (revoke g r o db)
        (λ x db' e. end-Steps g GrantStatus.revoked r o false db db' x e)
  call-Steps (expire_call g o) db =
      after-Steps db (expire g o db)
        (λ x db' e. end-Steps g GrantStatus.expired "grant expired" o true db db' x e)

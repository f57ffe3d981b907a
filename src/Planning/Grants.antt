-- ===== src/Planning/Grants.antt =====
-- Plans, decisions and execution grants in planning.py: `PlanningRepository` and `GrantIssuer` over their
-- tables. The documents have been read into records and the digest of a plan is a parameter; times
-- are instants. The identifier of a transition is a digest of the grant, the status and the time, so these
-- three are its key here. After an exception the caller rolls its transaction back.
pub mod Step
pub mod Attempts
pub mod Ended
mod Tests
use brain_inspired_agent.Prelude.{
  ℕ, ◌+◌, String, count, Bool, true, false, not, ◌&&◌, ◌||◌, Option, none, some, List, [], ◌∷◌,
  ◌++◌, map, any, find?, leb, ltb, ◌==◌, str_eq, if◌then◌else◌, Result, ok, raise, ◌>>=◌, ◌>>◌,
  reject_if,
}
use brain_inspired_agent.Planning.Validation.{PlanDocument, CandidatePlan, PlanError, create_plan}

pub data PlanningError : Type 0 where
  plan_schema_invalid plan_already_exists plan_not_found digest_mismatch : PlanningError
  decision_invalid plan_expired plan_already_decided decision_not_found : PlanningError
  grant_not_allowed grant_invalid grant_already_exists grant_not_found : PlanningError
  grant_not_active grant_expired grant_task_mismatch attempt_invalid grant_not_expired :
      PlanningError
  -- A constraint of the database that the code does not catch.
  integrity_error : PlanningError

pub data PlanDecisionType : Type 0 where
  approved rejected expired_plan cancelled : PlanDecisionType

abbrev pub is_approved : PlanDecisionType → Bool
is_approved approved = true
is_approved _ = false

pub data GrantStatus : Type 0 where
  active revoked expired : GrantStatus

abbrev pub is_active : GrantStatus → Bool
is_active active = true
is_active _ = false

abbrev text_of : GrantStatus → String
text_of active = "ACTIVE"
text_of revoked = "REVOKED"
text_of expired = "EXPIRED"

pub record PlanDecision : Type 0 where
  pub decision_id : String
  pub plan_id : String
  pub decision : PlanDecisionType
  pub decided_at : ℕ
  pub correlation_id : String

pub record GrantDocument : Type 0 where
  pub grant_id : String
  pub decision_id : String
  pub plan_id : String
  pub task_id : String
  pub issued_at : ℕ
  pub expires_at : ℕ
  pub consumption : String
  pub correlation_id : String

pub record ExecutionGrant : Type 0 where
  pub grant_id : String
  pub decision_id : String
  pub task_id : String
  pub status : GrantStatus
  pub issued_at : ℕ
  pub expires_at : ℕ
  pub correlation_id : String

pub record GrantAttempt : Type 0 where
  pub grant_id : String
  pub task_id : String
  pub attempt : ℕ
  pub authorized_at : ℕ
  pub correlation_id : String

pub record GrantTransition : Type 0 where
  pub grant_id : String
  pub from_status : Option GrantStatus
  pub to_status : GrantStatus
  pub reason : String
  pub occurred_at : ℕ

pub record Store : Type 0 where
  pub plans : List CandidatePlan
  pub decisions : List PlanDecision
  pub grants : List ExecutionGrant
  pub attempts : List GrantAttempt
  pub transitions : List GrantTransition

-- `_transition`, with the error where its key is taken.
pub add_transition : PlanningError → GrantTransition → Store → Result PlanningError Store
add_transition e t db =
    let same = λ (u : GrantTransition).
      str_eq u.grant_id t.grant_id
      && (str_eq (text_of u.to_status) (text_of t.to_status) && u.occurred_at == t.occurred_at) in
    reject_if (any same db.transitions) e
    >> ok (record db { transitions = db.transitions ++ t ∷ [] })

abbrev pub find_grant : String → List ExecutionGrant → Option ExecutionGrant
find_grant id grants = find? (λ g. str_eq g.grant_id id) grants

-- `GrantIssuer.get`.
pub get : String → Store → Result PlanningError ExecutionGrant
get id db = elim (find_grant id db.grants) [ none ↦ raise grant_not_found | some g ↦ ok g ]

abbrev pub numbers_of : String → List GrantAttempt → List ℕ
numbers_of id [] = []
numbers_of id (a ∷ rest) =
    let others = numbers_of id rest in if str_eq a.grant_id id then a.attempt ∷ others else others

-- `max(attempt)`.
abbrev pub higher : ℕ → Option ℕ → Option ℕ
higher k none = some k
higher k (some m) = if ltb k m then some m else some k

abbrev pub highest : List ℕ → Option ℕ
highest [] = none
highest (k ∷ ks) = higher k (highest ks)

abbrev pub expected_attempt : Option ℕ → ℕ
expected_attempt none = 1
expected_attempt (some k) = k + 1

abbrev pub new_attempt : ExecutionGrant → ℕ → ℕ → GrantAttempt
new_attempt g attempt at_time = record {
  grant_id = g.grant_id;
  task_id = g.task_id;
  attempt = attempt;
  authorized_at = at_time;
  correlation_id = g.correlation_id;
}

abbrev clashes : GrantAttempt → GrantAttempt → Bool
clashes a b = (str_eq a.grant_id b.grant_id || str_eq a.task_id b.task_id) && a.attempt == b.attempt

pub authorize_attempt :
    String → String → ℕ → ℕ → Store → Result PlanningError (GrantAttempt × Store)
unfolding get
authorize_attempt grant_id task_id attempt at_time db = get grant_id db >>= λ g.
    reject_if (not (is_active g.status)) grant_not_active
    >> (reject_if (leb g.expires_at at_time) grant_expired
        >> (reject_if (not (str_eq task_id g.task_id)) grant_task_mismatch
            >> (reject_if
                  (not (attempt == expected_attempt (highest (numbers_of grant_id db.attempts))))
                  attempt_invalid
                >> (reject_if (any (clashes (new_attempt g attempt at_time)) db.attempts)
                      integrity_error
                    >> ok (
                      new_attempt g attempt at_time,
                      record db { attempts = db.attempts ++ new_attempt g attempt at_time ∷ [] },
                    )))))

abbrev pub set_status : String → GrantStatus → ExecutionGrant → ExecutionGrant
set_status id s g =
    if str_eq g.grant_id id && is_active g.status then record g { status = s } else g

-- `_end`.
pub end_grant :
    String → GrantStatus → String → ℕ → Bool → Store → Result PlanningError (ExecutionGrant × Store)
unfolding get add_transition
end_grant grant_id status reason at_time require_expired db = get grant_id db >>= λ g.
    reject_if (not (is_active g.status)) grant_not_active
    >> (reject_if (str_eq reason "" || ltb 500 (count reason)) grant_invalid
        >> (reject_if (require_expired && ltb at_time g.expires_at) grant_not_expired
            >> (add_transition integrity_error
                  (record {
                    grant_id = grant_id;
                    from_status = some active;
                    to_status = status;
                    reason = reason;
                    occurred_at = at_time;
                  })
                  (record db { grants = map (set_status grant_id status) db.grants })
                >>= λ db'. get grant_id db' >>= λ g'. ok (g', db'))))

pub revoke : String → String → ℕ → Store → Result PlanningError (ExecutionGrant × Store)
unfolding end_grant
revoke grant_id reason at_time db = end_grant grant_id revoked reason at_time false db

pub expire : String → ℕ → Store → Result PlanningError (ExecutionGrant × Store)
unfolding end_grant
expire grant_id at_time db = end_grant grant_id expired "grant expired" at_time true db

abbrev pub new_grant : GrantDocument → ExecutionGrant
new_grant d = record {
  grant_id = d.grant_id;
  decision_id = d.decision_id;
  task_id = d.task_id;
  status = active;
  issued_at = d.issued_at;
  expires_at = d.expires_at;
  correlation_id = d.correlation_id;
}

-- `get_decision`.
pub get_decision : String → Store → Result PlanningError PlanDecision
get_decision id db = elim (find? (λ d. str_eq d.decision_id id) db.decisions) [
  | none ↦ raise decision_not_found
  | some d ↦ ok d
]

module _ (digest_of : PlanDocument → String) where
  abbrev from_create : Result PlanError CandidatePlan → Result PlanningError CandidatePlan
  from_create (ok p) = ok p
  from_create (raise e) = raise plan_schema_invalid

  -- `get_plan`: the plan is made again from its document.
  pub get_plan : String → Store → Result PlanningError CandidatePlan
  get_plan id db = elim (find? (λ (p : CandidatePlan). str_eq p.plan_id id) db.plans) [
    | none ↦ raise plan_not_found
    | some row ↦ from_create (create_plan digest_of row.document) >>= λ plan.
        reject_if (not (str_eq plan.digest row.digest)) digest_mismatch >> ok plan
  ]

  pub issue : GrantDocument → Store → Result PlanningError (ExecutionGrant × Store)
  unfolding get_decision get_plan add_transition
  issue d db = get_decision d.decision_id db >>= λ decision.
      reject_if (not (is_approved decision.decision)) grant_not_allowed
      >> (get_plan decision.plan_id db >>= λ plan.
          reject_if (not (str_eq d.plan_id plan.plan_id)) grant_invalid
          >> (reject_if (leb d.expires_at d.issued_at || ltb plan.expires_at d.expires_at)
                grant_invalid
              >> (reject_if (not (str_eq d.consumption "SINGLE_TASK_MULTI_ATTEMPT")) grant_invalid
                  >> (reject_if (not (str_eq d.correlation_id plan.correlation_id)) grant_invalid
                      >> (reject_if
                            (any (λ g. str_eq g.grant_id d.grant_id || str_eq g.task_id d.task_id)
                              db.grants)
                            grant_already_exists
                          >> (add_transition grant_already_exists
                                (record {
                                  grant_id = d.grant_id;
                                  from_status = none;
                                  to_status = active;
                                  reason = "grant issued";
                                  occurred_at = d.issued_at;
                                })
                                (record db { grants = db.grants ++ new_grant d ∷ [] })
                              >>= λ db'. ok (new_grant d, db')))))))

  -- `add_plan` and `add_decision`.
  pub add_plan : CandidatePlan → Store → Result PlanningError (CandidatePlan × Store)
  add_plan plan db =
      reject_if
        (any (λ (p : CandidatePlan). str_eq p.plan_id plan.plan_id || str_eq p.digest plan.digest)
          db.plans)
        plan_already_exists
      >> ok (plan, record db { plans = db.plans ++ plan ∷ [] })

  pub add_decision : PlanDecision → Store → Result PlanningError (PlanDecision × Store)
  unfolding get_plan
  add_decision decision db = get_plan decision.plan_id db >>= λ plan.
      reject_if (not (str_eq decision.correlation_id plan.correlation_id)) decision_invalid
      >> (reject_if (leb plan.expires_at decision.decided_at && is_approved decision.decision)
            plan_expired
          >> (reject_if
                (any
                  (λ d.
                    str_eq d.decision_id decision.decision_id || str_eq d.plan_id decision.plan_id)
                  db.decisions)
                plan_already_decided
              >> ok (decision, record db { decisions = db.decisions ++ decision ∷ [] })))

pub data Call : Type 0 where
  plan_call : CandidatePlan → Call
  decision_call : PlanDecision → Call
  issue_call : GrantDocument → Call
  authorize_call : String → String → ℕ → ℕ → Call
  revoke_call : String → String → ℕ → Call
  expire_call : String → ℕ → Call

abbrev pub after {ℓ} : {A : Type ℓ} → Store → Result PlanningError (A × Store) → Store
after db (ok (a, db')) = db'
after db (raise e) = db

-- The tables after a call, which is rolled back where it raises.
pub call : (PlanDocument → String) → Call → Store → Store
unfolding add_plan add_decision issue authorize_attempt revoke expire
call digest_of (plan_call p) db = after db (add_plan digest_of p db)
call digest_of (decision_call d) db = after db (add_decision digest_of d db)
call digest_of (issue_call d) db = after db (issue digest_of d db)
call digest_of (authorize_call g t n o) db = after db (authorize_attempt g t n o db)
call digest_of (revoke_call g r o) db = after db (revoke g r o db)
call digest_of (expire_call g o) db = after db (expire g o db)

pub calls : (PlanDocument → String) → List Call → Store → Store
unfolding call
calls digest_of [] db = db
calls digest_of (c ∷ cs) db = calls digest_of cs (call digest_of c db)

abbrev pub empty : Store
empty = record { plans = []; decisions = []; grants = []; attempts = []; transitions = [] }

-- ===== src/Planning/Grants/Tests.antt =====
-- A grant under which two attempts are authorized and that is then revoked.
use brain_inspired_agent.Prelude.{String, ◌≡◌, refl, true, some, List, [], ◌∷◌, All}
use brain_inspired_agent.Planning.Validation.{PlanDocument, CandidatePlan, create_plan}
use brain_inspired_agent.Planning.Grants.{
  approved, revoked, PlanDecision, GrantDocument, Store, Call, plan_call, decision_call, issue_call,
  authorize_call, revoke_call, calls, empty, find_grant, numbers_of, new_grant,
}
use brain_inspired_agent.Planning.Grants.Attempts.{IsBacked, counts}
use brain_inspired_agent.Planning.Grants.Ended.{ended_grant_lem, authorized_attempts_lem}

abbrev document : PlanDocument
document = record {
  status = "CANDIDATE";
  plan_id = "p-1";
  correlation_id = "c-1";
  created_at = 100;
  expires_at = 900;
  tasks = [];
}

abbrev digest_of : PlanDocument → String
digest_of d = d.plan_id

abbrev plan : CandidatePlan
plan = record {
  plan_id = "p-1";
  document = document;
  digest = "p-1";
  created_at = 100;
  expires_at = 900;
  correlation_id = "c-1";
}

abbrev decision : PlanDecision
decision = record {
  decision_id = "d-1";
  plan_id = "p-1";
  decision = approved;
  decided_at = 200;
  correlation_id = "c-1";
}

abbrev grant : GrantDocument
grant = record {
  grant_id = "g-1";
  decision_id = "d-1";
  plan_id = "p-1";
  task_id = "t-1";
  issued_at = 210;
  expires_at = 800;
  consumption = "SINGLE_TASK_MULTI_ATTEMPT";
  correlation_id = "c-1";
}

abbrev before : List Call
before =
    plan_call plan
    ∷ decision_call decision
    ∷ issue_call grant
    ∷ authorize_call "g-1" "t-1" 1 300
    ∷ authorize_call "g-1" "t-1" 2 310
    ∷ revoke_call "g-1" "stop" 320
    ∷ []

abbrev revoked_store : Store
revoked_store = calls digest_of before empty

two_attempts : numbers_of "g-1" revoked_store.attempts ≡ 1 ∷ 2 ∷ []
unfolding calls create_plan
two_attempts = refl

found : find_grant "g-1" revoked_store.grants ≡ some (record (new_grant grant) { status = revoked })
unfolding calls create_plan
found = refl

ended_grant_lem_example :
    (find_grant "g-1" (calls digest_of (authorize_call "g-1" "t-1" 3 330 ∷ []) revoked_store).grants
      ≡ some (record (new_grant grant) { status = revoked }))
    × (numbers_of "g-1"
          (calls digest_of (authorize_call "g-1" "t-1" 3 330 ∷ []) revoked_store).attempts
        ≡ numbers_of "g-1" revoked_store.attempts)
ended_grant_lem_example =
    ended_grant_lem digest_of (authorize_call "g-1" "t-1" 3 330 ∷ []) revoked_store "g-1"
      (record (new_grant grant) { status = revoked }) found refl

authorized_attempts_lem_example :
    All (IsBacked revoked_store.grants) revoked_store.attempts
    × ((id : String) → counts 0 (numbers_of id revoked_store.attempts) ≡ true)
authorized_attempts_lem_example = authorized_attempts_lem digest_of before

-- ===== src/Workflow/Runs/Workflows/Projection.antt =====
-- The rows of the runs against the log of their transitions.
use brain_inspired_agent.Prelude.{
  String, ◌≡◌, refl, sym, ap, ◌∙◌, subst, ◌≢◌, ◌⊎◌, none, some, List, [], ◌∷◌, arith, Option-cases,
  inl, inr, ok, raise, Result-cases,
}
use brain_inspired_agent.Workflow.Runs.{run_not_found, unknown_status}
use brain_inspired_agent.Workflow.Runs.Workflows.{
  WorkflowRun, Store, CreateWorkflow, TransitionWorkflow, select_run, workflow, get_workflow,
  transitions_of, workflow_history, workflow_event, version_lt, create_workflow, move_workflow,
  transition_workflow, Call, create_call, transition_call, after, call, calls, empty,
}
use brain_inspired_agent.Prelude.Sort.{sorted}
use brain_inspired_agent.Workflow.Runs.Workflows.Replay.{replay, sorted-replay}
use brain_inspired_agent.Workflow.Runs.Workflows.Laws.{
  IsStore, create-ok, created-IsStore, move-ok, get-select, moved-IsStore,
}

pub empty-IsStore : (tasks : List String) → IsStore (empty tasks)
empty-IsStore tasks id = (λ h. refl, λ row h. absurd (ground (arith, h)))

create-IsStore :
    (c : CreateWorkflow) (db : Store) → IsStore db → IsStore (after db (create_workflow c db))
create-IsStore c db v = elim (Result-cases (create_workflow c db)) [
  | inr (x, e) ↦ subst (λ m. IsStore (after db m)) (sym e) v
  | inl ((run, db'), e) ↦
      let (fresh, same) = create-ok c db db' run e in
      subst (λ m. IsStore (after db m)) (sym e) (subst IsStore same (created-IsStore c db fresh v))
]

-- A transition that returns has found its event logged, or has moved its run.
pub transition-ok :
    (t : TransitionWorkflow) (db db' : Store) (run : WorkflowRun)
    → transition_workflow t db ≡ ok (run, db')
    → (current : WorkflowRun) × (get_workflow t.run_id db ≡ ok current)
      × ((db ≡ db')
          ⊎ ((workflow_event t.event_id db.log ≡ none)
              × (move_workflow t current db ≡ ok (run, db'))))
unfolding transition_workflow
transition-ok t db db' run e = elim (Result-cases (get_workflow t.run_id db)) [
  | inr (x, f) ↦ absurd (ground (arith, e, f))
  | inl (current, f) ↦ elim (Option-cases (workflow_event t.event_id db.log)) [
    | inl n ↦ (current, f, inr (n, ground (arith, e, f, n)))
    | inr ((id, duplicate), n) ↦ (current, f, inl (ground (arith, e, f, n)))
  ]
]

transition-IsStore :
    (t : TransitionWorkflow) (db : Store)
    → IsStore db
    → IsStore (after db (transition_workflow t db))
transition-IsStore t db v = elim (Result-cases (transition_workflow t db)) [
  | inr (x, e) ↦ subst (λ m. IsStore (after db m)) (sym e) v
  | inl ((run, db'), e) ↦
      subst (λ m. IsStore (after db m)) (sym e)
        (let (current, f, path) = transition-ok t db db' run e in
          elim path [
            | inl same ↦ subst IsStore same v
            | inr (n, m) ↦
                let (found, status) = get-select t.run_id db current f in
                let (allowed, version, same) = move-ok t current db db' run m in
                subst IsStore same (moved-IsStore t current db v found status allowed version)
          ])
]

pub calls-IsStore : (cs : List Call) (db : Store) → IsStore db → IsStore (calls cs db)
unfolding calls call
calls-IsStore [] db v = v
calls-IsStore (create_call c ∷ cs) db v =
    calls-IsStore cs (after db (create_workflow c db)) (create-IsStore c db v)
calls-IsStore (transition_call t ∷ cs) db v =
    calls-IsStore cs (after db (transition_workflow t db)) (transition-IsStore t db v)

-- After any calls of `create_workflow` and `transition_workflow` on empty tables: where `get_workflow`
-- gives a run, the history of that run, from its creation through moves that the table of transitions
-- has and with versions that count up by one, ends with the status and the version of the run; a run that
-- is not found has no history; and no stored status is unknown.
pub replay-workflow_history :
    (tasks : List String) (cs : List Call) (id : String)
    → ((run : WorkflowRun)
        → get_workflow id (calls cs (empty tasks)) ≡ ok run
        → replay (workflow_history id (calls cs (empty tasks)))
          ≡ some (run.status, run.row.version))
      × (get_workflow id (calls cs (empty tasks)) ≡ raise run_not_found
          → workflow_history id (calls cs (empty tasks)) ≡ [])
      × (get_workflow id (calls cs (empty tasks)) ≢ raise unknown_status)
unfolding workflow_history get_workflow workflow sorted
replay-workflow_history tasks cs id =
    let db = calls cs (empty tasks) in
    let v = calls-IsStore cs (empty tasks) (empty-IsStore tasks) id in
    (
      λ run e.
          let (found, status) = get-select id db run e in
          let (s, p, q) = v.1 run.row found in
          let same : s ≡ run.status = ground (arith, p, status) in
          ap replay (sorted-replay (transitions_of id db.log) (s, run.row.version) q)
          ∙ (q ∙ ap (λ x. some (x, run.row.version)) same),
      λ e. elim (Option-cases (select_run id db.runs)) [
        | inl n ↦ ap (sorted version_lt) (v.0 n)
        | inr (row, n) ↦ let (s, p, q) = v.1 row n in absurd (ground (arith, e, n, p))
      ],
      λ e. elim (Option-cases (select_run id db.runs)) [
        | inl n ↦ ground (arith, e, n)
        | inr (row, n) ↦ let (s, p, q) = v.1 row n in ground (arith, e, n, p)
      ],
    )

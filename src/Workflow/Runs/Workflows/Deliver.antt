-- ===== src/Workflow/Runs/Workflows/Deliver.antt =====
-- A transition that is allowed, and the second delivery of its event.
use brain_inspired_agent.Prelude.{
  suc, String, ◌≡◌, refl, sym, ap, ◌∙◌, subst, Bool, true, false, none, some, List, [], ◌∷◌, ◌++◌,
  find?, str_eq, eq_refl, arith, inl, inr, ok,
}
use brain_inspired_agent.Workflow.Runs.{RunTransition, taken, timestamp, transition_fields}
use brain_inspired_agent.Workflow.Runs.Workflows.{
  WorkflowRunStatus, parse, is_member, transitions, WorkflowRow, WorkflowRun, Store,
  TransitionWorkflow, select_run, text_of, workflow, get_workflow, workflow_event, all_transitions,
  insert_transition, moved_row, next_transition, move_workflow, transition_workflow, Call, calls,
  empty,
}
use brain_inspired_agent.Workflow.Runs.Workflows.Replay.{parse-text_of}
use brain_inspired_agent.Workflow.Runs.Workflows.Laws.{
  IsStore, moved_store, move-ok, get-select, select-update_rows, swaps-current,
}
use brain_inspired_agent.Workflow.Runs.Workflows.Projection.{
  empty-IsStore, calls-IsStore, transition-ok,
}
use brain_inspired_agent.Workflow.Runs.Workflows.Swap.{Once, calls-Once, one_swap}

find?-snoc {ℓ} :
    {A : Type ℓ} (p : A → Bool) (xs : List A) (x : A)
    → find? p xs ≡ none
    → p x ≡ true
    → find? p (xs ++ x ∷ []) ≡ some x
find?-snoc p [] x n h = rw h refl
find?-snoc p (y ∷ xs) x n h = let rest = find?-snoc p xs x in ground (arith, n, rest, h)

-- An event that is in no transition is not found.
not_taken :
    (transition_id event_id : String) (log : List (String × RunTransition))
    → taken transition_id event_id (all_transitions log) ≡ false
    → workflow_event event_id log ≡ none
not_taken transition_id event_id [] h = refl
not_taken transition_id event_id (entry ∷ log) h =
    ground (arith, h, not_taken transition_id event_id log)

move-get :
    (t : TransitionWorkflow) (current : WorkflowRun) (db db' : Store) (run : WorkflowRun)
    → move_workflow t current db ≡ ok (run, db')
    → get_workflow t.run_id db' ≡ ok run
unfolding move_workflow timestamp insert_transition
move-get t current db db' run e =
    let (allowed, version, same) = move-ok t current db db' run e in
    let fields : transition_fields (text_of t.to_status) t.reason t.error_id ≡ ok tt =
      ground (arith, e, allowed) in
    let got : get_workflow t.run_id (moved_store t current db) ≡ ok run =
      ground (arith, e, allowed, fields, version) in
    ap (get_workflow t.run_id) (sym same) ∙ got

select-get :
    (id : String) (db : Store) (row : WorkflowRow) (s : WorkflowRunStatus)
    → select_run id db.runs ≡ some row
    → parse row.status ≡ some s
    → get_workflow id db ≡ ok (record { row = row; status = s })
unfolding get_workflow workflow
select-get id db row s n m = ground (arith, n, m)

-- The same call again changes nothing and gives the same run.
transition-again :
    (t : TransitionWorkflow) (db db' : Store) (run : WorkflowRun)
    → transition_workflow t db ≡ ok (run, db')
    → transition_workflow t db' ≡ ok (run, db')
unfolding transition_workflow
transition-again t db db' run e =
    let (current, f, path) = transition-ok t db db' run e in
    elim path [
      | inl same ↦ subst (λ x. transition_workflow t x ≡ ok (run, db')) same e
      | inr (n, m) ↦
          let (allowed, version, same) = move-ok t current db db' run m in
          let entry : String × RunTransition =
            (t.run_id, next_transition t current t.occurred_at.instant) in
          let logged : workflow_event t.event_id db'.log ≡ some entry =
            ap (λ (x : Store). workflow_event t.event_id x.log) (sym same)
            ∙ find?-snoc (λ x. str_eq x.1.event_id t.event_id) db.log entry n
                (eq_refl t.event_id) in
          ground (
            arith,
            move-get t current db db' run m,
            logged,
            eq_refl t.run_id,
            eq_refl (text_of t.to_status),
          )
    ]

module _ (t : TransitionWorkflow) (current : WorkflowRun) (db : Store) (v : IsStore db)
    (once : Once db.runs) (found : get_workflow t.run_id db ≡ ok current)
    (fresh : taken t.transition_id t.event_id (all_transitions db.log) ≡ false)
    (allowed : is_member t.to_status (transitions current.status) ≡ true)
    (fields : transition_fields (text_of t.to_status) t.reason t.error_id ≡ ok tt)
    (version : current.row.version ≡ t.expected_version) (aware : t.occurred_at.aware ≡ true) where
  abbrev next_run : WorkflowRun
  next_run = record {
    row = moved_row t current t.occurred_at.instant current.row;
    status = t.to_status;
  }

  get-moved_store : get_workflow t.run_id (moved_store t current db) ≡ ok next_run
  get-moved_store =
      let (here, status) = get-select t.run_id db current found in
      let o = t.occurred_at.instant in
      let changed : select_run t.run_id (moved_store t current db).runs
          ≡ some (moved_row t current o current.row) =
        ground (
          arith,
          select-update_rows t current o t.run_id db.runs,
          here,
          swaps-current t current db v here status allowed version,
        ) in
      select-get t.run_id (moved_store t current db) (moved_row t current o current.row) t.to_status
        changed (parse-text_of t.to_status)

  moves : transition_workflow t db ≡ ok (next_run, moved_store t current db)
  unfolding transition_workflow move_workflow timestamp insert_transition
  moves =
      let (here, status) = get-select t.run_id db current found in
      let one =
        one_swap t current db.runs once here
          (swaps-current t current db v here status allowed version) in
      let none_logged = not_taken t.transition_id t.event_id db.log fresh in
      let get = get-moved_store in
      ground (arith, found, none_logged, allowed, fields, version, aware, one, fresh, get)

-- In tables that any calls have made from empty ones: a transition of a run at the version that the caller
-- expects, by a move of the table, with valid fields, a time with a zone and new identifiers, succeeds;
-- the run then has the new status and the next version; and the same call made again changes nothing and
-- gives the same run.
pub transition_workflow_lem :
    (tasks : List String) (cs : List Call) (t : TransitionWorkflow) (current : WorkflowRun)
    → get_workflow t.run_id (calls cs (empty tasks)) ≡ ok current
    → taken t.transition_id t.event_id (all_transitions (calls cs (empty tasks)).log) ≡ false
    → is_member t.to_status (transitions current.status) ≡ true
    → transition_fields (text_of t.to_status) t.reason t.error_id ≡ ok tt
    → current.row.version ≡ t.expected_version
    → t.occurred_at.aware ≡ true
    → (run : WorkflowRun) × (db : Store) × (transition_workflow t (calls cs (empty tasks))
        ≡ ok (run, db))
      × (run.status ≡ t.to_status)
      × (run.row.version ≡ suc current.row.version)
      × (transition_workflow t db ≡ ok (run, db))
transition_workflow_lem tasks cs t current found fresh allowed fields version aware =
    let db = calls cs (empty tasks) in
    let v = calls-IsStore cs (empty tasks) (empty-IsStore tasks) in
    let once = calls-Once cs (empty tasks) tt in
    let run = next_run t current db v once found fresh allowed fields version aware in
    let e = moves t current db v once found fresh allowed fields version aware in
    (
      run,
      moved_store t current db,
      e,
      refl,
      omega (arith, version),
      transition-again t db (moved_store t current db) run e,
    )

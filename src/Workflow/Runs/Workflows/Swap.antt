-- ===== src/Workflow/Runs/Workflows/Swap.antt =====
-- When a transition succeeds, and what a second delivery of its event does.
use brain_inspired_agent.Prelude.{
  ℕ, suc, String, ◌≡◌, refl, sym, ap, ◌∙◌, subst, true, false, ◌||◌, some, List, [], ◌∷◌, ◌++◌,
  filter, length, str_eq, eq_iff, arith, Bool-cases, inl, inr, Result-cases,
}
use brain_inspired_agent.Workflow.Runs.Workflows.{
  WorkflowRow, WorkflowRun, Store, CreateWorkflow, TransitionWorkflow, select_run, is_run, new_row,
  update_rows, swaps, moved_row, create_workflow, transition_workflow, Call, create_call,
  transition_call, after, call, calls,
}
use brain_inspired_agent.Workflow.Runs.Workflows.Laws.{create-ok, move-ok}
use brain_inspired_agent.Workflow.Runs.Workflows.Projection.{transition-ok}

-- The primary key: no two rows are of the same run.
abbrev pub Once : List WorkflowRow → Type 0
Once [] = Unit
Once (r ∷ rows) = (is_run r.run_id rows ≡ false) × Once rows

is_run-snoc :
    (id : String) (rows : List WorkflowRow) (row : WorkflowRow)
    → is_run id (rows ++ row ∷ []) ≡ (is_run id rows || str_eq row.run_id id)
is_run-snoc id [] row = ground arith
is_run-snoc id (r ∷ rows) row = ground (arith, is_run-snoc id rows row)

Once-snoc :
    (rows : List WorkflowRow) (row : WorkflowRow)
    → is_run row.run_id rows ≡ false
    → Once rows
    → Once (rows ++ row ∷ [])
Once-snoc [] row h o = (refl, tt)
Once-snoc (r ∷ rows) row h o = (
  ground (
    arith,
    h,
    o.0,
    is_run-snoc r.run_id rows row,
    eq_iff r.run_id row.run_id,
    eq_iff row.run_id r.run_id,
  ),
  Once-snoc rows row (ground (arith, h)) o.1,
)

is_run-update_rows :
    (t : TransitionWorkflow) (current : WorkflowRun) (o : ℕ) (id : String) (rows : List WorkflowRow)
    → is_run id (update_rows (swaps t current) (moved_row t current o) rows) ≡ is_run id rows
is_run-update_rows t current o id [] = refl
is_run-update_rows t current o id (r ∷ rows) = elim (Bool-cases (swaps t current r)) [
  | inl e ↦ ground (arith, e, is_run-update_rows t current o id rows)
  | inr e ↦ ground (arith, e, is_run-update_rows t current o id rows)
]

Once-update_rows :
    (t : TransitionWorkflow) (current : WorkflowRun) (o : ℕ) (rows : List WorkflowRow)
    → Once rows
    → Once (update_rows (swaps t current) (moved_row t current o) rows)
Once-update_rows t current o [] h = tt
Once-update_rows t current o (r ∷ rows) h =
    let rest = Once-update_rows t current o rows h.1 in
    elim (Bool-cases (swaps t current r)) [
      | inl e ↦ rw e (is_run-update_rows t current o r.run_id rows ∙ h.0, rest)
      | inr e ↦ rw e (is_run-update_rows t current o r.run_id rows ∙ h.0, rest)
    ]

create-Once :
    (c : CreateWorkflow) (db : Store) → Once db.runs → Once (after db (create_workflow c db)).runs
create-Once c db v = elim (Result-cases (create_workflow c db)) [
  | inr (x, e) ↦ subst (λ m. Once (after db m).runs) (sym e) v
  | inl ((run, db'), e) ↦
      let (fresh, same) = create-ok c db db' run e in
      subst (λ m. Once (after db m).runs) (sym e)
        (subst (λ x. Once x.runs) same
          (Once-snoc db.runs (new_row c c.deadline.instant c.created_at.instant) fresh v))
]

transition-Once :
    (t : TransitionWorkflow) (db : Store)
    → Once db.runs
    → Once (after db (transition_workflow t db)).runs
transition-Once t db v = elim (Result-cases (transition_workflow t db)) [
  | inr (x, e) ↦ subst (λ m. Once (after db m).runs) (sym e) v
  | inl ((run, db'), e) ↦
      subst (λ m. Once (after db m).runs) (sym e)
        (let (current, f, path) = transition-ok t db db' run e in
          elim path [
            | inl same ↦ subst (λ x. Once x.runs) same v
            | inr (n, m) ↦
                subst (λ x. Once x.runs) (move-ok t current db db' run m).2
                  (Once-update_rows t current t.occurred_at.instant db.runs v)
          ])
]

pub calls-Once : (cs : List Call) (db : Store) → Once db.runs → Once (calls cs db).runs
unfolding calls call
calls-Once [] db v = v
calls-Once (create_call c ∷ cs) db v =
    calls-Once cs (after db (create_workflow c db)) (create-Once c db v)
calls-Once (transition_call t ∷ cs) db v =
    calls-Once cs (after db (transition_workflow t db)) (transition-Once t db v)

no_swaps :
    (t : TransitionWorkflow) (current : WorkflowRun) (rows : List WorkflowRow)
    → is_run t.run_id rows ≡ false
    → length (filter (swaps t current) rows) ≡ 0
no_swaps t current [] h = refl
no_swaps t current (r ∷ rows) h =
    let apart : str_eq r.run_id t.run_id ≡ false = ground (arith, h) in
    let stays : swaps t current r ≡ false = rw apart refl in
    rw stays (no_swaps t current rows (ground (arith, h)))

-- The row that was read is the only one that the update changes.
pub one_swap :
    (t : TransitionWorkflow) (current : WorkflowRun) (rows : List WorkflowRow)
    → Once rows
    → select_run t.run_id rows ≡ some current.row
    → swaps t current current.row ≡ true
    → length (filter (swaps t current) rows) ≡ 1
one_swap t current [] o f s = absurd (ground (arith, f))
one_swap t current (r ∷ rows) o f s = elim (Bool-cases (str_eq r.run_id t.run_id)) [
  | inl e ↦
      let same : current.row ≡ r = ground (arith, f, e) in
      let here : swaps t current r ≡ true = subst (λ x. swaps t current x ≡ true) same s in
      let alone : is_run t.run_id rows ≡ false =
        subst (λ k. is_run k rows ≡ false) ((eq_iff r.run_id t.run_id).0 e) o.0 in
      rw here (ap suc (no_swaps t current rows alone))
  | inr e ↦
      let stays : swaps t current r ≡ false = rw e refl in
      rw stays (one_swap t current rows o.1 (ground (arith, f, e)) s)
]

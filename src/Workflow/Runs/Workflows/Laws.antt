-- ===== src/Workflow/Runs/Workflows/Laws.antt =====
-- The rows of the runs and the log of their transitions, together, after any calls.
use brain_inspired_agent.Prelude.{
  ℕ, suc, ◌+◌, String, ◌≡◌, refl, sym, ap, ◌∙◌, Bool, true, false, Option, none, some, List, [],
  ◌∷◌, ◌++◌, find?_holds, ==_iff, str_eq, eq_iff, eq_refl, arith, if◌then◌else◌, Bool-cases,
  Option-cases, inl, inr, ok,
}
use brain_inspired_agent.Workflow.Runs.{RunTransition, timestamp, identity, transition_fields}
use brain_inspired_agent.Workflow.Runs.Workflows.{
  WorkflowRunStatus, pending, text_of, parse, is_member, transitions, WorkflowRow, WorkflowRun,
  Store, CreateWorkflow, TransitionWorkflow, select_run, workflow, get_workflow, transitions_of,
  is_run, insert_transition, new_row, created_transition, create_workflow, update_rows, swaps,
  moved_row, next_transition, move_workflow,
}
use brain_inspired_agent.Workflow.Runs.Workflows.Replay.{
  moved, moved_lem, replay, replay-snoc, parse-text_of, text_of-parse,
}

-- What the log says of a run is what its row says.
abbrev Agrees : List WorkflowRow → List (String × RunTransition) → String → Type 0
Agrees runs log id =
    (select_run id runs ≡ none → transitions_of id log ≡ [])
    × ((row : WorkflowRow)
        → select_run id runs ≡ some row
        → (s : WorkflowRunStatus) × (parse row.status ≡ some s)
          × (replay (transitions_of id log) ≡ some (s, row.version)))

abbrev pub IsStore : Store → Type 0
IsStore db = (id : String) → Agrees db.runs db.log id

transitions_of-snoc :
    (id key : String) (t : RunTransition) (log : List (String × RunTransition))
    → transitions_of id (log ++ (key, t) ∷ [])
      ≡ (if str_eq key id then transitions_of id log ++ t ∷ [] else transitions_of id log)
transitions_of-snoc id key t [] = ground arith
transitions_of-snoc id key t ((k, u) ∷ log) = ground (arith, transitions_of-snoc id key t log)

select-snoc :
    (id : String) (row : WorkflowRow) (rows : List WorkflowRow)
    → is_run row.run_id rows ≡ false
    → select_run id (rows ++ row ∷ [])
      ≡ (if str_eq row.run_id id then some row else select_run id rows)
select-snoc id row [] h = refl
select-snoc id row (r ∷ rows) h = ground (
  arith,
  h,
  select-snoc id row rows,
  eq_iff r.run_id id,
  eq_iff row.run_id id,
  eq_iff r.run_id row.run_id,
)

no_run :
    (id : String) (rows : List WorkflowRow) → is_run id rows ≡ false → select_run id rows ≡ none
no_run id [] h = refl
no_run id (r ∷ rows) h = ground (arith, h, no_run id rows)

abbrev pub created : CreateWorkflow → Store → Store
created c db = record db {
  runs = db.runs ++ new_row c c.deadline.instant c.created_at.instant ∷ [];
  log = db.log ++ (c.run_id, created_transition c c.created_at.instant) ∷ [];
}

pub create-ok :
    (c : CreateWorkflow) (db db' : Store) (run : WorkflowRun)
    → create_workflow c db ≡ ok (run, db')
    → (is_run c.run_id db.runs ≡ false) × (created c db ≡ db')
unfolding create_workflow identity timestamp insert_transition
create-ok c db db' run e =
    let same : created c db ≡ db' = ground (arith, e) in (ground (arith, e), same)

-- The row that a transition starts from, and the tables after it.
abbrev pub moved_store : TransitionWorkflow → WorkflowRun → Store → Store
moved_store t current db = record db {
  runs = update_rows (swaps t current) (moved_row t current t.occurred_at.instant) db.runs;
  log = db.log ++ (t.run_id, next_transition t current t.occurred_at.instant) ∷ [];
}

pub move-ok :
    (t : TransitionWorkflow) (current : WorkflowRun) (db db' : Store) (run : WorkflowRun)
    → move_workflow t current db ≡ ok (run, db')
    → (is_member t.to_status (transitions current.status) ≡ true)
      × (current.row.version ≡ t.expected_version)
      × (moved_store t current db ≡ db')
unfolding move_workflow timestamp insert_transition
move-ok t current db db' run e =
    let allowed : is_member t.to_status (transitions current.status) ≡ true = ground (arith, e) in
    let fields : transition_fields (text_of t.to_status) t.reason t.error_id ≡ ok tt =
      ground (arith, e, allowed) in
    let version : current.row.version ≡ t.expected_version = ground (arith, e, allowed, fields) in
    (allowed, version, ground (arith, e, allowed, fields, version))

pub created-IsStore :
    (c : CreateWorkflow) (db : Store)
    → is_run c.run_id db.runs ≡ false
    → IsStore db
    → IsStore (created c db)
created-IsStore c db fresh v id =
    let row = new_row c c.deadline.instant c.created_at.instant in
    let t = created_transition c c.created_at.instant in
    let rows = select-snoc id row db.runs fresh in
    let log = transitions_of-snoc id c.run_id t db.log in
    elim (Bool-cases (str_eq c.run_id id)) [
      | inl e ↦
          let same = (eq_iff c.run_id id).0 e in
          let old : select_run id db.runs ≡ none =
            no_run id db.runs (ap (λ k. is_run k db.runs) (sym same) ∙ fresh) in
          let empty = (v id).0 old in
          let history : transitions_of id (created c db).log ≡ t ∷ [] =
            ground (arith, log, e, empty) in
          (
            λ h. absurd (ground (arith, h, rows, e)),
            λ r h.
                let here : row ≡ r = ground (arith, h, rows, e) in
                (
                  pending,
                  ap (λ x. parse x.status) (sym here),
                  ap replay history ∙ ap (λ x. some (pending, x.version)) here,
                ),
          )
      | inr e ↦ (
        λ h. ground (arith, log, e, (v id).0, h, rows),
        λ r h.
            let (s, p, q) = (v id).1 r (ground (arith, h, rows, e)) in
            let history : transitions_of id (created c db).log ≡ transitions_of id db.log =
              ground (arith, log, e) in
            (s, p, ap replay history ∙ q),
      )
    ]

run_id-moved_row :
    (t : TransitionWorkflow) (current : WorkflowRun) (o : ℕ) (r : WorkflowRow)
    → (moved_row t current o r).run_id ≡ r.run_id
run_id-moved_row t current o r = refl

abbrev pub option_update :
    (WorkflowRow → Bool) → (WorkflowRow → WorkflowRow) → Option WorkflowRow → Option WorkflowRow
option_update p f none = none
option_update p f (some r) = some (if p r then f r else r)

pub select-update_rows :
    (t : TransitionWorkflow) (current : WorkflowRun) (o : ℕ) (id : String) (rows : List WorkflowRow)
    → select_run id (update_rows (swaps t current) (moved_row t current o) rows)
      ≡ option_update (swaps t current) (moved_row t current o) (select_run id rows)
select-update_rows t current o id [] = refl
select-update_rows t current o id (r ∷ rows) = elim (Bool-cases (swaps t current r)) [
  | inl e ↦ ground (arith, e, select-update_rows t current o id rows)
  | inr e ↦ ground (arith, e, select-update_rows t current o id rows)
]

-- The run that `get_workflow` gives is read from its row.
pub get-select :
    (id : String) (db : Store) (current : WorkflowRun)
    → get_workflow id db ≡ ok current
    → (select_run id db.runs ≡ some current.row) × (parse current.row.status ≡ some current.status)
unfolding get_workflow workflow
get-select id db current e = elim (Option-cases (select_run id db.runs)) [
  | inl n ↦ absurd (ground (arith, e, n))
  | inr (row, n) ↦ elim (Option-cases (parse row.status)) [
    | inl m ↦ absurd (ground (arith, e, n, m))
    | inr (s, m) ↦
        let run : record { row = row; status = s } ≡ current = ground (arith, e, n, m) in
        let same : row ≡ current.row = ap (λ (x : WorkflowRun). x.row) run in
        let status : s ≡ current.status = ap (λ (x : WorkflowRun). x.status) run in
        (n ∙ ap some same, ap (λ (x : WorkflowRow). parse x.status) (sym same) ∙ m ∙ ap some status)
  ]
]

pub select-run_id :
    (id : String) (rows : List WorkflowRow) (row : WorkflowRow)
    → select_run id rows ≡ some row
    → row.run_id ≡ id
select-run_id id rows row e =
    (eq_iff row.run_id id).0 (find?_holds (λ r. str_eq r.run_id id) rows row e)

module _ (t : TransitionWorkflow) (current : WorkflowRun) (db : Store) (v : IsStore db)
    (found : select_run t.run_id db.runs ≡ some current.row)
    (status : parse current.row.status ≡ some current.status)
    (allowed : is_member t.to_status (transitions current.status) ≡ true)
    (version : current.row.version ≡ t.expected_version) where
  pub swaps-current : swaps t current current.row ≡ true
  swaps-current = ground (
    arith,
    (eq_iff current.row.run_id t.run_id).1 (select-run_id t.run_id db.runs current.row found),
    (eq_iff current.row.status (text_of current.status)).1
        (sym (text_of-parse current.row.status current.status status)),
    version,
  )

  moved-next :
      moved current.status current.row.version (next_transition t current t.occurred_at.instant)
      ≡ some t.to_status
  moved-next =
      moved_lem current.status t.to_status current.row.version
        (next_transition t current t.occurred_at.instant) (parse-text_of t.to_status)
        (eq_refl (text_of current.status)) allowed
        ((==_iff (t.expected_version + 1) (suc current.row.version)).1 (omega (arith, version)))

  pub moved-IsStore : IsStore (moved_store t current db)
  moved-IsStore id =
      let o = t.occurred_at.instant in
      let rows = select-update_rows t current o id db.runs in
      let log = transitions_of-snoc id t.run_id (next_transition t current o) db.log in
      elim (Bool-cases (str_eq t.run_id id)) [
        | inl e ↦
            let same = (eq_iff t.run_id id).0 e in
            let here : select_run id db.runs ≡ some current.row =
              ap (λ k. select_run k db.runs) (sym same) ∙ found in
            let (s, p, q) = (v id).1 current.row here in
            let last : s ≡ current.status = ground (arith, p, status) in
            let history : transitions_of id (moved_store t current db).log
                ≡ transitions_of id db.log ++ next_transition t current o ∷ [] =
              ground (arith, log, e) in
            let now =
              replay-snoc (transitions_of id db.log) (next_transition t current o) current.status
                t.to_status current.row.version (q ∙ ap (λ x. some (x, current.row.version)) last)
                moved-next in
            let changed : select_run id (moved_store t current db).runs
                ≡ some (moved_row t current o current.row) =
              ground (arith, rows, here, swaps-current) in
            (
              λ h. absurd (ground (arith, h, changed)),
              λ r h.
                  let row : moved_row t current o current.row ≡ r = ground (arith, h, changed) in
                  (
                    t.to_status,
                    ap (λ (x : WorkflowRow). parse x.status) (sym row) ∙ parse-text_of t.to_status,
                    ap replay history
                        ∙ now
                        ∙ ground (arith, version, ap (λ (x : WorkflowRow). x.version) row),
                  ),
            )
        | inr e ↦
            let history : transitions_of id (moved_store t current db).log
                ≡ transitions_of id db.log =
              ground (arith, log, e) in
            elim (Option-cases (select_run id db.runs)) [
              | inl n ↦ (λ h. history ∙ (v id).0 n, λ r h. absurd (ground (arith, h, rows, n)))
              | inr (old, n) ↦
                  let other : swaps t current old ≡ false = ground (
                    arith,
                    e,
                    select-run_id id db.runs old n,
                    eq_iff t.run_id id,
                    eq_iff old.run_id t.run_id,
                  ) in
                  let (s, p, q) = (v id).1 old n in
                  let kept : select_run id (moved_store t current db).runs ≡ some old =
                    ground (arith, rows, n, other) in
                  (
                    λ h. absurd (ground (arith, h, kept)),
                    λ r h.
                        let row : old ≡ r = ground (arith, h, kept) in
                        (
                          s,
                          ap (λ (x : WorkflowRow). parse x.status) (sym row) ∙ p,
                          ap replay history ∙ q ∙ ap (λ (x : WorkflowRow). some (s, x.version)) row,
                        ),
                  )
            ]
      ]

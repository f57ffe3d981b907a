-- ===== src/Planning/Validation/Laws.antt =====
-- What a plan that the validator accepts is known to be.
use brain_inspired_agent.Prelude.{
  ℕ, ◌≤◌, ◌<◌, String, ◌≡◌, ap, ◌∙◌, true, false, not, ◌||◌, List, [], ◌∷◌, any, has, leb, str_eq,
  eq_iff, arith, inl, inr, Dict, lookup, insert, lookup-insert, All, ok, Result-cases,
}
use brain_inspired_agent.Workflow.Graph.{targets}
use brain_inspired_agent.Workflow.Graph.Loop.{keys}
use brain_inspired_agent.Workflow.Registry.{WorkflowDefinition, is_active, get}
use brain_inspired_agent.Planning.Acyclic.{Search, assert_acyclic}
use brain_inspired_agent.Workflow.Graph.Counts.{Within}
use brain_inspired_agent.Planning.Acyclic.Visit.{Finished, assert_acyclic_lem}
use brain_inspired_agent.Planning.Validation.{
  PlanTask, PlanDocument, ValidatedTask, ValidatedPlan, PlanValidator, create_plan, check_task,
  check_tasks, task_ids, edges_of, validate_plan,
}

-- The dependencies are tasks, the workflow is registered and active, the parameters fit its input, and the
-- deadline is in the future and within the plan's validity.
abbrev pub IsAllowed : PlanValidator → ℕ → PlanDocument → PlanTask → Type 0
IsAllowed v now d t =
    ((k : String) → has k t.depends_on ≡ true → has k (task_ids d.tasks) ≡ true)
    × ((w : WorkflowDefinition) × (get t.workflow_id t.workflow_version v.registry ≡ ok w)
        × (is_active w.status ≡ true)
        × (v.fits_input w.definition t.params ≡ true))
    × (now < t.deadline)
    × (t.deadline ≤ d.expires_at)

all_known :
    (ids ds : List String)
    → any (λ d. not (has d ids)) ds ≡ false
    → (k : String) → has k ds ≡ true
    → has k ids ≡ true
all_known ids [] h k e = absurd (ground (arith, e))
all_known ids (d ∷ ds) h k e = ground (
  arith,
  h,
  e,
  all_known ids ds,
  eq_iff d k,
  ap (λ t. has t ids) {x = d} {y = k},
  all_known ids ds (ground (arith, h)) k,
)

check_task-IsAllowed :
    (v : PlanValidator) (now : ℕ) (d : PlanDocument) (t : PlanTask) (x : ValidatedTask)
    → check_task v now d.expires_at (task_ids d.tasks) t ≡ ok x
    → IsAllowed v now d t
unfolding check_task
check_task-IsAllowed v now d t x e =
    let known : any (λ k. not (has k (task_ids d.tasks))) t.depends_on ≡ false =
      ground (arith, e) in
    elim (Result-cases (get t.workflow_id t.workflow_version v.registry)) [
      | inr (y, f) ↦ absurd (ground (arith, e, f, known))
      | inl (w, f) ↦
          let active : is_active w.status ≡ true = ground (arith, e, f, known) in
          let fits : v.fits_input w.definition t.params ≡ true =
            ground (arith, e, f, known, active) in
          let before : leb t.deadline d.expires_at ≡ true =
            ground (arith, e, f, known, active, fits) in
          let later : leb t.deadline now ≡ false =
            ground (arith, e, f, known, active, fits, before) in
          (
            all_known (task_ids d.tasks) t.depends_on known,
            (w, f, active, fits),
            ground (arith, later),
            ground (arith, before),
          )
    ]

check_tasks-IsAllowed :
    (v : PlanValidator) (now : ℕ) (d : PlanDocument) (ts : List PlanTask) (xs : List ValidatedTask)
    → check_tasks v now d.expires_at (task_ids d.tasks) ts ≡ ok xs
    → All (IsAllowed v now d) ts
unfolding check_tasks
check_tasks-IsAllowed v now d [] xs e = tt
check_tasks-IsAllowed v now d (t ∷ ts) xs e =
    elim (Result-cases (check_task v now d.expires_at (task_ids d.tasks) t)) [
      | inr (y, f) ↦ absurd (ground (arith, e, f))
      | inl (x, f) ↦ elim (Result-cases (check_tasks v now d.expires_at (task_ids d.tasks) ts)) [
        | inr (y, g) ↦ absurd (ground (arith, e, f, g))
        | inl (rest, g) ↦
            (check_task-IsAllowed v now d t x f, check_tasks-IsAllowed v now d ts rest g)
      ]
    ]

has-keys-insert :
    (n k : String) (ds : List String) (es : Dict (List String))
    → has k (keys (insert n ds es)) ≡ (has k (keys es) || str_eq n k)
unfolding insert
has-keys-insert n k ds [] = ground arith
has-keys-insert n k ds ((a, us) ∷ es) =
    ground (arith, has-keys-insert n k ds es, eq_iff a n, ap (λ t. str_eq t k) {x = a} {y = n})

has-keys-edges_of :
    (k : String) (ts : List PlanTask) (es : Dict (List String))
    → has k (keys (edges_of ts es)) ≡ (has k (keys es) || has k (task_ids ts))
has-keys-edges_of k [] es = ground arith
has-keys-edges_of k (t ∷ ts) es = ground (
  arith,
  has-keys-edges_of k ts (insert t.task_id t.depends_on es),
  has-keys-insert t.task_id k t.depends_on es,
)

abbrev Closed : List String → Dict (List String) → Type 0
Closed ids es = (a d : String) → has d (targets es a) ≡ true → has d ids ≡ true

Closed-insert :
    (ids : List String) (n : String) (ds : List String) (es : Dict (List String))
    → ((d : String) → has d ds ≡ true → has d ids ≡ true)
    → Closed ids es
    → Closed ids (insert n ds es)
Closed-insert ids n ds es w c a d h = ground (arith, h, lookup-insert n a ds es, w d, c a d)

Closed-edges_of :
    (v : PlanValidator) (now : ℕ) (doc : PlanDocument) (ts : List PlanTask)
    (es : Dict (List String))
    → All (IsAllowed v now doc) ts
    → Closed (task_ids doc.tasks) es
    → Closed (task_ids doc.tasks) (edges_of ts es)
Closed-edges_of v now doc [] es a c = c
Closed-edges_of v now doc (t ∷ ts) es a c =
    Closed-edges_of v now doc ts (insert t.task_id t.depends_on es) a.1
      (Closed-insert (task_ids doc.tasks) t.task_id t.depends_on es a.0.0 c)

-- The parts of an accepted plan.
validate_plan-parts :
    (v : PlanValidator) (now : ℕ) (d : PlanDocument) (p : ValidatedPlan)
    → validate_plan v now d ≡ ok p
    → (leb d.expires_at now ≡ false)
      × (xs : List ValidatedTask) × (check_tasks v now d.expires_at (task_ids d.tasks) d.tasks
          ≡ ok xs)
      × (s : Search) × (assert_acyclic (edges_of d.tasks []) ≡ ok s)
unfolding validate_plan create_plan
validate_plan-parts v now d p e =
    elim (Result-cases (check_tasks v now d.expires_at (task_ids d.tasks) d.tasks)) [
      | inr (y, f) ↦ absurd (ground (arith, e, f))
      | inl (xs, f) ↦ elim (Result-cases (assert_acyclic (edges_of d.tasks []))) [
        | inr (y, g) ↦ absurd (ground (arith, e, f, g))
        | inl (s, g) ↦ (ground (arith, e, f, g), xs, f, s, g)
      ]
    ]

-- An accepted plan has not expired; every task of it depends on tasks of the plan, names a registered
-- active workflow whose input its parameters fit, and has a deadline in the future and within the plan's
-- validity; and the tasks can be listed, latest first, with each of them before all of its dependencies,
-- where the dependencies of an identifier are those of the last task with it.
pub validate_plan_lem :
    (v : PlanValidator) (now : ℕ) (d : PlanDocument) (p : ValidatedPlan)
    → validate_plan v now d ≡ ok p
    → (now < d.expires_at)
      × All (IsAllowed v now d) d.tasks
      × (order : List String) × Finished (edges_of d.tasks []) order
      × Within (task_ids d.tasks) order
unfolding lookup
validate_plan_lem v now d p e =
    let (valid, xs, f, s, g) = validate_plan-parts v now d p e in
    let allowed = check_tasks-IsAllowed v now d d.tasks xs f in
    let edges = edges_of d.tasks [] in
    let closed = Closed-edges_of v now d d.tasks [] allowed (λ a k h. absurd (ground (arith, h))) in
    let (fin, all) =
      (assert_acyclic_lem edges (λ a k h. has-keys-edges_of k d.tasks [] ∙ closed a k h)).0 s g in
    (
      ground (arith, valid),
      allowed,
      s.visited,
      fin,
      λ k h. all k (has-keys-edges_of k d.tasks [] ∙ h),
    )

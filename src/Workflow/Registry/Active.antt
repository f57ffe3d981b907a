-- ===== src/Workflow/Registry/Active.antt =====
-- The registry after any sequence of calls.
use brain_inspired_agent.Prelude.{
  String, ◌≡◌, true, ◌≢◌, some, List, [], ◌∷◌, arith, Option-cases, inl, inr, lookup, ok, raise,
}
use brain_inspired_agent.Prelude.Pairs.{PairDict, find_pair, put_pair}
use brain_inspired_agent.Workflow.Validator.{WorkflowValidator}
use brain_inspired_agent.Workflow.Registry.{
  deprecated, is_active, WorkflowDefinition, Registry, key_error, empty, with_status, register,
  deprecate, switch, activate, get, active_of, Call, register_call, activate_call, after, call,
  calls,
}
use brain_inspired_agent.Workflow.Registry.Laws.{
  IsRegistry, empty-IsRegistry, register-IsRegistry, switched-IsRegistry, deprecate-IsCleared,
  activate_elim,
}

-- The key of the active version is always one of the dictionary.
deprecate-defined :
    (key : String × String) (r : Registry)
    → IsRegistry r
    → (definitions : PairDict WorkflowDefinition) × (deprecate
          (lookup key.0 r.active_keys)
          r.definitions
        ≡ ok definitions)
unfolding deprecate
deprecate-defined key r v = elim (Option-cases (lookup key.0 r.active_keys)) [
  | inl n ↦ (r.definitions, ground (arith, n))
  | inr (previous, n) ↦ elim (Option-cases (find_pair previous r.definitions)) [
    | inl m ↦ absurd (ground (arith, (v.pointed key.0 previous n).1, m))
    | inr (item, m) ↦
        (put_pair previous (with_status item deprecated) r.definitions, ground (arith, n, m))
  ]
]

-- What `activate` does in a registry of this kind.
abbrev Activates : String → String → Registry → Type 0
Activates id version r =
    IsRegistry (after r (activate id version r)) × (activate id version r ≢ raise key_error)

switch-IsRegistry :
    (key : String × String) (item : WorkflowDefinition) (r : Registry)
    → IsRegistry r
    → IsRegistry (after r (switch key item r)) × (switch key item r ≢ raise key_error)
unfolding switch
switch-IsRegistry key item r v =
    let (definitions, e) = deprecate-defined key r v in
    rw e (
      switched-IsRegistry key item definitions r v (deprecate-IsCleared key r definitions v e),
      λ h. ground (arith, h),
    )

activate-IsRegistry : (id version : String) (r : Registry) → IsRegistry r → Activates id version r
activate-IsRegistry id version r v =
    activate_elim id version r (λ m. IsRegistry (after r m) × (m ≢ raise key_error))
      (v, λ h. ground (arith, h)) (λ item f. (v, λ h. ground (arith, h)))
      (λ item f. switch-IsRegistry (id, version) item r v)

calls-IsRegistry : (cs : List Call) (r : Registry) → IsRegistry r → IsRegistry (calls cs r)
unfolding calls call
calls-IsRegistry [] r v = v
calls-IsRegistry (register_call d status ∷ cs) r v =
    calls-IsRegistry cs (after r (register d status r)) (register-IsRegistry d status r v)
calls-IsRegistry (activate_call id version ∷ cs) r v =
    calls-IsRegistry cs (after r (activate id version r)) (activate-IsRegistry id version r v).0

-- After any calls on a new registry: two registered versions of a workflow that are both active are the
-- same version, an active version is the one that `active_of` gives for its workflow, what `active_of`
-- gives is active, and neither it nor `activate` reads a key that its dictionary lacks.
pub calls_lem :
    (w : WorkflowValidator) (cs : List Call) (id : String)
    → ((a b : String) (x y : WorkflowDefinition)
        → get id a (calls cs (empty w)) ≡ ok x
        → get id b (calls cs (empty w)) ≡ ok y
        → is_active x.status ≡ true
        → is_active y.status ≡ true
        → (a ≡ b) × (active_of id (calls cs (empty w)) ≡ ok x))
      × ((x : WorkflowDefinition)
          → active_of id (calls cs (empty w)) ≡ ok x
          → is_active x.status ≡ true)
      × (active_of id (calls cs (empty w)) ≢ raise key_error)
      × ((version : String) → activate id version (calls cs (empty w)) ≢ raise key_error)
unfolding get active_of
calls_lem w cs id =
    let r = calls cs (empty w) in
    let v = calls-IsRegistry cs (empty w) (empty-IsRegistry w) in
    (
      λ a b x y ha hb sa sb.
          let fa : find_pair (id, a) r.definitions ≡ some x = ground (arith, ha) in
          let fb : find_pair (id, b) r.definitions ≡ some y = ground (arith, hb) in
          let ka = v.only (id, a) (ground (arith, fa, sa)) in
          let kb = v.only (id, b) (ground (arith, fb, sb)) in
          (ground (arith, ka, kb), ground (arith, ka, fa)),
      λ x h. active_is x h v,
      λ h. active_found h v,
      λ version. (activate-IsRegistry id version r v).1,
    )
  where
    active_is :
        (x : WorkflowDefinition)
        → active_of id (calls cs (empty w)) ≡ ok x
        → IsRegistry (calls cs (empty w))
        → is_active x.status ≡ true
    active_is x h v = elim (Option-cases (lookup id (calls cs (empty w)).active_keys)) [
      | inl n ↦ absurd (ground (arith, h, n))
      | inr (key, n) ↦ ground (arith, h, n, (v.pointed id key n).1)
    ]

    active_found :
        active_of id (calls cs (empty w)) ≡ raise key_error → IsRegistry (calls cs (empty w)) → ⊥
    active_found h v = elim (Option-cases (lookup id (calls cs (empty w)).active_keys)) [
      | inl n ↦ ground (arith, h, n)
      | inr (key, n) ↦ ground (arith, h, n, (v.pointed id key n).1)
    ]

-- ===== src/Workflow/Registry/Once.antt =====
-- What a version was registered with stays.
use brain_inspired_agent.Prelude.{
  String, ◌≡◌, ap, Option, none, some, List, [], ◌∷◌, arith, Bool-cases, Option-cases, inl, inr,
  lookup, ok, Result-cases,
}
use brain_inspired_agent.Prelude.Pairs.{PairDict, find_pair, put_pair, find-put, same_pair_eq}
use brain_inspired_agent.Workflow.Validator.{Definition, WorkflowValidation, validate}
use brain_inspired_agent.Workflow.Registry.{
  WorkflowStatus, active, deprecated, is_active, WorkflowDefinition, Registry, key_of, keys_of,
  new_item, with_status, register, deprecate, switch, activate, get, Call, register_call,
  activate_call, after, call, calls,
}
use brain_inspired_agent.Workflow.Registry.Laws.{activate_elim}

-- All but the status.
abbrev pub contents :
    WorkflowDefinition → String × String × String × Definition × WorkflowValidation
contents item = (item.workflow_id, item.version, item.digest, item.definition, item.validation)

abbrev option_contents :
    Option WorkflowDefinition → Option (String × String × String × Definition × WorkflowValidation)
option_contents none = none
option_contents (some item) = some (contents item)

abbrev contents_at :
    String × String
    → PairDict WorkflowDefinition
    → Option (String × String × String × Definition × WorkflowValidation)
contents_at key definitions = option_contents (find_pair key definitions)

-- Every version that is registered stays with its contents.
abbrev Keeps : PairDict WorkflowDefinition → PairDict WorkflowDefinition → Type 0
Keeps before now =
    (key : String × String) (x : String × String × String × Definition × WorkflowValidation)
    → contents_at key before ≡ some x
    → contents_at key now ≡ some x

put_status-Keeps :
    (key : String × String) (item : WorkflowDefinition) (s : WorkflowStatus)
    (definitions : PairDict WorkflowDefinition)
    → contents_at key definitions ≡ some (contents item)
    → Keeps definitions (put_pair key (with_status item s) definitions)
put_status-Keeps key item s definitions f k x h = ground (
  arith,
  find-put key k (with_status item s) definitions,
  f,
  h,
  same_pair_eq key k,
  ap (λ t. contents_at t definitions) {x = key} {y = k},
)

put_new-Keeps :
    (key : String × String) (item : WorkflowDefinition) (definitions : PairDict WorkflowDefinition)
    → find_pair key definitions ≡ none
    → Keeps definitions (put_pair key item definitions)
put_new-Keeps key item definitions f k x h = ground (
  arith,
  find-put key k item definitions,
  f,
  h,
  same_pair_eq key k,
  ap (λ t. contents_at t definitions) {x = key} {y = k},
)

register-Keeps :
    (d : Definition) (status : WorkflowStatus) (r : Registry)
    → Keeps r.definitions (after r (register d status r)).definitions
unfolding register
register-Keeps d status r =
    elim (Result-cases (validate r.validator d (some (keys_of r.definitions)))) [
      | inr (x, f) ↦ rw f (λ k y h. h)
      | inl (w, f) ↦ elim (Option-cases (find_pair (key_of w) r.definitions)) [
        | inr (item, g) ↦ rw (f, g) (λ k y h. h)
        | inl g ↦ elim (Bool-cases (is_active status)) [
          | inl a ↦ rw (f, g, a) (λ k y h. h)
          | inr a ↦ rw (f, g, a) (put_new-Keeps (key_of w) (new_item d status w) r.definitions g)
        ]
      ]
    ]

deprecate-Keeps :
    (previous : Option (String × String)) (before now : PairDict WorkflowDefinition)
    → deprecate previous before ≡ ok now
    → Keeps before now
unfolding deprecate
deprecate-Keeps none before now e k x h = ground (arith, e, h)
deprecate-Keeps (some key) before now e k x h = elim (Option-cases (find_pair key before)) [
  | inl m ↦ absurd (ground (arith, e, m))
  | inr (item, m) ↦
      let kept = put_status-Keeps key item deprecated before (ap option_contents m) k x h in
      ground (arith, e, m, kept)
]

switch-Keeps :
    (key : String × String) (item : WorkflowDefinition) (r : Registry)
    → find_pair key r.definitions ≡ some item
    → Keeps r.definitions (after r (switch key item r)).definitions
unfolding switch
switch-Keeps key item r f =
    elim (Result-cases (deprecate (lookup key.0 r.active_keys) r.definitions)) [
      | inr (x, e) ↦ rw e (λ k y h. h)
      | inl (now, e) ↦
          let first = deprecate-Keeps (lookup key.0 r.active_keys) r.definitions now e in
          let here = first key (contents item) (ap option_contents f) in
          rw e (λ k y h. put_status-Keeps key item active now here k y (first k y h))
    ]

activate-Keeps :
    (id version : String) (r : Registry)
    → Keeps r.definitions (after r (activate id version r)).definitions
activate-Keeps id version r =
    activate_elim id version r (λ m. Keeps r.definitions (after r m).definitions) (λ k x h. h)
      (λ item f k x h. h) (λ item f. switch-Keeps (id, version) item r f)

calls-Keeps : (cs : List Call) (r : Registry) → Keeps r.definitions (calls cs r).definitions
unfolding calls call
calls-Keeps [] r k x h = h
calls-Keeps (register_call d status ∷ cs) r k x h =
    calls-Keeps cs (after r (register d status r)) k x (register-Keeps d status r k x h)
calls-Keeps (activate_call id version ∷ cs) r k x h =
    calls-Keeps cs (after r (activate id version r)) k x (activate-Keeps id version r k x h)

-- What `get` gives for a version, it gives after any further calls of `register` and `activate`, with the
-- same identifier, version, digest, definition and validation: only the status may differ.
pub get-calls :
    (cs : List Call) (id version : String) (r : Registry) (item : WorkflowDefinition)
    → get id version r ≡ ok item
    → (item' : WorkflowDefinition) × (get id version (calls cs r) ≡ ok item')
      × (contents item' ≡ contents item)
unfolding get
get-calls cs id version r item e =
    let f : find_pair (id, version) r.definitions ≡ some item = ground (arith, e) in
    let kept = calls-Keeps cs r (id, version) (contents item) (ap option_contents f) in
    elim (Option-cases (find_pair (id, version) (calls cs r).definitions)) [
      | inl n ↦ absurd (ground (arith, kept, n))
      | inr (item', n) ↦ (item', ground (arith, n), ground (arith, kept, n))
    ]

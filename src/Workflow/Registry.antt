-- ===== src/Workflow/Registry.antt =====
-- `WorkflowRegistry` of workflow.py: the versions of each workflow, and the active one. The two
-- dictionaries of the object are its state; an operation gives its result with the state after it, and an
-- exception leaves the state as it was.
pub mod Laws
pub mod Active
pub mod Once
mod Tests
use brain_inspired_agent.Prelude.{
  String, Bool, true, false, Option, none, some, List, [], ◌∷◌, map, if◌then◌else◌, Dict, lookup,
  insert, Result, ok, raise, ◌>>=◌, ◌>>◌, reject_if,
}
use brain_inspired_agent.Prelude.Pairs.{PairDict, find_pair, put_pair}
use brain_inspired_agent.Workflow.Validator.{
  Definition, WorkflowValidation, WorkflowValidator, ValidationError, validate,
}

pub data WorkflowStatus : Type 0 where
  draft validated active deprecated : WorkflowStatus

abbrev pub is_active : WorkflowStatus → Bool
is_active active = true
is_active _ = false

pub record WorkflowDefinition : Type 0 where
  pub workflow_id : String
  pub version : String
  pub status : WorkflowStatus
  pub digest : String
  pub definition : Definition
  pub validation : WorkflowValidation

pub record Registry : Type 0 where
  pub validator : WorkflowValidator
  pub definitions : PairDict WorkflowDefinition
  pub active_keys : Dict (String × String)

pub data RegistryError : Type 0 where
  not_valid : ValidationError → RegistryError
  already_registered activation_not_explicit not_found no_active : RegistryError
  -- A key that is read from a dictionary without it.
  key_error : RegistryError

abbrev pub empty : WorkflowValidator → Registry
empty w = record { validator = w; definitions = []; active_keys = [] }

abbrev from_validation {ℓ} : {A : Type ℓ} → Result ValidationError A → Result RegistryError A
from_validation (ok a) = ok a
from_validation (raise e) = raise (not_valid e)

abbrev pub keys_of : PairDict WorkflowDefinition → List (String × String)
keys_of [] = []
keys_of ((key, item) ∷ rest) = key ∷ keys_of rest

abbrev is_registered : Option WorkflowDefinition → Bool
is_registered none = false
is_registered (some item) = true

abbrev pub key_of : WorkflowValidation → String × String
key_of v = (v.workflow_id, v.version)

abbrev pub new_item : Definition → WorkflowStatus → WorkflowValidation → WorkflowDefinition
new_item d status v = record {
  workflow_id = v.workflow_id;
  version = v.version;
  status = status;
  digest = v.digest;
  definition = d;
  validation = v;
}

abbrev pub with_status : WorkflowDefinition → WorkflowStatus → WorkflowDefinition
with_status item status = record item { status = status }

pub register :
    Definition → WorkflowStatus → Registry → Result RegistryError (WorkflowDefinition × Registry)
register d status r =
    from_validation (validate r.validator d (some (keys_of r.definitions))) >>= λ v.
    reject_if (is_registered (find_pair (key_of v) r.definitions)) already_registered
    >> (reject_if (is_active status) activation_not_explicit
        >> ok (
          new_item d status v,
          record r { definitions = put_pair (key_of v) (new_item d status v) r.definitions },
        ))

-- The previously active version, where there is one, becomes deprecated.
pub deprecate :
    Option (String × String)
    → PairDict WorkflowDefinition
    → Result RegistryError (PairDict WorkflowDefinition)
deprecate none definitions = ok definitions
deprecate (some key) definitions = elim (find_pair key definitions) [
  | none ↦ raise key_error
  | some previous ↦ ok (put_pair key (with_status previous deprecated) definitions)
]

-- The new status of a version that is not active.
pub switch :
    String × String
    → WorkflowDefinition
    → Registry
    → Result RegistryError (WorkflowDefinition × Registry)
unfolding deprecate
switch key item r = deprecate (lookup key.0 r.active_keys) r.definitions >>= λ definitions. ok (
  with_status item active,
  record r {
    definitions = put_pair key (with_status item active) definitions;
    active_keys = insert key.0 key r.active_keys;
  },
)

pub activate : String → String → Registry → Result RegistryError (WorkflowDefinition × Registry)
unfolding switch
activate workflow_id version r = elim (find_pair (workflow_id, version) r.definitions) [
  | none ↦ raise not_found
  | some item ↦ if is_active item.status then ok (item, r) else switch (workflow_id, version) item r
]

unfoldable pub get : String → String → Registry → Result RegistryError WorkflowDefinition
get workflow_id version r = elim (find_pair (workflow_id, version) r.definitions) [
  | none ↦ raise not_found
  | some item ↦ ok item
]

pub active_of : String → Registry → Result RegistryError WorkflowDefinition
active_of workflow_id r = elim (lookup workflow_id r.active_keys) [
  | none ↦ raise no_active
  | some key ↦ elim (find_pair key r.definitions) [ none ↦ raise key_error | some item ↦ ok item ]
]

pub all_of : Registry → List WorkflowDefinition
all_of r = map (λ entry. entry.1) r.definitions

-- A call of one of the operations that change the registry.
pub data Call : Type 0 where
  register_call : Definition → WorkflowStatus → Call
  activate_call : String → String → Call

abbrev pub after : Registry → Result RegistryError (WorkflowDefinition × Registry) → Registry
after r (ok (item, r')) = r'
after r (raise e) = r

pub call : Call → Registry → Registry
unfolding register activate
call (register_call d status) r = after r (register d status r)
call (activate_call workflow_id version) r = after r (activate workflow_id version r)

pub calls : List Call → Registry → Registry
unfolding call
calls [] r = r
calls (c ∷ cs) r = calls cs (call c r)

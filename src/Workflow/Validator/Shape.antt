-- ===== src/Workflow/Validator/Shape.antt =====
-- The shapes that a definition and its nodes are read into, and the tests on the values of a node:
-- `_validate_node` of workflow.py and the patterns that it uses.
use brain_inspired_agent.Prelude.{
  ℕ, String, count, Bool, true, false, not, ◌&&◌, ◌||◌, Option, none, some, List, [], ◌∷◌, length,
  all, any, has, leb, ltb, str_eq, Result, ok, raise, ◌>>◌, reject_if,
}
use brain_inspired_agent.Prelude.Int.{ℤ, pos, ltb_ℤ}
use brain_inspired_agent.Prelude.Texts.{
  codes, is_lower, is_digit, is_word, dotted, starts_with, some_digits,
}
use brain_inspired_agent.Workflow.Graph.{GraphError}

pub data NodeBody : Type 0 where
  -- The capability, its version and the side effect that the constraints declare.
  skill : String → String → Option String → NodeBody
  -- The expression and the two branches.
  condition : String → List String → List String → NodeBody
  -- The branches, the failure policy and the least number of successes.
  parallel : List (List String) → String → Option ℤ → NodeBody
  -- The duration and the time to wait for.
  delay : Option ℤ → Option String → NodeBody
  -- The workflow, its version, the failure policy and the compensation node.
  sub_workflow : String → String → String → Option String → NodeBody

pub record Node : Type 0 where
  pub node_id : String
  pub depends_on : List String
  pub timeout : Option ℤ
  pub body : NodeBody

pub record Definition : Type 0 where
  pub spec_version : String
  pub workflow_id : String
  pub version : String
  pub name : String
  pub timeout : ℤ
  pub max_parallelism : ℤ
  pub required_capabilities : List String
  pub nodes : List Node
  pub output_mapping : List (Option (List String))

pub record WorkflowValidation : Type 0 where
  pub workflow_id : String
  pub version : String
  pub digest : String
  pub topological_order : List String
  pub referenced_workflows : List (String × String)

pub data ValidationError : Type 0 where
  unsupported_spec_version invalid_id_or_version empty_name invalid_limits : ValidationError
  invalid_capabilities invalid_node_count duplicate_nodes : ValidationError
  invalid_node_id invalid_dependencies invalid_timeout invalid_skill invalid_condition :
      ValidationError
  invalid_parallel invalid_delay invalid_sub_workflow : ValidationError
  unknown_dependency unknown_branch self_reference unknown_sub_workflow : ValidationError
  graph_error : GraphError → ValidationError
  unknown_output_node : ValidationError

-- `_ID` and `_NODE_ID`.
unfoldable pub is_id : String → Bool
is_id s = starts_with is_lower is_word (codes s) && leb (count s) 64

-- `_VERSION`: three numbers.
unfoldable pub is_version : String → Bool
is_version s = elim (dotted s) [ a ∷ b ∷ c ∷ [] ↦ all some_digits (a ∷ b ∷ c ∷ []) | _ ↦ false ]

abbrev is_alnum : ℕ → Bool
is_alnum c = is_lower c || is_digit c

-- `_CAPABILITY`: at least two lower-case parts.
unfoldable pub is_capability : String → Bool
is_capability s = elim (dotted s) [
  | a ∷ b ∷ rest ↦ all (starts_with is_lower is_alnum) (a ∷ b ∷ rest)
  | _ ↦ false
]

-- `_CAPABILITY_VERSION`: two numbers, the first without a leading zero.
unfoldable pub is_capability_version : String → Bool
is_capability_version s = elim (dotted s) [
  | a ∷ b ∷ [] ↦ starts_with (λ c. leb b'1' c && leb c b'9') is_digit a && some_digits b
  | _ ↦ false
]

abbrev pub distinct : List String → Bool
distinct [] = true
distinct (x ∷ xs) = not (has x xs) && distinct xs

-- `_unique_strings`.
abbrev pub unique_strings : (String → Bool) → List String → Bool
unique_strings pattern xs = distinct xs && all pattern xs

-- `_integer_range`.
abbrev pub in_range : ℕ → ℕ → ℤ → Bool
in_range lower upper k = not (ltb_ℤ k (pos lower)) && not (ltb_ℤ (pos upper) k)

abbrev pub option_test {ℓ} : {A : Type ℓ} → Bool → (A → Bool) → Option A → Bool
option_test missing p none = missing
option_test missing p (some x) = p x

abbrev is_given {ℓ} : {A : Type ℓ} → Option A → Bool
is_given none = false
is_given (some x) = true

abbrev side_effects : List String
side_effects = "PURE" ∷ "IDEMPOTENT" ∷ "QUERYABLE" ∷ "NON_REPLAYABLE" ∷ []

module _ (is_expression : String → Bool) (capabilities : List String) where
  -- The part of `_validate_node` that depends on the type.
  unfoldable pub validate_body : NodeBody → Result ValidationError (Unit {0})
  unfolding is_capability is_capability_version is_id is_version
  validate_body (skill capability version side_effect) =
      reject_if
        (not (is_capability capability)
          || (not (has capability capabilities)
              || (not (is_capability_version version)
                  || not (option_test false (λ e. has e side_effects) side_effect))))
        invalid_skill
  validate_body (condition expression yes_branch no_branch) =
      reject_if
        (not (is_expression expression)
          || (not (unique_strings is_id yes_branch) || not (unique_strings is_id no_branch)))
        invalid_condition
  validate_body (parallel branches policy min_success) =
      reject_if
        (not (has policy ("fail_fast" ∷ "collect_all" ∷ "min_success" ∷ []))
          || (ltb (length branches) 2
              || ((str_eq policy "min_success"
                    && not (option_test false (in_range 1 (length branches)) min_success))
                  || any (λ branch. not (unique_strings is_id branch)) branches)))
        invalid_parallel
  validate_body (delay (some d) none) =
      reject_if (not (ltb_ℤ (pos 0) d && not (ltb_ℤ (pos 60000000) d))) invalid_delay
  validate_body (delay none (some t)) = ok tt
  validate_body (delay _ _) = raise invalid_delay
  validate_body (sub_workflow id version policy compensation) =
      reject_if
        (not (is_id id)
          || (not (is_version version)
              || (not (has policy ("propagate" ∷ "continue" ∷ "compensate" ∷ []))
                  || (str_eq policy "compensate" && not (is_given compensation)))))
        invalid_sub_workflow

  -- `_validate_node`.
  unfoldable pub validate_node : Node → Result ValidationError (Unit {0})
  unfolding validate_body
  validate_node n = do
    reject_if (not (is_id n.node_id)) invalid_node_id
    reject_if (not (unique_strings is_id n.depends_on)) invalid_dependencies
    reject_if (not (option_test true (in_range 1 300) n.timeout)) invalid_timeout
    validate_body n.body

  unfoldable pub validate_nodes : List Node → Result ValidationError (Unit {0})
  unfolding validate_node
  validate_nodes [] = ok tt
  validate_nodes (n ∷ ns) = validate_node n >> validate_nodes ns

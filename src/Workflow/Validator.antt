-- ===== src/Workflow/Validator.antt =====
-- `WorkflowValidator` of workflow.py. A definition has been read from JSON into the shapes that the
-- `isinstance` tests and `_required` ask for; the tests on its values follow, in the source's order. The
-- digest and the parser of condition expressions are parameters. A path of the output mapping comes split
-- at its dots, `none` where the value is not a text. Delays are whole microseconds.
mod Shape
pub mod Edges
pub mod Laws
mod Tests
use brain_inspired_agent.Prelude.{
  ℕ, zero, suc, ◌+◌, String, count, Bool, true, false, not, ◌&&◌, ◌||◌, Option, none, some, List,
  [], ◌∷◌, ◌++◌, map, length, all, any, has, leb, ltb, str_eq, str_lt, if◌then◌else◌, Result, ok,
  raise, ◌>>=◌, ◌>>◌, reject_if, Dict, insert,
}
use brain_inspired_agent.Prelude.Int.{ℤ, pos, ltb_ℤ}
use brain_inspired_agent.Prelude.Pairs.{same_pair}
use brain_inspired_agent.Prelude.Sort.{sorted}
use brain_inspired_agent.Prelude.Texts.{
  codes, is_lower, is_digit, is_word, dotted, starts_with, some_digits,
}
use brain_inspired_agent.Workflow.Graph.{GraphError, targets, topological_order}
unfoldable pub use Shape.*

-- `_branch_targets`.
pub branch_targets : NodeBody → List String
branch_targets (condition e yes_branch no_branch) = yes_branch ++ no_branch
branch_targets (parallel branches policy k) = flat branches
  where
    flat : List (List String) → List String
    flat [] = []
    flat (b ∷ bs) = b ++ flat bs
branch_targets (sub_workflow id version policy (some node)) = node ∷ []
branch_targets _ = []

-- `edges[source].add(target)`.
pub add_edge : String → String → Dict (List String) → Dict (List String)
add_edge source target edges =
    insert source
      (if has target (targets edges source)
        then targets edges source
        else targets edges source ++ target ∷ [])
      edges

pub add_dependencies :
    List String
    → String
    → List String
    → Dict (List String)
    → Result ValidationError (Dict (List String))
unfolding add_edge
add_dependencies ids node [] edges = ok edges
add_dependencies ids node (d ∷ ds) edges =
    let rest = add_dependencies ids node ds (add_edge d node edges) in
    if not (has d ids) then raise unknown_dependency else rest

pub add_branches :
    List String
    → String
    → List String
    → Dict (List String)
    → Result ValidationError (Dict (List String))
unfolding add_edge
add_branches ids node [] edges = ok edges
add_branches ids node (t ∷ ts) edges =
    let rest = add_branches ids node ts (add_edge node t edges) in
    if not (has t ids) then raise unknown_branch else rest

abbrev pub has_pair : String × String → List (String × String) → Bool
has_pair a xs = any (same_pair a) xs

-- The tests on a sub-workflow that a node refers to, with the set of references.
pub check_reference :
    String × String
    → Option (List (String × String))
    → NodeBody
    → List (String × String)
    → Result ValidationError (List (String × String))
check_reference self known (sub_workflow id version policy c) referenced = do
  reject_if (same_pair (id, version) self) self_reference
  reject_if (not (option_test true (has_pair (id, version)) known)) unknown_sub_workflow
  ok (if has_pair (id, version) referenced then referenced else (id, version) ∷ referenced)
check_reference self known _ referenced = ok referenced

-- The loop over `node_map`.
pub add_nodes :
    String × String
    → Option (List (String × String))
    → List String
    → List Node
    → Dict (List String) × List (String × String)
    → Result ValidationError (Dict (List String) × List (String × String))
unfolding add_dependencies add_branches check_reference branch_targets
add_nodes self known ids [] state = ok state
add_nodes self known ids (n ∷ ns) (edges, referenced) =
    add_dependencies ids n.node_id n.depends_on edges >>= λ with_dependencies.
    add_branches ids n.node_id (branch_targets n.body) with_dependencies >>= λ with_branches.
    check_reference self known n.body referenced >>= λ referenced'.
    add_nodes self known ids ns (with_branches, referenced')

abbrev pub ids_of : List Node → List String
ids_of [] = []
ids_of (n ∷ ns) = n.node_id ∷ ids_of ns

abbrev pub empty_edges : List String → Dict (List String)
empty_edges [] = []
empty_edges (n ∷ ns) = (n, []) ∷ empty_edges ns

abbrev from_graph : Result GraphError (List String) → Result ValidationError (List String)
from_graph (ok order) = ok order
from_graph (raise e) = raise (graph_error e)

abbrev names_node : List String → Option (List String) → Bool
names_node ids (some (root ∷ section ∷ node ∷ rest)) =
    not (str_eq root "$" && str_eq section "nodes") || has node ids
names_node ids _ = true

abbrev pair_lt : String × String → String × String → Bool
pair_lt a b = str_lt a.0 b.0 || (str_eq a.0 b.0 && str_lt a.1 b.1)

pub record WorkflowValidator : Type 0 where
  pub max_nodes : ℕ
  pub is_expression : String → Bool
  pub digest_of : Definition → String

-- The tests before the graph is built.
pub validate_shape : WorkflowValidator → Definition → Result ValidationError (Unit {0})
unfolding is_id is_version is_capability validate_nodes
validate_shape w d = do
  reject_if (not (str_eq d.spec_version "1.0")) unsupported_spec_version
  reject_if (not (is_id d.workflow_id && is_version d.version)) invalid_id_or_version
  reject_if (str_eq d.name "") empty_name
  reject_if (not (in_range 1 3600 d.timeout && in_range 1 32 d.max_parallelism)) invalid_limits
  reject_if (not (unique_strings is_capability d.required_capabilities)) invalid_capabilities
  reject_if (not (leb 1 (length d.nodes) && leb (length d.nodes) w.max_nodes)) invalid_node_count
  validate_nodes w.is_expression d.required_capabilities d.nodes
  reject_if (not (distinct (ids_of d.nodes))) duplicate_nodes

unfoldable pub validate :
    WorkflowValidator
    → Definition
    → Option (List (String × String))
    → Result ValidationError WorkflowValidation
unfolding validate_shape add_nodes
validate w d known =
    let ids = ids_of d.nodes in
    validate_shape w d
    >> (add_nodes (d.workflow_id, d.version) known ids d.nodes (empty_edges ids, []) >>= λ built.
        from_graph (topological_order ids built.0) >>= λ order.
        reject_if (not (all (names_node ids) d.output_mapping)) unknown_output_node
        >> ok (record {
          workflow_id = d.workflow_id;
          version = d.version;
          digest = w.digest_of d;
          topological_order = order;
          referenced_workflows = sorted pair_lt built.1;
        }))

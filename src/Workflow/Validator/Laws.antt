-- ===== src/Workflow/Validator/Laws.antt =====
-- What a definition that `WorkflowValidator.validate` accepts is known to be.
use brain_inspired_agent.Prelude.{
  String, ◌≡◌, refl, sym, ap, ◌∙◌, subst, Bool, true, false, Option, List, [], ◌∷◌, has, str_eq,
  eq_iff, eq_refl, arith, if◌then◌else◌, inl, inr, Dict, All, ok, Result-cases,
}
use brain_inspired_agent.Workflow.Graph.{targets, topological_order}
use brain_inspired_agent.Workflow.Graph.Counts.{Distinct}
use brain_inspired_agent.Workflow.Graph.Order.{IsGraph, Follows}
use brain_inspired_agent.Workflow.Graph.Correct.{topological_order_lem}
use brain_inspired_agent.Workflow.Validator.{
  Node, Definition, WorkflowValidation, WorkflowValidator, branch_targets, add_nodes, ids_of,
  empty_edges, distinct, validate_shape, validate,
}
use brain_inspired_agent.Workflow.Validator.Edges.{
  IsBuilt, Connected, add_nodes-Connected, empty_edges-IsBuilt,
}

-- The first text stands before an occurrence of the second.
abbrev pub precedes : String → String → List String → Bool
precedes a b [] = false
precedes a b (x ∷ xs) = if str_eq x a then has b xs else precedes a b xs

precedes-Follows :
    (edges : Dict (List String)) (a b : String) (before xs : List String)
    → Follows edges before xs
    → has b (targets edges a) ≡ true
    → has a before ≡ false
    → has b xs ≡ true
    → precedes a b xs ≡ true
precedes-Follows edges a b before [] f e n h = absurd (ground (arith, h))
precedes-Follows edges a b before (x ∷ xs) f e n h =
    let rest = precedes-Follows edges a b (x ∷ before) xs f.1 e in
    ground (
      arith,
      rest,
      f.0 a,
      e,
      n,
      h,
      eq_iff x b,
      eq_iff x a,
      ap (λ k. has k (targets edges a)) {x = b} {y = x},
    )

-- Every dependency stands before the node, and the node before every branch target.
abbrev pub Ordered : List String → Node → Type 0
Ordered order n =
    All (λ d. precedes d n.node_id order ≡ true) n.depends_on
    × All (λ t. precedes n.node_id t order ≡ true) (branch_targets n.body)

distinct_lem : (xs : List String) → distinct xs ≡ true → Distinct xs
distinct_lem [] h = tt
distinct_lem (x ∷ xs) h = (ground (arith, h), distinct_lem xs (ground (arith, h)))

All-ids_tail :
    (k : String) (ids : List String) (ns : List Node)
    → All (λ n. has n.node_id ids ≡ true) ns
    → All (λ n. has n.node_id (k ∷ ids) ≡ true) ns
All-ids_tail k ids [] h = tt
All-ids_tail k ids (n ∷ ns) h = (ground (arith, h.0), All-ids_tail k ids ns h.1)

All-ids_of : (ns : List Node) → All (λ n. has n.node_id (ids_of ns) ≡ true) ns
All-ids_of [] = tt
All-ids_of (n ∷ ns) =
    (ground (arith, eq_refl n.node_id), All-ids_tail n.node_id (ids_of ns) ns (All-ids_of ns))

module _ (es : Dict (List String)) (order : List String) (ids : List String)
    (members : (n : String) → has n order ≡ has n ids) (follows : Follows es [] order)
    (v : IsBuilt ids es) where
  edge_precedes : (a b : String) → has b (targets es a) ≡ true → precedes a b order ≡ true
  edge_precedes a b h = precedes-Follows es a b [] order follows h refl (members b ∙ v.closed a b h)

  sources_precede :
      (b : String) (ds : List String)
      → All (λ d. has b (targets es d) ≡ true) ds
      → All (λ d. precedes d b order ≡ true) ds
  sources_precede b [] h = tt
  sources_precede b (d ∷ ds) h = (edge_precedes d b h.0, sources_precede b ds h.1)

  targets_follow :
      (a : String) (ts : List String)
      → All (λ t. has t (targets es a) ≡ true) ts
      → All (λ t. precedes a t order ≡ true) ts
  targets_follow a [] h = tt
  targets_follow a (t ∷ ts) h = (edge_precedes a t h.0, targets_follow a ts h.1)

  All-Ordered : (ns : List Node) → All (Connected es) ns → All (Ordered order) ns
  All-Ordered [] h = tt
  All-Ordered (n ∷ ns) h = (
    (
      sources_precede n.node_id n.depends_on h.0.0,
      targets_follow n.node_id (branch_targets n.body) h.0.1,
    ),
    All-Ordered ns h.1,
  )

abbrev pub IsValidated : Definition → List String → Type 0
IsValidated d order =
    Distinct order
    × ((n : String) → has n order ≡ has n (ids_of d.nodes))
    × All (Ordered order) d.nodes

IsValidated-order :
    (d : Definition) (es : Dict (List String)) (order : List String)
    → Distinct (ids_of d.nodes)
    → IsBuilt (ids_of d.nodes) es
    → All (Connected es) d.nodes
    → topological_order (ids_of d.nodes) es ≡ ok order
    → IsValidated d order
IsValidated-order d es order u v c e =
    let g : IsGraph es = record {
      nodes = subst Distinct (sym v.nodes) u;
      target_sets = v.target_sets;
      closed = λ a b h. ap (has b) v.nodes ∙ v.closed a b h;
    } in
    let o = (topological_order_lem es g).0 order (ap (λ k. topological_order k es) v.nodes ∙ e) in
    let members : (n : String) → has n order ≡ has n (ids_of d.nodes) =
      λ n. o.members n ∙ ap (has n) v.nodes in
    (o.distinct, members, All-Ordered es order (ids_of d.nodes) members o.follows v d.nodes c)

validate_shape-distinct :
    (w : WorkflowValidator) (d : Definition) (u : Unit {0})
    → validate_shape w d ≡ ok u
    → distinct (ids_of d.nodes) ≡ true
unfolding validate_shape
validate_shape-distinct w d u e = ground (arith, e)

module _ (w : WorkflowValidator) (d : Definition) (known : Option (List (String × String))) where
  -- The graph that an accepted definition has, and its order.
  validate_parts :
      (v : WorkflowValidation)
      → validate w d known ≡ ok v
      → (es : Dict (List String)) × (refs : List (String × String)) × (distinct (ids_of d.nodes)
          ≡ true)
        × (add_nodes
              (d.workflow_id, d.version)
              known
              (ids_of d.nodes)
              d.nodes
              (empty_edges (ids_of d.nodes), [])
            ≡ ok (es, refs))
        × (topological_order (ids_of d.nodes) es ≡ ok v.topological_order)
  unfolding validate
  validate_parts v e =
      let ids = ids_of d.nodes in
      elim (Result-cases (validate_shape w d)) [
        | inr (x, f) ↦ absurd (ground (arith, e, f))
        | inl (u, f) ↦
            elim (Result-cases
              (add_nodes (d.workflow_id, d.version) known ids d.nodes (empty_edges ids, []))) [
                | inr (x, g) ↦ absurd (ground (arith, e, f, g))
                | inl ((es, refs), g) ↦ elim (Result-cases (topological_order ids es)) [
                  | inr (x, k) ↦ absurd (ground (arith, e, f, g, k))
                  | inl (order, k) ↦
                      let same : order ≡ v.topological_order = ground (arith, e, f, g, k) in
                      (es, refs, validate_shape-distinct w d u f, g, k ∙ ap ok same)
                ]
              ]
      ]

  -- Where a definition is accepted, the order of the result holds every node of the definition once,
  -- with every dependency of a node before the node and the node before every branch target of it.
  pub validate_lem :
      (v : WorkflowValidation) → validate w d known ≡ ok v → IsValidated d v.topological_order
  validate_lem v e =
      let ids = ids_of d.nodes in
      let (es, refs, u, g, k) = validate_parts v e in
      let (x, c) =
        add_nodes-Connected (d.workflow_id, d.version) known ids d.nodes (empty_edges ids) [] es
          refs (All-ids_of d.nodes) (empty_edges-IsBuilt ids) g in
      IsValidated-order d es v.topological_order (distinct_lem ids u) x.0 c k

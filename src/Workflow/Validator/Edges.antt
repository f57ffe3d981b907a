-- ===== src/Workflow/Validator/Edges.antt =====
-- The edges that the loop over the nodes builds.
use brain_inspired_agent.Prelude.{
  String, ◌≡◌, refl, ap, ◌∙◌, subst, true, false, ◌&&◌, ◌||◌, Option, List, [], ◌∷◌, ◌++◌, has,
  str_eq, eq_iff, eq_refl, arith, if◌then◌else◌, if_elim, inl, inr, Dict, lookup, insert,
  lookup-insert, All, ok, Result-cases,
}
use brain_inspired_agent.Workflow.Graph.{targets}
use brain_inspired_agent.Workflow.Graph.Counts.{Distinct, has-append, Distinct-snoc}
use brain_inspired_agent.Workflow.Graph.Loop.{keys, DistinctTargets}
use brain_inspired_agent.Workflow.Graph.Order.{Distinct-targets}
use brain_inspired_agent.Workflow.Validator.{
  Node, branch_targets, add_edge, add_dependencies, add_branches, check_reference, add_nodes,
  empty_edges,
}

-- The keys are the nodes, and the target sets hold nodes, each once.
pub record IsBuilt (ids : List String) (edges : Dict (List String)) : Type 0 where
  pub nodes : keys edges ≡ ids
  pub target_sets : DistinctTargets edges
  pub closed : (a b : String) → has b (targets edges a) ≡ true → has b ids ≡ true

-- No edge is lost.
abbrev pub Grows : Dict (List String) → Dict (List String) → Type 0
Grows edges edges' =
    (a b : String) → has b (targets edges a) ≡ true → has b (targets edges' a) ≡ true

keys-insert :
    (p : String) (ts : List String) (es : Dict (List String))
    → has p (keys es) ≡ true
    → keys (insert p ts es) ≡ keys es
unfolding insert
keys-insert p ts [] h = absurd (ground (arith, h))
keys-insert p ts ((a, us) ∷ es) h = ground (arith, h, keys-insert p ts es)

DistinctTargets-insert :
    (p : String) (ts : List String) (es : Dict (List String))
    → Distinct ts
    → DistinctTargets es
    → DistinctTargets (insert p ts es)
unfolding insert
DistinctTargets-insert p ts [] t d = (t, tt)
DistinctTargets-insert p ts ((a, us) ∷ es) t d =
    if_elim DistinctTargets (str_eq a p) _ _ (λ _. (t, d.1))
      (λ _. (d.0, DistinctTargets-insert p ts es t d.1))

abbrev added : String → List String → List String
added q ts = if has q ts then ts else ts ++ q ∷ []

has-added : (b q : String) (ts : List String) → has b (added q ts) ≡ (has b ts || str_eq q b)
has-added b q ts =
    ground (arith, has-append b ts (q ∷ []), eq_iff q b, ap (λ k. has k ts) {x = q} {y = b})

Distinct-added : (q : String) (ts : List String) → Distinct ts → Distinct (added q ts)
Distinct-added q ts d = if_elim Distinct (has q ts) _ _ (λ _. d) (λ h. Distinct-snoc ts q h d)

targets-add_edge :
    (p q a b : String) (es : Dict (List String))
    → has b (targets (add_edge p q es) a) ≡ (has b (targets es a) || (str_eq p a && str_eq q b))
unfolding add_edge
targets-add_edge p q a b es = ground (
  arith,
  lookup-insert p a (added q (targets es p)) es,
  has-added b q (targets es p),
  eq_iff p a,
  ap (λ k. has b (targets es k)) {x = p} {y = a},
)

add_edge-IsBuilt :
    (ids : List String) (p q : String) (es : Dict (List String))
    → has p ids ≡ true
    → has q ids ≡ true
    → IsBuilt ids es
    → IsBuilt ids (add_edge p q es)
unfolding add_edge
add_edge-IsBuilt ids p q es hp hq v = record {
  nodes = keys-insert p (added q (targets es p)) es (ap (has p) v.nodes ∙ hp) ∙ v.nodes;
  target_sets =
      DistinctTargets-insert p (added q (targets es p)) es
        (Distinct-added q (targets es p) (Distinct-targets p es v.target_sets)) v.target_sets;
  closed = λ a b h. ground (
    arith,
    h,
    targets-add_edge p q a b es,
    v.closed a b,
    hq,
    eq_iff q b,
    ap (λ k. has k ids) {x = q} {y = b},
  );
}

-- What the loops over a node's dependencies and over its branch targets guarantee.
abbrev pub Extends : List String → Dict (List String) → Dict (List String) → Type 0
Extends ids es es' = IsBuilt ids es' × Grows es es'

add_edge-Extends :
    (ids : List String) (p q : String) (es : Dict (List String))
    → has p ids ≡ true
    → has q ids ≡ true
    → IsBuilt ids es
    → Extends ids es (add_edge p q es) × (has q (targets (add_edge p q es) p) ≡ true)
add_edge-Extends ids p q es hp hq v = (
  (add_edge-IsBuilt ids p q es hp hq v, λ a b h. ground (arith, h, targets-add_edge p q a b es)),
  ground (arith, targets-add_edge p q p q es, eq_refl p, eq_refl q),
)

add_dependencies-Extends :
    (ids : List String) (node : String) (ds : List String) (es es' : Dict (List String))
    → has node ids ≡ true
    → IsBuilt ids es
    → add_dependencies ids node ds es ≡ ok es'
    → Extends ids es es' × All (λ d. has node (targets es' d) ≡ true) ds
unfolding add_dependencies
add_dependencies-Extends ids node [] es es' h v e =
    let same : es ≡ es' = ground (arith, e) in
    ((subst (IsBuilt ids) same v, λ a b k. ground (arith, k, same)), tt)
add_dependencies-Extends ids node (d ∷ ds) es es' h v e =
    let hd : has d ids ≡ true = ground (arith, e) in
    let (x, edge) = add_edge-Extends ids d node es hd h v in
    let ((built, grows), rest) =
      add_dependencies-Extends ids node ds (add_edge d node es) es' h x.0 (ground (arith, e, hd)) in
    ((built, λ a b k. grows a b (x.1 a b k)), (grows d node edge, rest))

add_branches-Extends :
    (ids : List String) (node : String) (ts : List String) (es es' : Dict (List String))
    → has node ids ≡ true
    → IsBuilt ids es
    → add_branches ids node ts es ≡ ok es'
    → Extends ids es es' × All (λ t. has t (targets es' node) ≡ true) ts
unfolding add_branches
add_branches-Extends ids node [] es es' h v e =
    let same : es ≡ es' = ground (arith, e) in
    ((subst (IsBuilt ids) same v, λ a b k. ground (arith, k, same)), tt)
add_branches-Extends ids node (t ∷ ts) es es' h v e =
    let ht : has t ids ≡ true = ground (arith, e) in
    let (x, edge) = add_edge-Extends ids node t es h ht v in
    let ((built, grows), rest) =
      add_branches-Extends ids node ts (add_edge node t es) es' h x.0 (ground (arith, e, ht)) in
    ((built, λ a b k. grows a b (x.1 a b k)), (grows node t edge, rest))

-- An edge from each dependency, and one to each branch target.
abbrev pub Connected : Dict (List String) → Node → Type 0
Connected es n =
    All (λ d. has n.node_id (targets es d) ≡ true) n.depends_on
    × All (λ t. has t (targets es n.node_id) ≡ true) (branch_targets n.body)

All-Grows_sources :
    (es es' : Dict (List String)) (node : String) (ds : List String)
    → Grows es es'
    → All (λ d. has node (targets es d) ≡ true) ds
    → All (λ d. has node (targets es' d) ≡ true) ds
All-Grows_sources es es' node [] g h = tt
All-Grows_sources es es' node (d ∷ ds) g h = (g d node h.0, All-Grows_sources es es' node ds g h.1)

All-Grows-targets :
    (es es' : Dict (List String)) (node : String) (ts : List String)
    → Grows es es'
    → All (λ t. has t (targets es node) ≡ true) ts
    → All (λ t. has t (targets es' node) ≡ true) ts
All-Grows-targets es es' node [] g h = tt
All-Grows-targets es es' node (t ∷ ts) g h = (g node t h.0, All-Grows-targets es es' node ts g h.1)

pub add_nodes-Connected :
    (self : String × String) (known : Option (List (String × String))) (ids : List String)
    (ns : List Node) (es : Dict (List String)) (refs : List (String × String))
    (es' : Dict (List String)) (refs' : List (String × String))
    → All (λ n. has n.node_id ids ≡ true) ns
    → IsBuilt ids es
    → add_nodes self known ids ns (es, refs) ≡ ok (es', refs')
    → Extends ids es es' × All (Connected es') ns
unfolding add_nodes
add_nodes-Connected self known ids [] es refs es' refs' m v e =
    let same : es ≡ es' = ground (arith, e) in
    ((subst (IsBuilt ids) same v, λ a b k. ground (arith, k, same)), tt)
add_nodes-Connected self known ids (n ∷ ns) es refs es' refs' m v e =
    elim (Result-cases (add_dependencies ids n.node_id n.depends_on es)) [
      | inr (x, f) ↦ absurd (ground (arith, e, f))
      | inl (es1, f) ↦
          elim (Result-cases (add_branches ids n.node_id (branch_targets n.body) es1)) [
            | inr (x, g) ↦ absurd (ground (arith, e, f, g))
            | inl (es2, g) ↦ elim (Result-cases (check_reference self known n.body refs)) [
              | inr (x, k) ↦ absurd (ground (arith, e, f, g, k))
              | inl (refs1, k) ↦
                  let (x1, deps) =
                    add_dependencies-Extends ids n.node_id n.depends_on es es1 m.0 v f in
                  let (x2, outs) =
                    add_branches-Extends ids n.node_id (branch_targets n.body) es1 es2 m.0 x1.0 g in
                  let ((built, grows), rest) =
                    add_nodes-Connected self known ids ns es2 refs1 es' refs' m.1 x2.0
                      (ground (arith, e, f, g, k)) in
                  (
                    (built, λ a b h. grows a b (x2.1 a b (x1.1 a b h))),
                    (
                      (
                        All-Grows_sources es1 es' n.node_id n.depends_on
                            (λ a b h. grows a b (x2.1 a b h)) deps,
                        All-Grows-targets es2 es' n.node_id (branch_targets n.body) grows outs,
                      ),
                      rest,
                    ),
                  )
            ]
          ]
    ]

keys-empty_edges : (ids : List String) → keys (empty_edges ids) ≡ ids
keys-empty_edges [] = refl
keys-empty_edges (n ∷ ns) = ap (◌∷◌ n) (keys-empty_edges ns)

DistinctTargets-empty_edges : (ids : List String) → DistinctTargets (empty_edges ids)
DistinctTargets-empty_edges [] = tt
DistinctTargets-empty_edges (n ∷ ns) = (tt, DistinctTargets-empty_edges ns)

no_targets : (ids : List String) (a b : String) → has b (targets (empty_edges ids) a) ≡ false
unfolding lookup
no_targets [] a b = refl
no_targets (n ∷ ns) a b = ground (arith, no_targets ns a b)

pub empty_edges-IsBuilt : (ids : List String) → IsBuilt ids (empty_edges ids)
empty_edges-IsBuilt ids = record {
  nodes = keys-empty_edges ids;
  target_sets = DistinctTargets-empty_edges ids;
  closed = λ a b h. ground (arith, h, no_targets ids a b);
}

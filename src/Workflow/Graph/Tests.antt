-- ===== src/Workflow/Graph/Tests.antt =====
-- Two steps and a step that needs both.
use brain_inspired_agent.Prelude.{
  String, ◌≡◌, refl, List, [], ◌∷◌, arith, Dict, lookup, insert, ok, raise, ℕ, ◌≢◌,
}
use brain_inspired_agent.Prelude.Sort.{sorted}
use brain_inspired_agent.Workflow.Graph.{topological_order, out_of_rounds}
use brain_inspired_agent.Workflow.Graph.Loop.{keys}
use brain_inspired_agent.Workflow.Graph.Order.{IsGraph, IsOrder, Ranks}
use brain_inspired_agent.Workflow.Graph.Correct.{topological_order_lem}

abbrev steps : Dict (List String)
steps = ("load", "train" ∷ []) ∷ ("clean", "train" ∷ []) ∷ ("train", []) ∷ []

steps-IsGraph : IsGraph steps
unfolding lookup
steps-IsGraph = record {
  nodes = (refl, (refl, (refl, tt)));
  target_sets = ((refl, tt), ((refl, tt), (tt, tt)));
  closed = λ a b h. ground (arith, h);
}

topological_order_steps :
    topological_order (keys steps) steps ≡ ok ("clean" ∷ "load" ∷ "train" ∷ [])
unfolding topological_order sorted lookup insert
topological_order_steps = refl

topological_order_lem_example :
    ((o : List String) → topological_order (keys steps) steps ≡ ok o → IsOrder steps o)
    × ((rank : String → ℕ)
        → Ranks steps rank
        → (o : List String) × (topological_order (keys steps) steps ≡ ok o))
    × (topological_order (keys steps) steps ≢ raise out_of_rounds)
topological_order_lem_example = topological_order_lem steps steps-IsGraph

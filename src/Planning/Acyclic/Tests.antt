-- ===== src/Planning/Acyclic/Tests.antt =====
-- Three tasks in a row, and a cycle.
use brain_inspired_agent.Prelude.{
  ℕ, String, ◌≡◌, ◌≢◌, refl, true, List, [], ◌∷◌, has, arith, Dict, lookup, ok, raise,
}
use brain_inspired_agent.Workflow.Graph.{targets}
use brain_inspired_agent.Workflow.Graph.Counts.{Within}
use brain_inspired_agent.Workflow.Graph.Loop.{keys}
use brain_inspired_agent.Planning.Acyclic.{Search, has_cycle, too_deep, assert_acyclic}
use brain_inspired_agent.Planning.Acyclic.Visit.{Finished, Lowers, assert_acyclic_lem}

abbrev row : Dict (List String)
row = ("report", "train" ∷ []) ∷ ("train", "load" ∷ []) ∷ ("load", []) ∷ []

row_closed : (a d : String) → has d (targets row a) ≡ true → has d (keys row) ≡ true
unfolding lookup
row_closed a d h = ground (arith, h)

assert_acyclic_row :
    assert_acyclic row ≡ ok (record { visiting = []; visited = "report" ∷ "train" ∷ "load" ∷ [] })
unfolding assert_acyclic lookup
assert_acyclic_row = refl

assert_acyclic_cycle : assert_acyclic (("a", "b" ∷ []) ∷ ("b", "a" ∷ []) ∷ []) ≡ raise has_cycle
unfolding assert_acyclic lookup
assert_acyclic_cycle = refl

assert_acyclic_lem_example :
    ((s : Search)
      → assert_acyclic row ≡ ok s
      → Finished row s.visited × Within (keys row) s.visited)
    × (assert_acyclic row ≡ raise has_cycle → (rank : String → ℕ) → Lowers row rank → ⊥)
    × (assert_acyclic row ≢ raise too_deep)
assert_acyclic_lem_example = assert_acyclic_lem row row_closed

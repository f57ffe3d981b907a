-- ===== src/Planning/Acyclic.antt =====
-- `_assert_acyclic` of plan_validation.py: a depth-first search of the dependencies of the tasks. `visit`
-- takes a depth; it gets one more than there are tasks. The sets are lists.
pub mod Visit
mod Tests
use brain_inspired_agent.Prelude.{
  ℕ, zero, suc, ◌+◌, String, Bool, true, false, not, List, [], ◌∷◌, filter, length, has, str_eq,
  if◌then◌else◌, Result, ok, raise, ◌>>=◌, Dict, lookup,
}
use brain_inspired_agent.Workflow.Graph.{targets}
use brain_inspired_agent.Workflow.Graph.Loop.{keys}

pub data PlanGraphError : Type 0 where
  has_cycle too_deep : PlanGraphError

-- The nodes that are being visited, and those that have been.
pub record Search : Type 0 where
  pub visiting : List String
  pub visited : List String

abbrev pub discard : String → List String → List String
discard node xs = filter (λ x. not (str_eq x node)) xs

-- A loop that visits each of the nodes.
abbrev pub each :
    (String → Search → Result PlanGraphError Search)
    → List String
    → Search
    → Result PlanGraphError Search
each f [] s = ok s
each f (n ∷ ns) s = f n s >>= λ s'. each f ns s'

abbrev pub entered : String → Search → Search
entered node s = record s { visiting = node ∷ s.visiting }

abbrev pub left : String → Search → Search
left node s = record { visiting = discard node s.visiting; visited = node ∷ s.visited }

pub visit : ℕ → Dict (List String) → String → Search → Result PlanGraphError Search
visit zero edges node s = raise too_deep
visit (suc depth) edges node s =
    let below =
      each (visit depth edges) (targets edges node) (entered node s) >>= λ s'. ok (left node s') in
    if has node s.visiting then raise has_cycle else if has node s.visited then ok s else below

unfoldable pub assert_acyclic : Dict (List String) → Result PlanGraphError Search
unfolding visit
assert_acyclic edges =
    each (visit (length (keys edges) + 1) edges) (keys edges)
      (record { visiting = []; visited = [] })

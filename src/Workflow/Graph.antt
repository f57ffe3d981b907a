-- ===== src/Workflow/Graph.antt =====
-- `_topological_order` of workflow.py. A set of node identifiers is a list without repetition, and
-- `edges` holds the set of targets of each node. The `while` loop takes a number of rounds; it gets one
-- for each node.
pub mod Counts
pub mod Loop
pub mod Release
pub mod Order
pub mod Correct
mod Tests
use brain_inspired_agent.Prelude.{
  ℕ, zero, suc, ◌+◌, ◌-◌, String, Bool, true, false, ◌&&◌, Option, none, some, List, [], ◌∷◌, ◌++◌,
  map, filter, length, has, ◌==◌, str_lt, if◌then◌else◌, Result, ok, raise, Dict, lookup, insert,
}
use brain_inspired_agent.Prelude.Sort.{sorted}

pub data GraphError : Type 0 where
  has_cycle out_of_rounds : GraphError

abbrev pub count_of : String → Dict ℕ → ℕ
count_of n incoming = elim (lookup n incoming) [ none ↦ 0 | some k ↦ k ]

abbrev pub targets : Dict (List String) → String → List String
targets edges n = elim (lookup n edges) [ none ↦ [] | some ts ↦ ts ]

-- `incoming[target] += 1` for each target, for each node.
pub count_targets : List String → Dict ℕ → Dict ℕ
count_targets [] incoming = incoming
count_targets (t ∷ ts) incoming = count_targets ts (insert t (count_of t incoming + 1) incoming)

pub count_edges : Dict (List String) → Dict ℕ → Dict ℕ
unfolding count_targets
count_edges [] incoming = incoming
count_edges ((n, ts) ∷ rest) incoming = count_edges rest (count_targets ts incoming)

abbrev pub no_edges : List String → Dict ℕ
no_edges nodes = map (λ n. (n, 0)) nodes

-- A node whose last predecessor was taken joins the ready ones, which are sorted again.
abbrev pub add_ready : String → ℕ → List String → List String
add_ready t left ready = if left == 0 then sorted str_lt (ready ++ t ∷ []) else ready

-- The loop over the targets of the node that was taken.
pub release : List String → Dict ℕ → List String → Dict ℕ × List String
release [] incoming ready = (incoming, ready)
release (t ∷ ts) incoming ready =
    let left = count_of t incoming - 1 in
    release ts (insert t left incoming) (add_ready t left ready)

-- The `while` loop: `none` where the rounds do not suffice.
pub loop : Dict (List String) → ℕ → Dict ℕ → List String → List String → Option (List String)
unfolding release
loop edges rounds incoming [] order = some order
loop edges zero incoming (n ∷ ready) order = none
loop edges (suc rounds) incoming (n ∷ ready) order =
    let (incoming', ready') = release (sorted str_lt (targets edges n)) incoming ready in
    loop edges rounds incoming' ready' (order ++ n ∷ [])

abbrev pub initial : List String → Dict (List String) → Dict ℕ
initial nodes edges = count_edges edges (no_edges nodes)

abbrev pub initially_ready : List String → Dict (List String) → List String
initially_ready nodes edges =
    sorted str_lt (filter (λ n. count_of n (initial nodes edges) == 0) nodes)

unfoldable pub topological_order :
    List String → Dict (List String) → Result GraphError (List String)
unfolding loop count_edges
topological_order nodes edges =
    elim (loop edges (length nodes) (initial nodes edges) (initially_ready nodes edges) []) [
      | none ↦ raise out_of_rounds
      | some order ↦ if length order == length nodes then ok order else raise has_cycle
    ]

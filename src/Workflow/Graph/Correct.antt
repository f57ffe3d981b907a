-- ===== src/Workflow/Graph/Correct.antt =====
-- `topological_order` as a whole: the orders that it gives, and when it gives one.
use brain_inspired_agent.Prelude.{
  ℕ, zero, suc, ◌<◌, String, ◌≡◌, refl, ap, subst, true, some, List, [], ◌∷◌, length, has, eq_iff,
  eq_refl, arith, Dict, lookup, ok, raise, ◌≢◌,
}
use brain_inspired_agent.Workflow.Graph.{
  targets, loop, initial, initially_ready, topological_order, out_of_rounds,
}
use brain_inspired_agent.Workflow.Graph.Counts.{Distinct, length-Distinct_le}
use brain_inspired_agent.Workflow.Graph.Loop.{keys, remaining}
use brain_inspired_agent.Workflow.Graph.Order.{
  IsGraph, IsState, IsOrder, Ranks, start-IsState, loop_ends, IsState-IsOrder,
}

targets-key :
    (a n : String) (es : Dict (List String)) → has n (targets es a) ≡ true → has a (keys es) ≡ true
unfolding lookup
targets-key a n [] h = cc (h)
targets-key a n ((b, ts) ∷ es) h = ground (arith, h, targets-key a n es)

-- A node counts no predecessor when all that lead to it are done.
none_remaining :
    (done : List String) (n : String) (es : Dict (List String))
    → Distinct (keys es)
    → ((a : String) → has n (targets es a) ≡ true → has a done ≡ true)
    → remaining done n es ≡ 0
unfolding remaining lookup
none_remaining done n [] d h = refl
none_remaining done n ((a, ts) ∷ es) d h =
    let rest = none_remaining done n es d.1 (λ b e. h b (
      ground (
        arith,
        e,
        targets-key b n es e,
        d.0,
        eq_iff a b,
        ap (λ k. has k (keys es)) {x = a} {y = b},
      ))) in
    ground (arith, rest, h a, eq_refl a)

module _ (edges : Dict (List String)) (g : IsGraph edges) where
  -- Once no node is ready, a numbering forces every node into the order, by its number.
  all_taken :
      (incoming : Dict ℕ) (order : List String) (rank : String → ℕ)
      → IsState edges incoming [] order
      → Ranks edges rank
      → (k : ℕ) (n : String) → rank n < k
      → has n (keys edges) ≡ true
      → has n order ≡ true
  all_taken incoming order rank s r zero n lt h = absurd (omega (arith, lt))
  all_taken incoming order rank s r (suc k) n lt h =
      let zero_left = none_remaining order n edges g.nodes (λ a e.
        all_taken incoming order rank s r k a (omega (arith, r a n e, lt))
          (targets-key a n edges e)) in
      ground (arith, s.known n h, s.counts n, zero_left)

  finished :
      (order : List String) (incoming : Dict ℕ)
      → loop edges
          (length (keys edges))
          (initial (keys edges) edges)
          (initially_ready (keys edges) edges)
          []
        ≡ some order
      → IsState edges incoming [] order
      → ((o : List String) → topological_order (keys edges) edges ≡ ok o → IsOrder edges o)
        × ((rank : String → ℕ)
            → Ranks edges rank
            → (o : List String) × (topological_order (keys edges) edges ≡ ok o))
        × (topological_order (keys edges) edges ≢ raise out_of_rounds)
  unfolding topological_order
  finished order incoming e s = (
    λ o h.
        let size : length order ≡ length (keys edges) = ground (arith, e, h) in
        let same : order ≡ o = ground (arith, e, h) in
        subst (IsOrder edges) same (IsState-IsOrder edges g incoming order s size),
    λ rank r.
        let whole =
          length-Distinct_le (keys edges) order g.nodes
            (λ n h. all_taken incoming order rank s r (suc (rank n)) n (omega arith) h) in
        let part = length-Distinct_le order (keys edges) s.order_distinct s.order_within in
        (order, ground (arith, e, whole, part)),
    λ h. ground (arith, e, h),
  )

  -- For a graph of nodes and target sets: an order that is returned holds every node once, each after
  -- all nodes that lead to it; where the nodes can be numbered so that every edge rises, that is,
  -- where the graph has no cycle, an order is returned; and the rounds given always suffice.
  pub topological_order_lem :
      ((o : List String) → topological_order (keys edges) edges ≡ ok o → IsOrder edges o)
      × ((rank : String → ℕ)
          → Ranks edges rank
          → (o : List String) × (topological_order (keys edges) edges ≡ ok o))
      × (topological_order (keys edges) edges ≢ raise out_of_rounds)
  topological_order_lem =
      let (order, incoming, e, s) =
        loop_ends edges g (length (keys edges)) (initial (keys edges) edges)
          (initially_ready (keys edges) edges) [] (start-IsState edges g) (omega arith) in
      finished order incoming e s

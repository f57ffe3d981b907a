-- ===== src/Workflow/Graph/Order.antt =====
-- The order that the loop gives.
use brain_inspired_agent.Prelude.{
  ℕ, zero, suc, ◌+◌, ◌≤◌, ◌<◌, String, ◌≡◌, refl, sym, ap, ◌∙◌, true, false, ◌||◌, Option, none,
  some, List, [], ◌∷◌, ◌++◌, filter, length, length-append, has, ◌==◌, str_eq, str_lt, eq_iff,
  eq_refl, arith, if_elim, Dict, lookup,
}
use brain_inspired_agent.Prelude.Sort.{sorted}
use brain_inspired_agent.Workflow.Graph.{count_of, targets, release, loop, initial, initially_ready}
use brain_inspired_agent.Workflow.Graph.Counts.{
  Distinct, Within, has-append, has-sorted, Distinct-sorted, Distinct-snoc, has-filter,
  Distinct-filter, length-Distinct_le, Within-Distinct,
}
use brain_inspired_agent.Workflow.Graph.Loop.{
  keys, one_if, remaining, DistinctTargets, remaining_snoc, remaining_zero, count-initial,
}
use brain_inspired_agent.Workflow.Graph.Release.{
  count-release, has-release, Distinct-release, Apart,
}

-- The nodes are the keys of `edges`, each once; the target sets hold nodes, each once.
pub record IsGraph (edges : Dict (List String)) : Type 0 where
  pub nodes : Distinct (keys edges)
  pub target_sets : DistinctTargets edges
  pub closed : (a b : String) → has b (targets edges a) ≡ true → has b (keys edges) ≡ true

-- Every node of the list comes after all that lead to it; those of `before` come first.
abbrev pub Follows : Dict (List String) → List String → List String → Type 0
Follows edges before [] = Unit
Follows edges before (x ∷ xs) =
    ((a : String) → has x (targets edges a) ≡ true → has a before ≡ true)
    × Follows edges (x ∷ before) xs

Follows-snoc :
    (edges : Dict (List String)) (before xs : List String) (x : String)
    → Follows edges before xs
    → ((a : String) → has x (targets edges a) ≡ true → (has a before || has a xs) ≡ true)
    → Follows edges before (xs ++ x ∷ [])
Follows-snoc edges before [] x f h = (λ a e. ground (arith, h a e), tt)
Follows-snoc edges before (y ∷ xs) x f h =
    (f.0, Follows-snoc edges (y ∷ before) xs x f.1 (λ a e. ground (arith, h a e)))

abbrev DistinctEntry : Option (List String) → Type 0
DistinctEntry none = Unit
DistinctEntry (some ts) = Distinct ts

Distinct-lookup :
    (x : String) (edges : Dict (List String))
    → DistinctTargets edges
    → DistinctEntry (lookup x edges)
unfolding lookup
Distinct-lookup x [] d = tt
Distinct-lookup x ((a, ts) ∷ es) d =
    if_elim DistinctEntry (str_eq a x) _ _ (λ _. d.0) (λ _. Distinct-lookup x es d.1)

pub Distinct-targets :
    (x : String) (edges : Dict (List String)) → DistinctTargets edges → Distinct (targets edges x)
Distinct-targets x edges d = of (lookup x edges) (Distinct-lookup x edges d)
  where
    of :
        (o : Option (List String))
        → DistinctEntry o
        → Distinct (elim o [ none ↦ [] | some ts ↦ ts ])
    of none h = tt
    of (some ts) h = h

-- Between two rounds: the counters count the nodes not yet taken that lead to a node; a node is
-- ready or taken exactly when none does; none is both, or either twice; and the order follows the edges.
pub record IsState (edges : Dict (List String)) (incoming : Dict ℕ) (ready order : List String)
    : Type 0 where
  pub counts : (n : String) → count_of n incoming ≡ remaining order n edges
  pub known :
      (n : String)
      → has n (keys edges) ≡ true
      → (has n order || has n ready) ≡ (count_of n incoming == 0)
  pub ready_within : Within ready (keys edges)
  pub order_within : Within order (keys edges)
  pub fresh : Apart ready order
  pub ready_distinct : Distinct ready
  pub order_distinct : Distinct order
  pub follows : Follows edges [] order

module _ (edges : Dict (List String)) (g : IsGraph edges) where
  pub start-IsState :
      IsState edges (initial (keys edges) edges) (initially_ready (keys edges) edges) []
  start-IsState =
      let zeroes = filter (λ n. count_of n (initial (keys edges) edges) == 0) (keys edges) in
      record {
        counts = λ n. count-initial n edges g.target_sets;
        known = λ n h. ground (
          arith,
          h,
          has-sorted n zeroes,
          has-filter (λ n. count_of n (initial (keys edges) edges) == 0) n (keys edges),
        );
        ready_within = λ n h. ground (
          arith,
          h,
          has-sorted n zeroes,
          has-filter (λ n. count_of n (initial (keys edges) edges) == 0) n (keys edges),
        );
        order_within = λ n h. ground (arith, h);
        fresh = λ n h. refl;
        ready_distinct = Distinct-sorted zeroes (Distinct-filter _ (keys edges) g.nodes);
        order_distinct = tt;
        follows = tt;
      }

  module _ (incoming : Dict ℕ) (x : String) (ready order : List String)
      (s : IsState edges incoming (x ∷ ready) order) where
    abbrev ts : List String
    ts = sorted str_lt (targets edges x)

    abbrev next : Dict ℕ × List String
    next = release ts incoming ready

    ts_distinct : Distinct ts
    ts_distinct = Distinct-sorted (targets edges x) (Distinct-targets x edges g.target_sets)

    x_new : has x order ≡ false
    x_new = s.fresh x (ground (arith, eq_refl x))

    x_zero : count_of x incoming ≡ 0
    x_zero = ground (arith, s.known x (s.ready_within x (ground (arith, eq_refl x))), eq_refl x)

    -- A target of the node is neither ready nor taken.
    target_waits :
        (n : String)
        → has n (targets edges x) ≡ true
        → (has n order ≡ false) × (has n (x ∷ ready) ≡ false) × (1 ≤ count_of n incoming)
    target_waits n h =
        let more = remaining_snoc order x n edges g.nodes x_new in
        ground (arith, h, s.known n (g.closed x n h), more, s.counts n)

    x_follows : (a : String) → has x (targets edges a) ≡ true → has a order ≡ true
    x_follows a h = remaining_zero order x a edges (sym (s.counts x) ∙ x_zero) h

    round-IsState : IsState edges next.0 next.1 (order ++ x ∷ [])
    round-IsState = record {
      counts = λ n. omega (
        arith,
        count-release n ts incoming ready ts_distinct,
        s.counts n,
        remaining_snoc order x n edges g.nodes x_new,
        ap one_if (has-sorted n (targets edges x)),
      );
      known = λ n h. ground (
        arith,
        s.known n h,
        target_waits n,
        has-append n order (x ∷ []),
        has-release n ts incoming ready ts_distinct,
        count-release n ts incoming ready ts_distinct,
        has-sorted n (targets edges x),
      );
      ready_within = λ n h. ground (
        arith,
        h,
        s.ready_within n,
        g.closed x n,
        has-release n ts incoming ready ts_distinct,
        has-sorted n (targets edges x),
      );
      order_within =
          λ n h. ground (arith, h, s.order_within n, s.ready_within n, has-append n order (x ∷ []));
      fresh = λ n h. ground (
        arith,
        h,
        s.fresh n,
        s.ready_distinct.0,
        target_waits n,
        has-append n order (x ∷ []),
        has-release n ts incoming ready ts_distinct,
        has-sorted n (targets edges x),
        eq_iff x n,
        ap (λ k. has k ready) {x = x} {y = n},
      );
      ready_distinct =
          Distinct-release ts incoming ready ts_distinct
            (λ n h. ground (arith, h, target_waits n, has-sorted n (targets edges x)))
            s.ready_distinct.1;
      order_distinct = Distinct-snoc order x x_new s.order_distinct;
      follows = Follows-snoc edges [] order x s.follows (λ a h. ground (arith, x_follows a h));
    }

-- A numbering that rises along every edge: there is one exactly when no cycle exists.
abbrev pub Ranks : Dict (List String) → (String → ℕ) → Type 0
Ranks edges rank = (a b : String) → has b (targets edges a) ≡ true → rank a < rank b

-- The order holds every node once, and each after all nodes that lead to it.
pub record IsOrder (edges : Dict (List String)) (order : List String) : Type 0 where
  pub distinct : Distinct order
  pub members : (n : String) → has n order ≡ has n (keys edges)
  pub follows : Follows edges [] order

module _ (edges : Dict (List String)) (g : IsGraph edges) where
  room :
      (incoming : Dict ℕ) (x : String) (ready order : List String)
      → IsState edges incoming (x ∷ ready) order
      → length order < length (keys edges)
  room incoming x ready order s =
      let next = round-IsState edges g incoming x ready order s in
      omega (
        arith,
        length-Distinct_le (order ++ x ∷ []) (keys edges) next.order_distinct next.order_within,
        length-append order (x ∷ []),
      )

  pub loop_ends :
      (rounds : ℕ) (incoming : Dict ℕ) (ready order : List String)
      → IsState edges incoming ready order
      → length (keys edges) ≤ rounds + length order
      → (order' : List String) × (incoming' : Dict ℕ) × (loop edges rounds incoming ready order
          ≡ some order')
        × IsState edges incoming' [] order'
  unfolding loop
  loop_ends rounds incoming [] order s le = (order, incoming, refl, s)
  loop_ends zero incoming (x ∷ ready) order s le =
      absurd (omega (arith, room incoming x ready order s))
  loop_ends (suc rounds) incoming (x ∷ ready) order s le =
      loop_ends rounds _ _ (order ++ x ∷ []) (round-IsState edges g incoming x ready order s)
        (omega (arith, length-append order (x ∷ [])))

  pub IsState-IsOrder :
      (incoming : Dict ℕ) (order : List String)
      → IsState edges incoming [] order
      → length order ≡ length (keys edges)
      → IsOrder edges order
  IsState-IsOrder incoming order s e = record {
    distinct = s.order_distinct;
    members = λ n. ground (
      arith,
      s.order_within n,
      Within-Distinct order (keys edges) s.order_distinct s.order_within (omega (arith, e)) n,
    );
    follows = s.follows;
  }

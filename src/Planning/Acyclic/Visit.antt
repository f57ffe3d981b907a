-- ===== src/Planning/Acyclic/Visit.antt =====
-- What a visit does, and what the whole search says of the graph.
use brain_inspired_agent.Prelude.{
  ℕ, zero, suc, ◌+◌, ◌<◌, String, ◌≡◌, ◌≢◌, refl, sym, ap, ◌∙◌, subst, true, false, List, [], ◌∷◌,
  length, has, str_eq, eq_iff, eq_refl, arith, if_elim, Bool-cases, inl, inr, Dict, Result, ok,
  raise, ◌>>=◌,
}
use brain_inspired_agent.Workflow.Graph.{targets}
use brain_inspired_agent.Workflow.Graph.Counts.{Distinct, Within, length-Distinct_le}
use brain_inspired_agent.Workflow.Graph.Loop.{keys}
use brain_inspired_agent.Planning.Acyclic.{
  PlanGraphError, has_cycle, too_deep, Search, discard, each, entered, left, visit, assert_acyclic,
}

-- Every node was finished after all of its dependencies: the list has the latest node first.
abbrev pub Finished : Dict (List String) → List String → Type 0
Finished edges [] = Unit
Finished edges (x ∷ xs) =
    ((d : String) → has d (targets edges x) ≡ true → has d xs ≡ true) × Finished edges xs

-- A numbering in which every dependency is lower than what depends on it.
abbrev pub Lowers : Dict (List String) → (String → ℕ) → Type 0
Lowers edges rank = (a d : String) → has d (targets edges a) ≡ true → rank d < rank a

-- The nodes on the path are numbered above those of the list.
abbrev Above : (String → ℕ) → List String → List String → Type 0
Above rank path ns = (a n : String) → has a path ≡ true → has n ns ≡ true → rank n < rank a

-- What visiting some nodes gives: the same path and more visited nodes, all finished and with these
-- among them; or a cycle, which no numbering allows.
abbrev Visits : Dict (List String) → Search → List String → Result PlanGraphError Search → Type 0
Visits edges s ns (ok s') =
    (s'.visiting ≡ s.visiting)
    × Finished edges s'.visited
    × Within s.visited s'.visited
    × Within ns s'.visited
Visits edges s ns (raise has_cycle) =
    (rank : String → ℕ) → Lowers edges rank → Above rank s.visiting ns → ⊥
Visits edges s ns (raise too_deep) = ⊥

abbrev Visitor :
    Dict (List String) → List String → (String → Search → Result PlanGraphError Search) → Type 0
Visitor edges path f =
    (n : String) (s : Search)
    → has n (keys edges) ≡ true
    → s.visiting ≡ path
    → Finished edges s.visited
    → Visits edges s (n ∷ []) (f n s)

-- What is said of one visit holds of a loop of visits.
each-Visits :
    (edges : Dict (List String)) (path : List String)
    (f : String → Search → Result PlanGraphError Search) (ns : List String) (s : Search)
    → Visitor edges path f
    → Within ns (keys edges)
    → s.visiting ≡ path
    → Finished edges s.visited
    → Visits edges s ns (each f ns s)
each-Visits edges path f [] s v w p fin = (refl, fin, λ n h. h, λ n h. absurd (ground (arith, h)))
each-Visits edges path f (n ∷ ns) s v w p fin =
    go (f n s) (v n s (w n (ground (arith, eq_refl n))) p fin)
      (λ s' q fin'. each-Visits edges path f ns s' v (λ k h. w k (ground (arith, h))) q fin')
  where
    go :
        (r : Result PlanGraphError Search)
        → Visits edges s (n ∷ []) r
        → ((s' : Search)
            → s'.visiting ≡ path
            → Finished edges s'.visited
            → Visits edges s' ns (each f ns s'))
        → Visits edges s (n ∷ ns) (r >>= λ s'. each f ns s')
    go (raise has_cycle) h rest = λ rank l a. h rank l (λ b k hb hk. a b k hb (ground (arith, hk)))
    go (raise too_deep) h rest = h
    go (ok s') (same, fin', grows, here) rest = onward (each f ns s') (rest s' (same ∙ p) fin')
      where
        onward :
            (r : Result PlanGraphError Search) → Visits edges s' ns r → Visits edges s (n ∷ ns) r
        onward (raise has_cycle) h = λ rank l a.
            h rank l (λ b k hb hk. a b k (ground (arith, hb, ap (has b) same)) (ground (arith, hk)))
        onward (raise too_deep) h = h
        onward (ok s'') (same', fin'', grows', rest') = (
          same' ∙ same,
          fin'',
          λ k h. grows' k (grows k h),
          λ k h. elim (Bool-cases (has k ns)) [
            | inl e ↦ rest' k e
            | inr e ↦ grows' k (here k (ground (arith, h, e)))
          ],
        )

discard-absent : (n : String) (xs : List String) → has n xs ≡ false → discard n xs ≡ xs
discard-absent n [] h = refl
discard-absent n (x ∷ xs) h =
    let rest = discard-absent n xs (ground (arith, h)) in
    ground (arith, h, rest, eq_iff x n, eq_iff n x)

discard-entered : (n : String) (xs : List String) → has n xs ≡ false → discard n (n ∷ xs) ≡ xs
discard-entered n xs h = ground (arith, eq_refl n, discard-absent n xs h)

module _ (edges : Dict (List String))
    (closed : (a d : String) → has d (targets edges a) ≡ true → has d (keys edges) ≡ true) where
  -- A node is left when its dependencies have been visited.
  left-Visits :
      (n : String) (s : Search) (r : Result PlanGraphError Search)
      → has n s.visiting ≡ false
      → Visits edges (entered n s) (targets edges n) r
      → Visits edges s (n ∷ []) (r >>= λ s'. ok (left n s'))
  left-Visits n s (raise has_cycle) absent h = λ rank l a. h rank l (λ b d hb hd.
      let low = l n d hd in
      elim (Bool-cases (str_eq n b)) [
        | inl e ↦ subst (λ k. rank d < rank k) ((eq_iff n b).0 e) low
        | inr e ↦
            let high = a b n (ground (arith, hb, e)) (ground (arith, eq_refl n)) in
            omega (arith, low, high)
      ])
  left-Visits n s (raise too_deep) absent h = h
  left-Visits n s (ok s') absent (same, fin, grows, deps) = (
    ap (discard n) same ∙ discard-entered n s.visiting absent,
    ((λ d e. deps d e), fin),
    λ k e. ground (arith, grows k e),
    λ k e. ground (arith, e),
  )

  visit-Visits :
      (depth : ℕ) (path : List String)
      → Distinct path
      → Within path (keys edges)
      → length (keys edges) < depth + length path
      → Visitor edges path (visit depth edges)
  unfolding visit
  visit-Visits zero path u w room n s k p fin =
      let size = length-Distinct_le path (keys edges) u w in absurd (omega (arith, size, room))
  visit-Visits (suc depth) path u w room n s k p fin =
      if_elim (Visits edges s (n ∷ [])) (has n s.visiting) _ _
        (λ e rank l a. let low = a n n e (ground (arith, eq_refl n)) in omega (arith, low))
        (λ e.
          let absent : has n path ≡ false = ap (has n) (sym p) ∙ e in
          let deeper =
            visit-Visits depth (n ∷ path) (absent, u)
              (λ j h.
                ground (arith, h, w j, k, eq_iff n j, ap (λ t. has t (keys edges)) {x = n} {y = j}))
              (omega (arith, room)) in
          let visited =
            each-Visits edges (n ∷ path) (visit depth edges) (targets edges n) (entered n s) deeper
              (λ d h. closed n d h) (ap (◌∷◌ n) p) fin in
          if_elim (Visits edges s (n ∷ [])) (has n s.visited) _ _
            (λ f. (
              refl,
              fin,
              λ j h. h,
              λ j h. ground (arith, f, h, eq_iff n j, ap (λ t. has t s.visited) {x = n} {y = j}),
            ))
            (λ f.
              left-Visits n s (each (visit depth edges) (targets edges n) (entered n s)) e visited))

  -- For tasks that depend on tasks: where the search ends without an error, every task was visited and
  -- finished after all of its dependencies; it reports a cycle only where no numbering has every task
  -- above its dependencies; and it never goes too deep.
  pub assert_acyclic_lem :
      ((s : Search)
        → assert_acyclic edges ≡ ok s
        → Finished edges s.visited × Within (keys edges) s.visited)
      × (assert_acyclic edges ≡ raise has_cycle → (rank : String → ℕ) → Lowers edges rank → ⊥)
      × (assert_acyclic edges ≢ raise too_deep)
  unfolding assert_acyclic
  assert_acyclic_lem =
      let start : Search = record { visiting = []; visited = [] } in
      let search = each (visit (length (keys edges) + 1) edges) (keys edges) start in
      let v : Visits edges start (keys edges) search =
        each-Visits edges [] (visit (length (keys edges) + 1) edges) (keys edges) start
          (visit-Visits (length (keys edges) + 1) [] tt (λ n h. absurd (ground (arith, h)))
            (omega arith))
          (λ n h. h) refl tt in
      (
        λ s e.
            let (same, fin, grows, all) = subst (Visits edges start (keys edges)) e v in (fin, all),
        λ e rank l.
            subst (Visits edges start (keys edges)) e v rank l
              (λ a n h k. absurd (ground (arith, h))),
        λ e. subst (Visits edges start (keys edges)) e v,
      )

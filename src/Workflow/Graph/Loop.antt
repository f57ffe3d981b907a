-- ===== src/Workflow/Graph/Loop.antt =====
-- The counters, the ready nodes and the order, round by round.
use brain_inspired_agent.Prelude.{
  ℕ, ◌+◌, String, ◌≡◌, refl, ap, ◌∙◌, subst, Bool, true, false, none, List, [], ◌∷◌, ◌++◌, has,
  str_eq, eq_iff, arith, if◌then◌else◌, Bool-cases, inl, inr, Dict, lookup, insert, lookup-insert,
}
use brain_inspired_agent.Workflow.Graph.{
  count_of, targets, count_targets, count_edges, no_edges, initial,
}
use brain_inspired_agent.Workflow.Graph.Counts.{Distinct, has-append}

abbrev pub keys {ℓ} : {V : Type ℓ} → Dict V → List String
keys [] = []
keys ((k, v) ∷ d) = k ∷ keys d

abbrev pub one_if : Bool → ℕ
one_if true = 1
one_if false = 0

-- How many nodes that are not done lead to `n`.
unfoldable pub remaining : List String → String → Dict (List String) → ℕ
remaining done n [] = 0
remaining done n ((a, ts) ∷ es) =
    (if has a done then 0 else one_if (has n ts)) + remaining done n es

-- The sets of targets have no repetition.
abbrev pub DistinctTargets : Dict (List String) → Type 0
DistinctTargets [] = Unit
DistinctTargets ((a, ts) ∷ es) = Distinct ts × DistinctTargets es

remaining_absent :
    (done : List String) (x n : String) (es : Dict (List String))
    → has x (keys es) ≡ false
    → remaining (done ++ x ∷ []) n es ≡ remaining done n es
unfolding remaining
remaining_absent done x n [] h = refl
remaining_absent done x n ((a, ts) ∷ es) h =
    ground
      (arith, h, remaining_absent done x n es, has-append a done (x ∷ []), eq_iff x a, eq_iff a x)

targets_absent :
    (x : String) (es : Dict (List String)) → has x (keys es) ≡ false → lookup x es ≡ none
unfolding lookup
targets_absent x [] h = refl
targets_absent x ((a, ts) ∷ es) h = ground (arith, h, targets_absent x es)

-- A node that is done no longer counts.
pub remaining_snoc :
    (done : List String) (x n : String) (es : Dict (List String))
    → Distinct (keys es)
    → has x done ≡ false
    → remaining done n es ≡ remaining (done ++ x ∷ []) n es + one_if (has n (targets es x))
unfolding remaining lookup
remaining_snoc done x n [] d h = refl
remaining_snoc done x n ((a, ts) ∷ es) d h = elim (Bool-cases (str_eq a x)) [
  | inl e ↦
      let same : a ≡ x = (eq_iff a x).0 e in
      let gone : has x (keys es) ≡ false = subst (λ y. has y (keys es) ≡ false) same d.0 in
      let out : has a done ≡ false = ap (λ y. has y done) same ∙ h in
      ground (
        arith,
        e,
        out,
        has-append a done (x ∷ []),
        eq_iff x a,
        same,
        remaining_absent done x n es gone,
      )
  | inr e ↦ ground (
    arith,
    e,
    has-append a done (x ∷ []),
    eq_iff x a,
    eq_iff a x,
    remaining_snoc done x n es d.1 h,
  )
]

-- If no node that is left leads to `n`, every node that leads to it is done.
pub remaining_zero :
    (done : List String) (n a : String) (es : Dict (List String))
    → remaining done n es ≡ 0
    → has n (targets es a) ≡ true
    → has a done ≡ true
unfolding remaining lookup
remaining_zero done n a [] z h = ground (arith, h)
remaining_zero done n a ((b, ts) ∷ es) z h = elim (Bool-cases (str_eq b a)) [
  | inl e ↦
      let same : b ≡ a = (eq_iff b a).0 e in
      let back : has b done ≡ has a done = ap (λ y. has y done) same in
      ground (arith, e, z, h, back)
  | inr e ↦ remaining_zero done n a es (ground (arith, z)) (ground (arith, e, h))
]

count-count_targets :
    (n : String) (ts : List String) (incoming : Dict ℕ)
    → Distinct ts
    → count_of n (count_targets ts incoming) ≡ count_of n incoming + one_if (has n ts)
unfolding count_targets
count-count_targets n [] incoming d = omega arith
count-count_targets n (t ∷ ts) incoming d = ground (
  arith,
  count-count_targets n ts (insert t (count_of t incoming + 1) incoming) d.1,
  lookup-insert t n (count_of t incoming + 1) incoming,
  eq_iff t n,
  d.0,
  ap (λ k. has k ts) {x = t} {y = n},
  ap (λ k. count_of k incoming) {x = t} {y = n},
)

count-count_edges :
    (n : String) (es : Dict (List String)) (incoming : Dict ℕ)
    → DistinctTargets es
    → count_of n (count_edges es incoming) ≡ count_of n incoming + remaining [] n es
unfolding count_edges remaining
count-count_edges n [] incoming d = omega arith
count-count_edges n ((a, ts) ∷ es) incoming d = omega (
  arith,
  count-count_edges n es (count_targets ts incoming) d.1,
  count-count_targets n ts incoming d.0,
)

count-no_edges : (n : String) (ns : List String) → count_of n (no_edges ns) ≡ 0
unfolding lookup
count-no_edges n [] = refl
count-no_edges n (m ∷ ns) = ground (arith, count-no_edges n ns)

pub count-initial :
    (n : String) (es : Dict (List String))
    → DistinctTargets es
    → count_of n (initial (keys es) es) ≡ remaining [] n es
count-initial n es d =
    omega (arith, count-count_edges n es (no_edges (keys es)) d, count-no_edges n (keys es))

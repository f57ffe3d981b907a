-- ===== src/Workflow/Graph/Release.antt =====
-- What releasing the targets of a node does to the counters and the ready nodes.
use brain_inspired_agent.Prelude.{
  ℕ, ◌-◌, String, ◌≡◌, ap, true, false, ◌&&◌, ◌||◌, List, [], ◌∷◌, ◌++◌, has, ◌==◌, str_eq, eq_iff,
  eq_refl, arith, if_elim, Bool-cases, inl, inr, Dict, insert, lookup-insert,
}
use brain_inspired_agent.Workflow.Graph.{count_of, add_ready, release}
use brain_inspired_agent.Workflow.Graph.Counts.{
  Distinct, has-append, has-sorted, Distinct-sorted, Distinct-snoc,
}
use brain_inspired_agent.Workflow.Graph.Loop.{one_if}

abbrev lowered : String → Dict ℕ → Dict ℕ
lowered t incoming = insert t (count_of t incoming - 1) incoming

count-lowered :
    (n t : String) (incoming : Dict ℕ)
    → count_of n (lowered t incoming) ≡ count_of n incoming - one_if (str_eq t n)
count-lowered n t incoming = ground (
  arith,
  lookup-insert t n (count_of t incoming - 1) incoming,
  eq_iff t n,
  ap (λ k. count_of k incoming) {x = t} {y = n},
)

pub count-release :
    (n : String) (ts : List String) (incoming : Dict ℕ) (ready : List String)
    → Distinct ts
    → count_of n (release ts incoming ready).0 ≡ count_of n incoming - one_if (has n ts)
unfolding release
count-release n [] incoming ready d = omega arith
count-release n (t ∷ ts) incoming ready d = ground (
  arith,
  count-release n ts (lowered t incoming) (add_ready t (count_of t incoming - 1) ready) d.1,
  count-lowered n t incoming,
  eq_iff t n,
  d.0,
  ap (λ k. has k ts) {x = t} {y = n},
)

has-add_ready :
    (n t : String) (left : ℕ) (ready : List String)
    → has n (add_ready t left ready) ≡ (has n ready || (str_eq t n && left == 0))
has-add_ready n t left ready = elim (Bool-cases (left == 0)) [
  | inl e ↦ rw e (ground (arith, e, has-sorted n (ready ++ t ∷ []), has-append n ready (t ∷ [])))
  | inr e ↦ ground (arith, e)
]

pub has-release :
    (n : String) (ts : List String) (incoming : Dict ℕ) (ready : List String)
    → Distinct ts
    → has n (release ts incoming ready).1
      ≡ (has n ready || (has n ts && (count_of n incoming - 1 == 0)))
unfolding release
has-release n [] incoming ready d = ground arith
has-release n (t ∷ ts) incoming ready d = ground (
  arith,
  has-release n ts (lowered t incoming) (add_ready t (count_of t incoming - 1) ready) d.1,
  count-lowered n t incoming,
  has-add_ready n t (count_of t incoming - 1) ready,
  eq_iff t n,
  d.0,
  ap (λ k. has k ts) {x = t} {y = n},
  ap (λ k. count_of k incoming) {x = t} {y = n},
)

-- The two lists have no member in common.
abbrev pub Apart : List String → List String → Type 0
Apart xs ys = (n : String) → has n xs ≡ true → has n ys ≡ false

Distinct-add_ready :
    (t : String) (left : ℕ) (ready : List String)
    → has t ready ≡ false
    → Distinct ready
    → Distinct (add_ready t left ready)
Distinct-add_ready t left ready h d =
    if_elim Distinct (left == 0) _ _
      (λ _. Distinct-sorted (ready ++ t ∷ []) (Distinct-snoc ready t h d)) (λ _. d)

pub Distinct-release :
    (ts : List String) (incoming : Dict ℕ) (ready : List String)
    → Distinct ts
    → Apart ts ready
    → Distinct ready
    → Distinct (release ts incoming ready).1
unfolding release
Distinct-release [] incoming ready d a r = r
Distinct-release (t ∷ ts) incoming ready d a r =
    let left = count_of t incoming - 1 in
    let new = a t (ground (arith, eq_refl t)) in
    Distinct-release ts (lowered t incoming) (add_ready t left ready) d.1
      (λ n h. ground (
        arith,
        a n,
        h,
        has-add_ready n t left ready,
        eq_iff t n,
        d.0,
        ap (λ k. has k ts) {x = t} {y = n},
      ))
      (Distinct-add_ready t left ready new r)

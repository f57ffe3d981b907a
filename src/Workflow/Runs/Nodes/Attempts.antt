-- ===== src/Workflow/Runs/Nodes/Attempts.antt =====
-- The attempts of a node.
use brain_inspired_agent.Prelude.{
  ℕ, suc, ◌<◌, String, ◌≡◌, refl, sym, ap, ◌∙◌, subst, Bool, true, false, ◌&&◌, ◌||◌, Option, none,
  some, List, [], ◌∷◌, ◌++◌, map, ◌==◌, arith, if◌then◌else◌, Bool-cases, inl, inr,
}
use brain_inspired_agent.Workflow.Runs.Nodes.{
  NodeRunStatus, parse, is_member, terminal, NodeRow, same_node, latest, later, attempts_of,
}

abbrev pub done_status : Option NodeRunStatus → Bool
done_status none = false
done_status (some s) = is_member s terminal

unfoldable pub is_done : NodeRow → Bool
is_done r = done_status (parse r.status)

abbrev is_nil : List NodeRow → Bool
is_nil [] = true
is_nil (r ∷ rows) = false

-- The attempts count up from one after `n`, and every one but the last is done.
abbrev pub sequential : ℕ → List NodeRow → Bool
sequential n [] = true
sequential n (r ∷ rows) =
    r.attempt == suc n && ((is_nil rows || is_done r) && sequential (suc n) rows)

-- The next attempt after the latest one.
abbrev pub Next : ℕ → ℕ → Option NodeRow → Type 0
Next n a none = a ≡ suc n
Next n a (some p) = (a ≡ suc p.attempt) × (is_done p ≡ true)

later_lem : (r best : NodeRow) → r.attempt < best.attempt → later r (some best) ≡ some best
later_lem r best h = ground (arith, h)

latest-sequential :
    (n : ℕ) (r : NodeRow) (rows : List NodeRow)
    → sequential n (r ∷ rows) ≡ true
    → (best : NodeRow) × (latest (r ∷ rows) ≡ some best) × (n < best.attempt)
latest-sequential n r [] h = (r, refl, ground (arith, h))
latest-sequential n r (u ∷ us) h =
    let (best, e, lt) = latest-sequential (suc n) u us (ground (arith, h)) in
    let here : r.attempt ≡ suc n = ground (arith, h) in
    (best, ap (later r) e ∙ later_lem r best (omega (arith, lt, here)), omega (arith, lt))

pub sequential-snoc :
    (n a : ℕ) (rows : List NodeRow) (new : NodeRow)
    → new.attempt ≡ a
    → sequential n rows ≡ true
    → Next n a (latest rows)
    → sequential n (rows ++ new ∷ []) ≡ true
sequential-snoc n a [] new e h x = ground (arith, e, x)
sequential-snoc n a (r ∷ []) new e h x = ground (arith, e, x.0, x.1, h)
sequential-snoc n a (r ∷ u ∷ us) new e h x =
    let after_first : sequential (suc n) (u ∷ us) ≡ true = ground (arith, h) in
    let here : r.attempt ≡ suc n = ground (arith, h) in
    let (best, f, lt) = latest-sequential (suc n) u us after_first in
    let same : latest (r ∷ u ∷ us) ≡ latest (u ∷ us) =
      ap (later r) f ∙ later_lem r best (omega (arith, lt, here)) ∙ sym f in
    let rest = sequential-snoc (suc n) a (u ∷ us) new e after_first (ap_next same f x) in
    ground (arith, h, rest)
  where
    ap_next :
        {best : NodeRow}
        → latest (r ∷ u ∷ us) ≡ latest (u ∷ us)
        → latest (u ∷ us) ≡ some best
        → Next n a (latest (r ∷ u ∷ us))
        → Next (suc n) a (latest (u ∷ us))
    ap_next {best = best} same f x = subst (Next (suc n) a) (sym f) (subst (Next n a) (same ∙ f) x)

and_all : (a b c : Bool) → a ≡ true → b ≡ true → c ≡ true → (a && ((false || b) && c)) ≡ true
and_all a b c p q r = rw (p, q, r) refl

pub sequential-map :
    (g : NodeRow → NodeRow) (n : ℕ) (rows : List NodeRow)
    → ((r : NodeRow) → (g r).attempt ≡ r.attempt)
    → ((r : NodeRow) → is_done r ≡ true → is_done (g r) ≡ true)
    → sequential n rows ≡ true
    → sequential n (map g rows) ≡ true
sequential-map g n [] a d h = refl
sequential-map g n (r ∷ []) a d h = ground (arith, h, a r)
sequential-map g n (r ∷ u ∷ us) a d h =
    let rest = sequential-map g (suc n) (u ∷ us) a d (ground (arith, h)) in
    let one : is_done (g r) ≡ true = d r (ground (arith, h)) in
    let first : (r.attempt == suc n) ≡ true = ground (arith, h) in
    and_all ((g r).attempt == suc n) (is_done (g r)) (sequential (suc n) (map g (u ∷ us)))
      (ap (λ k. k == suc n) (a r) ∙ first) one rest

pub attempts-snoc :
    (run_id node_id : String) (rows : List NodeRow) (new : NodeRow)
    → attempts_of run_id node_id (rows ++ new ∷ []) ≡ (
        if same_node run_id node_id new
        then attempts_of run_id node_id rows ++ new ∷ []
        else attempts_of run_id node_id rows)
attempts-snoc run_id node_id [] new = ground arith
attempts-snoc run_id node_id (r ∷ rows) new = elim (Bool-cases (same_node run_id node_id r)) [
  | inl e ↦ ground (arith, e, attempts-snoc run_id node_id rows new)
  | inr e ↦ ground (arith, e, attempts-snoc run_id node_id rows new)
]

pub attempts-map :
    (run_id node_id : String) (g : NodeRow → NodeRow) (rows : List NodeRow)
    → ((r : NodeRow) → same_node run_id node_id (g r) ≡ same_node run_id node_id r)
    → attempts_of run_id node_id (map g rows) ≡ map g (attempts_of run_id node_id rows)
attempts-map run_id node_id g [] k = refl
attempts-map run_id node_id g (r ∷ rows) k = elim (Bool-cases (same_node run_id node_id r)) [
  | inl e ↦ rw (k r, e) (ap (◌∷◌ (g r)) (attempts-map run_id node_id g rows k))
  | inr e ↦ rw (k r, e) (attempts-map run_id node_id g rows k)
]

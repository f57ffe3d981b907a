-- ===== src/Workflow/Runs/Workflows/Replay.antt =====
-- What a history of transitions says of its run: the status and the version that it ends with.
use brain_inspired_agent.Prelude.{
  ℕ, suc, String, ◌≡◌, refl, ap, ◌∙◌, Bool, true, false, ◌&&◌, Option, none, some, List, [], ◌∷◌,
  ◌++◌, find?_holds, ltb, ◌==◌, str_eq, eq_iff, arith, if◌then◌else◌, Option-cases, inl, inr,
}
use brain_inspired_agent.Prelude.Sort.{sorted, insert_sorted}
use brain_inspired_agent.Workflow.Runs.{RunTransition}
use brain_inspired_agent.Workflow.Runs.Workflows.{
  WorkflowRunStatus, pending, ready, running, succeeded, failed, timed_out, cancelled, statuses,
  text_of, parse, is_member, transitions, version_lt,
}

abbrev pub is_text : String → Option String → Bool
is_text s none = false
is_text s (some t) = str_eq s t

abbrev continues :
    WorkflowRunStatus → ℕ → RunTransition → Option WorkflowRunStatus → Option WorkflowRunStatus
continues s n t none = none
continues s n t (some s') =
    if is_text (text_of s) t.from_status && (is_member s' (transitions s) && t.version == suc n)
    then some s'
    else none

-- The status after a transition that continues a run of this status and version.
abbrev pub moved : WorkflowRunStatus → ℕ → RunTransition → Option WorkflowRunStatus
moved s n t = continues s n t (parse t.to_status)

if_all {ℓ} :
    {A : Type ℓ} (a b c : Bool) (x y : A)
    → a ≡ true
    → b ≡ true
    → c ≡ true
    → (if a && (b && c) then x else y) ≡ x
if_all a b c x y p q r = rw (p, q, r) refl

pub moved_lem :
    (s s' : WorkflowRunStatus) (n : ℕ) (t : RunTransition)
    → parse t.to_status ≡ some s'
    → is_text (text_of s) t.from_status ≡ true
    → is_member s' (transitions s) ≡ true
    → (t.version == suc n) ≡ true
    → moved s n t ≡ some s'
moved_lem s s' n t p f m v =
    ap (continues s n t) p
    ∙ if_all (is_text (text_of s) t.from_status) (is_member s' (transitions s)) (t.version == suc n)
        (some s') none f m v

abbrev pub follow : WorkflowRunStatus → ℕ → List RunTransition → Option (WorkflowRunStatus × ℕ)
follow s n [] = some (s, n)
follow s n (t ∷ ts) = elim (moved s n t) [ none ↦ none | some s' ↦ follow s' (suc n) ts ]

abbrev absent : Option String → Bool
absent none = true
absent (some t) = false

-- The first transition of a run.
abbrev pub starts : RunTransition → Bool
starts t = absent t.from_status && (str_eq t.to_status (text_of pending) && t.version == 0)

-- The status and the version after a whole history: it starts with the creation, each transition goes on
-- from the one before it by a move of the table, and the versions count up by one.
abbrev pub replay : List RunTransition → Option (WorkflowRunStatus × ℕ)
replay [] = none
replay (t ∷ ts) = if starts t then follow pending 0 ts else none

follow-snoc :
    (s : WorkflowRunStatus) (n : ℕ) (ts : List RunTransition) (t : RunTransition)
    (last now : WorkflowRunStatus) (k : ℕ)
    → follow s n ts ≡ some (last, k)
    → moved last k t ≡ some now
    → follow s n (ts ++ t ∷ []) ≡ some (now, suc k)
follow-snoc s n [] t last now k e m =
    let same : s ≡ last = ground (arith, e) in
    let count : n ≡ k = ground (arith, e) in
    ground (arith, ap (λ x. moved x n t) same, ap (λ x. moved last x t) count, m, count)
follow-snoc s n (u ∷ ts) t last now k e m = elim (Option-cases (moved s n u)) [
  | inl f ↦ absurd (ground (arith, e, f))
  | inr (s', f) ↦
      let rest = follow-snoc s' (suc n) ts t last now k (ground (arith, e, f)) m in
      ground (arith, f, rest)
]

pub replay-snoc :
    (ts : List RunTransition) (t : RunTransition) (last now : WorkflowRunStatus) (k : ℕ)
    → replay ts ≡ some (last, k)
    → moved last k t ≡ some now
    → replay (ts ++ t ∷ []) ≡ some (now, suc k)
replay-snoc [] t last now k e m = absurd (ground (arith, e))
replay-snoc (u ∷ ts) t last now k e m =
    let first : starts u ≡ true = ground (arith, e) in
    let rest = follow-snoc pending 0 ts t last now k (ground (arith, e, first)) m in
    ground (arith, first, rest)

moved-version :
    (s s' : WorkflowRunStatus) (n : ℕ) (t : RunTransition)
    → moved s n t ≡ some s'
    → t.version ≡ suc n
moved-version s s' n t e = elim (Option-cases (parse t.to_status)) [
  | inl f ↦ absurd (ground (arith, e, f))
  | inr (x, f) ↦ ground (arith, e, f)
]

-- A history that can be replayed is in the order of its versions.
sorted-follow :
    (t : RunTransition) (s : WorkflowRunStatus) (n : ℕ) (ts : List RunTransition)
    (last : WorkflowRunStatus × ℕ)
    → t.version ≡ n
    → follow s n ts ≡ some last
    → sorted version_lt (t ∷ ts) ≡ t ∷ ts
unfolding sorted insert_sorted
sorted-follow t s n [] last v e = refl
sorted-follow t s n (u ∷ ts) last v e = elim (Option-cases (moved s n u)) [
  | inl f ↦ absurd (ground (arith, e, f))
  | inr (s', f) ↦
      let next = moved-version s s' n u f in
      let rest : sorted version_lt (u ∷ ts) ≡ u ∷ ts =
        sorted-follow u s' (suc n) ts last next (ground (arith, e, f)) in
      let order : ltb u.version t.version ≡ false = ground (arith, next, v) in rw (rest, order) refl
]

pub sorted-replay :
    (ts : List RunTransition) (last : WorkflowRunStatus × ℕ)
    → replay ts ≡ some last
    → sorted version_lt ts ≡ ts
sorted-replay [] last e = absurd (ground (arith, e))
sorted-replay (t ∷ ts) last e =
    sorted-follow t pending 0 ts last (ground (arith, e)) (ground (arith, e))

pub parse-text_of : (s : WorkflowRunStatus) → parse (text_of s) ≡ some s
parse-text_of pending = refl
parse-text_of ready = refl
parse-text_of running = refl
parse-text_of succeeded = refl
parse-text_of failed = refl
parse-text_of timed_out = refl
parse-text_of cancelled = refl

pub text_of-parse : (t : String) (s : WorkflowRunStatus) → parse t ≡ some s → text_of s ≡ t
text_of-parse t s e =
    (eq_iff (text_of s) t).0 (find?_holds (λ s. str_eq (text_of s) t) statuses s e)

-- ===== src/Cognition/Coordinator/Bounds.antt =====
-- The bounds on pending stimuli and active cycles, and the separation of conflict domains.
use brain_inspired_agent.Prelude.{
  ℕ, zero, suc, ◌+◌, ◌≤◌, ◌<◌, String, ◌≡◌, refl, sym, ap, ◌∙◌, true, false, not, ◌&&◌, ◌||◌,
  Option, none, some, List, [], ◌∷◌, ◌++◌, length, length-append, drop, has, leb, ltb, str_eq,
  eq_iff, if_elim, Dict, insert, remove, arith, All, Bool-cases, inl, inr,
}
use brain_inspired_agent.Cognition.Goals.{GoalEvaluation, GoalSnapshot, is_available}
use brain_inspired_agent.Cognition.Coordinator.{
  Stimulus, PendingStimulus, CognitiveCycle, CycleDecision, waiting, conflict, CoordinatorConfig,
  Coordinator, Counts, supported_types, new, count, accept, submission, submit, occupied,
  find_evaluation, keep_goal, available_goals, CycleRequest, cycle, activate, goals_of, form_from,
  form_cycle, complete,
}

has-append : (k : String) (xs ys : List String) → has k (xs ++ ys) ≡ (has k xs || has k ys)
has-append k [] ys = refl
has-append k (x ∷ xs) ys = ground (arith, has-append k xs ys)

length-drop : {A : Type 0} (n : ℕ) (xs : List A) → length (drop n xs) ≤ length xs
length-drop zero xs = omega arith
length-drop (suc n) [] = omega arith
length-drop (suc n) (x ∷ xs) = omega (arith, length-drop n xs)

length-insert :
    {A : Type 0} (k : String) (v : A) (d : Dict A) → length (insert k v d) ≤ suc (length d)
unfolding insert
length-insert k v [] = omega arith
length-insert k v ((j, w) ∷ d) = ground (arith, length-insert k v d)

length-remove_le : {A : Type 0} (k : String) (d : Dict A) → length (remove k d) ≤ length d
unfolding remove
length-remove_le k [] = omega arith
length-remove_le k ((j, w) ∷ d) = ground (arith, length-remove_le k d)

-- The chosen domains are free.
free_domains :
    (taken : List String) (g : GoalSnapshot) (ids : List String) (x : String)
    → has x (available_goals taken g ids).1 ≡ true
    → has x taken ≡ false
unfolding available_goals
free_domains taken g [] x h = cc (h)
free_domains taken g (id ∷ ids) x h = kept (free_domains taken g ids x) (find_evaluation id g) h
  where
    kept :
        (has x (available_goals taken g ids).1 ≡ true → has x taken ≡ false)
        → (o : Option GoalEvaluation)
        → has x (keep_goal taken id o (available_goals taken g ids)).1 ≡ true
        → has x taken ≡ false
    kept rest none h = rest h
    kept rest (some e) h =
        elim (Bool-cases (not (is_available e.status) || has e.goal.conflict_domain taken)) [
          | inl b ↦ rest (ground (arith, h, b))
          | inr b ↦
              ground (arith, h, b, eq_iff e.goal.conflict_domain x, rest, ap (λ k. has k taken))
        ]

module _ {W M : Type 0} where
  -- No conflict domain belongs to both cycles.
  abbrev pub Clear : CognitiveCycle W M → CognitiveCycle W M → Type 0
  Clear a b = (x : String) → has x a.conflict_domains ≡ true → has x b.conflict_domains ≡ true → ⊥

  -- No two active cycles share a conflict domain.
  abbrev pub Separate : Dict (CognitiveCycle W M) → Type 0
  Separate [] = Unit
  Separate ((k, a) ∷ xs) = All (λ e. Clear a e.1) xs × Separate xs

  -- A cycle with none of the occupied domains is clear of each active one.
  Clear-occupied :
      (a : CognitiveCycle W M) (xs : Dict (CognitiveCycle W M))
      → ((x : String) → has x a.conflict_domains ≡ true → has x (occupied xs) ≡ false)
      → All (λ e. Clear a e.1) xs
  unfolding occupied
  Clear-occupied a [] h = tt
  Clear-occupied a ((k, b) ∷ xs) h = (
    λ x p q. ground (arith, h x p, q, has-append x b.conflict_domains (occupied xs)),
    Clear-occupied a xs
        (λ x p. ground (arith, h x p, has-append x b.conflict_domains (occupied xs))),
  )

  All-insert :
      (a b : CognitiveCycle W M) (k : String) (xs : Dict (CognitiveCycle W M))
      → Clear a b
      → All (λ e. Clear a e.1) xs
      → All (λ e. Clear a e.1) (insert k b xs)
  unfolding insert
  All-insert a b k [] c h = (c, tt)
  All-insert a b k ((j, d) ∷ xs) c h =
      if_elim (All (λ e. Clear a e.1)) (str_eq j k) _ _ (λ _. (c, h.1))
        (λ _. (h.0, All-insert a b k xs c h.1))

  Separate-insert :
      (b : CognitiveCycle W M) (k : String) (xs : Dict (CognitiveCycle W M))
      → All (λ e. Clear b e.1) xs
      → Separate xs
      → Separate (insert k b xs)
  unfolding insert
  Separate-insert b k [] h s = (tt, tt)
  Separate-insert b k ((j, d) ∷ xs) h s =
      if_elim Separate (str_eq j k) _ _ (λ _. (h.1, s.1))
        (λ _. (All-insert d b k xs (λ x p q. h.0 x q p) s.0, Separate-insert b k xs h.1 s.1))

  All-remove :
      (a : CognitiveCycle W M) (k : String) (xs : Dict (CognitiveCycle W M))
      → All (λ e. Clear a e.1) xs
      → All (λ e. Clear a e.1) (remove k xs)
  unfolding remove
  All-remove a k [] h = tt
  All-remove a k ((j, d) ∷ xs) h =
      if_elim (All (λ e. Clear a e.1)) (str_eq j k) _ _ (λ _. All-remove a k xs h.1)
        (λ _. (h.0, All-remove a k xs h.1))

  Separate-remove :
      (k : String) (xs : Dict (CognitiveCycle W M)) → Separate xs → Separate (remove k xs)
  unfolding remove
  Separate-remove k [] s = tt
  Separate-remove k ((j, d) ∷ xs) s =
      if_elim Separate (str_eq j k) _ _ (λ _. Separate-remove k xs s.1)
        (λ _. (All-remove d k xs s.0, Separate-remove k xs s.1))

  -- At most `max_pending` stimuli wait and `max_active` cycles are active, each accepted stimulus
  -- is marked as seen once, and active cycles have no conflict domain in common.
  pub record IsBounded (c : CoordinatorConfig) (s : Coordinator W M) : Type 0 where
    pub few_pending : length s.pending ≤ c.max_pending
    pub few_active : length s.active ≤ c.max_active
    pub counted : length s.seen_msg_ids ≡ s.counts.accepted
    pub separate : Separate s.active

  abbrev Bounds : {A : Type 0} → CoordinatorConfig → A × Coordinator W M → Type 0
  Bounds c r = IsBounded c r.1

  submit-IsBounded :
      (c : CoordinatorConfig) (e : Stimulus) (t : ℕ) (s : Coordinator W M)
      → IsBounded c s
      → IsBounded c (submit c e t s).1
  unfolding submit submission accept count
  submit-IsBounded c e t s v =
      if_elim (Bounds c) (not (has e.msg_type supported_types)) _ _ (λ _. same refl)
        (λ _.
          if_elim (Bounds c) (has e.msg_id s.seen_msg_ids || has e.dedup_key s.seen_dedup_keys) _ _
            (λ _. same refl)
            (λ _.
              if_elim (Bounds c) (leb c.max_pending (length s.pending)) _ _ (λ _. same refl)
                (λ room. record {
                  few_pending = ground (
                    arith,
                    room,
                    length-append s.pending (record { event = e; accepted_at = t } ∷ []),
                  );
                  few_active = v.few_active;
                  counted = ap suc v.counted ∙ omega arith;
                  separate = v.separate;
                })))
    where
      same : {n : Counts} → n.accepted ≡ s.counts.accepted → IsBounded c (record s { counts = n })
      same e = record {
        few_pending = v.few_pending;
        few_active = v.few_active;
        counted = v.counted ∙ sym e;
        separate = v.separate;
      }

  cycle-free :
      (c : CoordinatorConfig) (r : CycleRequest W M) (first : PendingStimulus)
      (rest : List PendingStimulus) (s : Coordinator W M)
      → All (λ e. Clear (cycle c r first rest (goals_of c r s)) e.1) s.active
  unfolding cycle
  cycle-free c r first rest s =
      Clear-occupied (cycle c r first rest (goals_of c r s)) s.active
        (free_domains (occupied s.active) r.goal_snapshot r.goal_snapshot.selected_goal_ids)

  activate-IsBounded :
      (c : CoordinatorConfig) (r : CycleRequest W M) (x : CognitiveCycle W M) (s : Coordinator W M)
      → length s.active < c.max_active
      → All (λ e. Clear x e.1) s.active
      → IsBounded c s
      → IsBounded c (activate c r x s).1
  unfolding activate
  activate-IsBounded c r x s room clear v = record {
    few_pending = omega (arith, length-drop c.max_batch s.pending, v.few_pending);
    few_active = omega (arith, length-insert x.cognitive_cycle_id x s.active);
    counted = v.counted;
    separate = Separate-insert x x.cognitive_cycle_id s.active clear v.separate;
  }

  form_from-IsBounded :
      (c : CoordinatorConfig) (r : CycleRequest W M) (first : PendingStimulus)
      (rest : List PendingStimulus) (s : Coordinator W M)
      → IsBounded c s
      → IsBounded c (form_from c r first rest s).1
  unfolding form_from
  form_from-IsBounded c r first rest s v =
      if_elim (Bounds c) (leb c.max_active (length s.active)) _ _ (λ _. v)
        (λ room.
          if_elim (Bounds c) (not r.force && ltb r.monotonic (first.accepted_at + c.merge_window)) _
            _ (λ _. v) (λ _. by_goals (goals_of c r s).0 (ground (arith, room))))
    where
      by_goals :
          (gs : List String)
          → length s.active < c.max_active
          → IsBounded c
              (elim gs as (λ _. CycleDecision W M × Coordinator W M) [
                | [] ↦ (conflict, s)
                | g ∷ rest' ↦ activate c r (cycle c r first rest (goals_of c r s)) s
              ]).1
      by_goals [] room = v
      by_goals (g ∷ gs) room =
          activate-IsBounded c r (cycle c r first rest (goals_of c r s)) s room
            (cycle-free c r first rest s) v

  form_cycle-IsBounded :
      (c : CoordinatorConfig) (r : CycleRequest W M) (s : Coordinator W M)
      → IsBounded c s
      → IsBounded c (form_cycle c r s).1
  unfolding form_cycle
  form_cycle-IsBounded c r s v = by_pending s.pending
    where
      by_pending :
          (ps : List PendingStimulus)
          → IsBounded c
              (elim ps as (λ _. CycleDecision W M × Coordinator W M) [
                | [] ↦ (waiting, s)
                | first ∷ rest ↦ form_from c r first rest s
              ]).1
      by_pending [] = v
      by_pending (first ∷ rest) = form_from-IsBounded c r first rest s v

  complete-IsBounded :
      (c : CoordinatorConfig) (id : String) (s : Coordinator W M)
      → IsBounded c s
      → IsBounded c (complete id s).1
  unfolding complete
  complete-IsBounded c id s v = record {
    few_pending = v.few_pending;
    few_active = omega (arith, length-remove_le id s.active, v.few_active);
    counted = v.counted;
    separate = Separate-remove id s.active v.separate;
  }

  -- The coordinators that submissions, cycle requests and completions bring about.
  pub data Reach (c : CoordinatorConfig) : Coordinator W M → Type 0 where
    fresh : Reach c new
    submitted :
        {s : Coordinator W M} (e : Stimulus) (t : ℕ) → Reach c s → Reach c (submit c e t s).1
    formed : {s : Coordinator W M} (r : CycleRequest W M) → Reach c s → Reach c (form_cycle c r s).1
    completed : {s : Coordinator W M} (id : String) → Reach c s → Reach c (complete id s).1

  new-IsBounded : (c : CoordinatorConfig) → IsBounded c new
  unfolding new
  new-IsBounded c = record {
    few_pending = omega arith;
    few_active = omega arith;
    counted = refl;
    separate = tt;
  }

  -- In every state that submissions, cycle requests and completions bring about, whatever their order: at
  -- most `max_pending` stimuli wait, at most `max_active` cycles are active, as many message ids are
  -- marked as seen as submissions were accepted, and no two active cycles share a conflict domain.
  pub Reach-IsBounded : (c : CoordinatorConfig) {s : Coordinator W M} → Reach c s → IsBounded c s
  Reach-IsBounded c fresh = new-IsBounded c
  Reach-IsBounded c (submitted {s = s} e t h) = submit-IsBounded c e t s (Reach-IsBounded c h)
  Reach-IsBounded c (formed {s = s} r h) = form_cycle-IsBounded c r s (Reach-IsBounded c h)
  Reach-IsBounded c (completed {s = s} id h) = complete-IsBounded c id s (Reach-IsBounded c h)

-- ===== src/Cognition/Coordinator/Once.antt =====
-- Repeated stimuli, and the stimuli that a cycle takes.
use brain_inspired_agent.Prelude.{
  ℕ, zero, suc, ◌+◌, ◌<◌, String, ◌≡◌, refl, sym, ap, ◌∙◌, Bool, true, ◌||◌, some, List, [], ◌∷◌,
  ◌++◌, map, length, take, drop, has, leb, str_eq, eq_refl, lookup, lookup-insert, arith, ◌≢◌,
}
use brain_inspired_agent.Cognition.Coordinator.{
  Stimulus, accepted, duplicate, PendingStimulus, CognitiveCycle, created, CoordinatorConfig,
  Coordinator, supported_types, accept, submission, submit, CycleRequest, cycle, activate, goals_of,
  form_from, form_cycle, complete,
}

map-take-drop :
    {A B : Type 0} (f : A → B) (n : ℕ) (xs : List A)
    → map f (take n xs) ++ map f (drop n xs) ≡ map f xs
map-take-drop f zero xs = refl
map-take-drop f (suc n) [] = refl
map-take-drop f (suc n) (x ∷ xs) = ap (◌∷◌ (f x)) (map-take-drop f n xs)

map-take : {A B : Type 0} (f : A → B) (n : ℕ) (xs : List A) → map f (take n xs) ≡ take n (map f xs)
map-take f zero xs = refl
map-take f (suc n) [] = refl
map-take f (suc n) (x ∷ xs) = ap (◌∷◌ (f x)) (map-take f n xs)

module _ {W M : Type 0} where
  -- What later calls lead to.
  pub data Later (c : CoordinatorConfig) (s : Coordinator W M) : Coordinator W M → Type 0 where
    here : Later c s s
    submitted :
        {t : Coordinator W M} (e : Stimulus) (at : ℕ) → Later c s t → Later c s (submit c e at t).1
    formed :
        {t : Coordinator W M} (r : CycleRequest W M) → Later c s t → Later c s (form_cycle c r t).1
    completed : {t : Coordinator W M} (id : String) → Later c s t → Later c s (complete id t).1

  abbrev seen : Stimulus → Coordinator W M → Bool
  seen e s = has e.msg_id s.seen_msg_ids || has e.dedup_key s.seen_dedup_keys

  submit-seen :
      (c : CoordinatorConfig) (e x : Stimulus) (at : ℕ) (s : Coordinator W M)
      → seen e s ≡ true
      → seen e (submit c x at s).1 ≡ true
  unfolding submit submission accept
  submit-seen c e x at s h = ground (arith, h)

  form_cycle-seen :
      (c : CoordinatorConfig) (e : Stimulus) (r : CycleRequest W M) (s : Coordinator W M)
      → seen e s ≡ true
      → seen e (form_cycle c r s).1 ≡ true
  unfolding form_cycle form_from activate
  form_cycle-seen c e r s h = ground (arith, h)

  Later-seen :
      (c : CoordinatorConfig) (e : Stimulus) {s t : Coordinator W M}
      → Later c s t
      → seen e s ≡ true
      → seen e t ≡ true
  unfolding complete
  Later-seen c e here h = h
  Later-seen c e (submitted {t = t} x at l) h = submit-seen c e x at t (Later-seen c e l h)
  Later-seen c e (formed {t = t} r l) h = form_cycle-seen c e r t (Later-seen c e l h)
  Later-seen c e (completed {t = t} id l) h = Later-seen c e l h

  accepted-seen :
      (c : CoordinatorConfig) (e x : Stimulus) (at : ℕ) (s : Coordinator W M)
      → (submit c e at s).0 ≡ accepted
      → (str_eq e.msg_id x.msg_id || str_eq e.dedup_key x.dedup_key) ≡ true
      → seen x (submit c e at s).1 ≡ true
  unfolding submit submission accept
  accepted-seen c e x at s h k = ground (arith, h, k)

  refused :
      (c : CoordinatorConfig) (x : Stimulus) (at : ℕ) (s : Coordinator W M)
      → seen x s ≡ true
      → has x.msg_type supported_types ≡ true
      → ((submit c x at s).0 ≡ duplicate) × ((submit c x at s).1.pending ≡ s.pending)
  unfolding submit submission
  refused c x at s h k = (ground (arith, h, k), ground (arith, h, k))

  -- Once a stimulus has been accepted, then whatever is submitted, formed or completed since, a
  -- stimulus of a supported type with the same message id or the same deduplication key is refused as a
  -- duplicate, and what waits is unchanged, also when the first one has left with its cycle.
  pub submit_once :
      (c : CoordinatorConfig) (e x : Stimulus) (at at' : ℕ) (s : Coordinator W M)
      {t : Coordinator W M}
      → (submit c e at s).0 ≡ accepted
      → (str_eq e.msg_id x.msg_id || str_eq e.dedup_key x.dedup_key) ≡ true
      → has x.msg_type supported_types ≡ true
      → Later c (submit c e at s).1 t
      → ((submit c x at' t).0 ≡ duplicate) × ((submit c x at' t).1.pending ≡ t.pending)
  submit_once c e x at at' s {t = t} h k supported l =
      refused c x at' t (Later-seen c x l (accepted-seen c e x at s h k)) supported

  form_cycle-activate :
      (c : CoordinatorConfig) (r : CycleRequest W M) (s : Coordinator W M) (first : PendingStimulus)
      (rest : List PendingStimulus)
      → s.pending ≡ first ∷ rest
      → length s.active < c.max_active
      → (r.force || leb (first.accepted_at + c.merge_window) r.monotonic) ≡ true
      → (goals_of c r s).0 ≢ []
      → form_cycle c r s ≡ activate c r (cycle c r first rest (goals_of c r s)) s
  unfolding form_cycle form_from
  form_cycle-activate c r s first rest p room due g = go (goals_of c r s).0 refl
    where
      go :
          (gs : List String)
          → (goals_of c r s).0 ≡ gs
          → form_cycle c r s ≡ activate c r (cycle c r first rest (goals_of c r s)) s
      go [] e = absurd (g e)
      go (k ∷ ks) e = ground (arith, p, room, due, e)

  batch-rest :
      (c : CoordinatorConfig) (r : CycleRequest W M) (s : Coordinator W M) (first : PendingStimulus)
      (rest : List PendingStimulus)
      → s.pending ≡ first ∷ rest
      → (cycle c r first rest (goals_of c r s)).stimuli
          ++ map (λ k. k.event) (activate c r (cycle c r first rest (goals_of c r s)) s).1.pending
        ≡ map (λ k. k.event) s.pending
  unfolding cycle activate
  batch-rest c r s first rest p =
      ap
        (λ ps.
          map (λ k. k.event) (take c.max_batch ps)
          ++ map (λ k. k.event) (drop c.max_batch s.pending))
        (sym p)
      ∙ map-take-drop (λ k. k.event) c.max_batch s.pending

  batch-take :
      (c : CoordinatorConfig) (r : CycleRequest W M) (s : Coordinator W M) (first : PendingStimulus)
      (rest : List PendingStimulus)
      → s.pending ≡ first ∷ rest
      → (cycle c r first rest (goals_of c r s)).stimuli
        ≡ take c.max_batch (map (λ k. k.event) s.pending)
  unfolding cycle
  batch-take c r s first rest p =
      map-take (λ k. k.event) c.max_batch (first ∷ rest)
      ∙ ap (λ ps. take c.max_batch (map (λ k. k.event) ps)) (sym p)

  stored :
      (c : CoordinatorConfig) (r : CycleRequest W M) (x : CognitiveCycle W M) (s : Coordinator W M)
      → x.cognitive_cycle_id ≡ r.new_id
      → lookup r.new_id (activate c r x s).1.active ≡ some x
  unfolding activate
  stored c r x s e =
      ground (arith, e, lookup-insert x.cognitive_cycle_id r.new_id x s.active, eq_refl r.new_id)

  -- A request with a free planning slot, a stimulus that waits, a closed window or `force`, and an
  -- available goal outside the active domains creates a cycle from the oldest `max_batch` stimuli in their
  -- order; these leave the queue, the others keep their order, and the cycle is active
  -- under its identifier.
  pub form_cycle_lem :
      (c : CoordinatorConfig) (r : CycleRequest W M) (s : Coordinator W M) (first : PendingStimulus)
      (rest : List PendingStimulus)
      → s.pending ≡ first ∷ rest
      → length s.active < c.max_active
      → (r.force || leb (first.accepted_at + c.merge_window) r.monotonic) ≡ true
      → (goals_of c r s).0 ≢ []
      → (x : CognitiveCycle W M) × ((form_cycle c r s).0 ≡ created x)
        × (x.stimuli ++ map (λ p. p.event) (form_cycle c r s).1.pending
            ≡ map (λ p. p.event) s.pending)
        × (x.stimuli ≡ take c.max_batch (map (λ p. p.event) s.pending))
        × (lookup r.new_id (form_cycle c r s).1.active ≡ some x)
  unfolding cycle activate
  form_cycle_lem c r s first rest p room due g =
      let x = cycle c r first rest (goals_of c r s) in
      let e = form_cycle-activate c r s first rest p room due g in
      (
        x,
        ap (λ o. o.0) e,
        ap (λ o. x.stimuli ++ map (λ k. k.event) o.1.pending) e ∙ batch-rest c r s first rest p,
        batch-take c r s first rest p,
        ap (λ o. lookup r.new_id o.1.active) e ∙ stored c r x s refl,
      )

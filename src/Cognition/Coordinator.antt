-- ===== src/Cognition/Coordinator.antt =====
-- coordinator.py: stimuli are merged into cycles of bounded size and number. World and memory
-- snapshots are opaque: the coordinator only stores them. The clock's instants and the new cycle's
-- identifier are arguments of the calls that read them; reason texts are left out.
pub mod Bounds
pub mod Once
mod Tests
use brain_inspired_agent.Prelude.{
  ℕ, zero, suc, ◌+◌, ◌-◌, String, Bool, true, false, not, ◌&&◌, ◌||◌, Option, none, some, List, [],
  ◌∷◌, ◌++◌, map, length, take, drop, find?, has, leb, ltb, ◌==◌, str_eq, str_lt, if◌then◌else◌,
  Dict, lookup, insert, remove, min, Result, ok, raise, ◌>>=◌, ◌>>◌, reject_if,
}
use brain_inspired_agent.Prelude.Int.{ℤ, pos, pos_part, ltb_ℤ}
use brain_inspired_agent.Cognition.Goals.{GoalEvaluation, GoalSnapshot, is_available}

-- The fields of an `EventEnvelope` that the coordinator reads.
pub record Stimulus : Type 0 where
  pub msg_id : String
  pub msg_type : String
  pub dedup_key : String
  pub correlation_id : String
  pub priority : ℕ
  pub occurred_at : ℕ

pub data StimulusOutcome : Type 0 where
  accepted duplicate invalid capacity : StimulusOutcome

pub record PendingStimulus : Type 0 where
  pub event : Stimulus
  pub accepted_at : ℕ

pub record CognitiveCycle (W M : Type 0) : Type 0 where
  pub cognitive_cycle_id : String
  pub created_at : ℕ
  pub stimuli : List Stimulus
  pub focus_msg_id : String
  pub world_snapshot : W
  pub goal_snapshot : GoalSnapshot
  pub memory_snapshot : M
  pub selected_goal_ids : List String
  pub conflict_domains : List String
  pub correlation_ids : List String

pub data CycleDecision (W M : Type 0) : Type 0 where
  created : CognitiveCycle W M → CycleDecision W M
  waiting busy conflict : CycleDecision W M

pub record CoordinatorConfig : Type 0 where
  pub merge_window : ℕ
  pub max_pending : ℕ
  pub max_batch : ℕ
  pub max_active : ℕ

pub data CoordinatorError : Type 0 where
  merge_window_negative capacity_not_positive batch_over_pending : CoordinatorError

abbrev any_below_one : ℤ → ℤ → ℤ → Bool
any_below_one a b c = ltb_ℤ a (pos 1) || (ltb_ℤ b (pos 1) || ltb_ℤ c (pos 1))

-- The constructor's checks, over the raw arguments.
pub create_config : ℤ → ℤ → ℤ → ℤ → Result CoordinatorError CoordinatorConfig
create_config window pending batch active = do
  reject_if (ltb_ℤ window (pos 0)) merge_window_negative
  reject_if (any_below_one pending batch active) capacity_not_positive
  reject_if (ltb_ℤ pending batch) batch_over_pending
  ok (record {
    merge_window = pos_part window;
    max_pending = pos_part pending;
    max_batch = pos_part batch;
    max_active = pos_part active;
  })

pub record Counts : Type 0 where
  pub accepted : ℕ
  pub duplicate : ℕ
  pub invalid : ℕ
  pub capacity : ℕ

pub record Coordinator (W M : Type 0) : Type 0 where
  pub pending : List PendingStimulus
  pub seen_msg_ids : List String
  pub seen_dedup_keys : List String
  pub active : Dict (CognitiveCycle W M)
  pub counts : Counts
  pub cycles_created : ℕ

pub new : {W M : Type 0} → Coordinator W M
new = record {
  pending = [];
  seen_msg_ids = [];
  seen_dedup_keys = [];
  active = [];
  counts = record { accepted = 0; duplicate = 0; invalid = 0; capacity = 0 };
  cycles_created = 0;
}

abbrev pub supported_types : List String
supported_types =
    "attention.salient_event" ∷ "command.received" ∷ "schedule.triggered" ∷ "goal.changed" ∷ []

-- The part of `_submission` that counts.
pub count : StimulusOutcome → Counts → Counts
count accepted n = record n { accepted = n.accepted + 1 }
count duplicate n = record n { duplicate = n.duplicate + 1 }
count invalid n = record n { invalid = n.invalid + 1 }
count capacity n = record n { capacity = n.capacity + 1 }

pub accept : {W M : Type 0} → Stimulus → ℕ → Coordinator W M → Coordinator W M
accept e monotonic s = record s {
  seen_msg_ids = e.msg_id ∷ s.seen_msg_ids;
  seen_dedup_keys = e.dedup_key ∷ s.seen_dedup_keys;
  pending = s.pending ++ record { event = e; accepted_at = monotonic } ∷ [];
}

pub submission :
    {W M : Type 0} → StimulusOutcome → Coordinator W M → StimulusOutcome × Coordinator W M
submission o s = (o, record s { counts = count o s.counts })

pub submit :
    {W M : Type 0}
    → CoordinatorConfig
    → Stimulus
    → ℕ
    → Coordinator W M
    → StimulusOutcome × Coordinator W M
unfolding submission accept
submit c e monotonic s =
    if not (has e.msg_type supported_types)
    then submission invalid s
    else if has e.msg_id s.seen_msg_ids || has e.dedup_key s.seen_dedup_keys
    then submission duplicate s
    else if leb c.max_pending (length s.pending)
    then submission capacity s
    else submission accepted (accept e monotonic s)

-- The conflict domains of the active cycles.
pub occupied : {W M : Type 0} → Dict (CognitiveCycle W M) → List String
occupied [] = []
occupied ((k, x) ∷ xs) = x.conflict_domains ++ occupied xs

pub find_evaluation : String → GoalSnapshot → Option GoalEvaluation
find_evaluation id g = find? (λ e. str_eq e.goal.goal_id id) g.evaluations

-- One round of `_available_goals`.
abbrev pub keep_goal :
    List String
    → String
    → Option GoalEvaluation
    → List String × List String
    → List String × List String
keep_goal taken id none rest = rest
keep_goal taken id (some e) rest =
    if not (is_available e.status) || has e.goal.conflict_domain taken
    then rest
    else (id ∷ rest.0, e.goal.conflict_domain ∷ rest.1)

pub available_goals : List String → GoalSnapshot → List String → List String × List String
available_goals taken g [] = ([], [])
available_goals taken g (id ∷ rest) =
    keep_goal taken id (find_evaluation id g) (available_goals taken g rest)

-- The order of the focus: priority from high to low, then the time, then the identifier.
pub precedes : Stimulus → Stimulus → Bool
precedes x y =
    ltb y.priority x.priority
    || (x.priority == y.priority
        && (ltb x.occurred_at y.occurred_at
            || (x.occurred_at == y.occurred_at && str_lt x.msg_id y.msg_id)))

-- `min`: the first of the least ones.
pub focus : Stimulus → List Stimulus → Stimulus
focus b [] = b
focus b (x ∷ xs) = focus (if precedes x b then x else b) xs

-- `dict.fromkeys`: each text once, in order of first appearance.
pub unique : List String → List String → List String
unique seen [] = []
unique seen (x ∷ xs) =
    let skipped = unique seen xs in
    let kept = x ∷ unique (x ∷ seen) xs in if has x seen then skipped else kept

-- The call's arguments, and what it reads of the clock and the identifier source.
pub record CycleRequest (W M : Type 0) : Type 0 where
  pub world_snapshot : W
  pub goal_snapshot : GoalSnapshot
  pub memory_snapshot : M
  pub force : Bool
  pub monotonic : ℕ
  pub now : ℕ
  pub new_id : String

module _ {W M : Type 0} (c : CoordinatorConfig) (r : CycleRequest W M) where
  abbrev pub batch : PendingStimulus → List PendingStimulus → List Stimulus
  batch first rest = map (λ p. p.event) (take c.max_batch (first ∷ rest))

  pub cycle :
      PendingStimulus → List PendingStimulus → List String × List String → CognitiveCycle W M
  unfolding focus unique
  cycle first rest goals =
      let stimuli = batch first rest in
      record {
        cognitive_cycle_id = r.new_id;
        created_at = r.now;
        stimuli = stimuli;
        focus_msg_id = elim stimuli [ [] ↦ first.event.msg_id | x ∷ xs ↦ (focus x xs).msg_id ];
        world_snapshot = r.world_snapshot;
        goal_snapshot = r.goal_snapshot;
        memory_snapshot = r.memory_snapshot;
        selected_goal_ids = goals.0;
        conflict_domains = goals.1;
        correlation_ids = unique [] (map (λ x. x.correlation_id) stimuli);
      }

  -- The end of `form_cycle`.
  pub activate : CognitiveCycle W M → Coordinator W M → CycleDecision W M × Coordinator W M
  activate x s = (
    created x,
    record s {
      pending = drop c.max_batch s.pending;
      active = insert x.cognitive_cycle_id x s.active;
      cycles_created = s.cycles_created + 1;
    },
  )

  abbrev pub goals_of : Coordinator W M → List String × List String
  goals_of s = available_goals (occupied s.active) r.goal_snapshot r.goal_snapshot.selected_goal_ids

  -- With the oldest stimulus and the others; the window is read as a difference of instants.
  pub form_from :
      PendingStimulus → List PendingStimulus → Coordinator W M → CycleDecision W M × Coordinator W M
  unfolding cycle activate
  form_from first rest s =
      if leb c.max_active (length s.active)
      then (busy, s)
      else if not r.force && ltb r.monotonic (first.accepted_at + c.merge_window)
      then (waiting, s)
      else elim (goals_of s).0 [
        | [] ↦ (conflict, s)
        | g ∷ gs ↦ activate (cycle first rest (goals_of s)) s
      ]

  pub form_cycle : Coordinator W M → CycleDecision W M × Coordinator W M
  form_cycle s = elim s.pending [ [] ↦ (waiting, s) | first ∷ rest ↦ form_from first rest s ]

pub complete : {W M : Type 0} → String → Coordinator W M → Bool × Coordinator W M
complete id s = (
  elim (lookup id s.active) [ none ↦ false | some x ↦ true ],
  record s { active = remove id s.active },
)

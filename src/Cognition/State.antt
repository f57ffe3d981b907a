-- ===== src/Cognition/State.antt =====
-- state.py: the three-dimensional brain state. The clock gives an instant, the local date's
-- trading-day answer and the local time of day, which the time-zone database and the calendar determine.
-- `none` where a call returns None because nothing changed.
pub mod Laws
mod Tests
use brain_inspired_agent.Prelude.{
  ℕ, ◌<◌, Bool, true, false, not, ◌&&◌, ◌||◌, Option, none, some, ltb, if◌then◌else◌, Result, ok,
  raise, String,
}

pub data MarketPhase : Type 0 where
  pre_open auction trading closed holiday : MarketPhase

pub data Workload : Type 0 where
  idle busy : Workload

pub data BrainMode : Type 0 where
  booting normal review degraded safe shutting_down : BrainMode

pub MarketPhase-discrete : Discrete MarketPhase
MarketPhase-discrete = hlevel

pub Workload-discrete : Discrete Workload
Workload-discrete = hlevel

pub BrainMode-discrete : Discrete BrainMode
BrainMode-discrete = hlevel

pub record BrainState : Type 0 where
  pub phase : MarketPhase
  pub workload : Workload
  pub brain_mode : BrainMode
  pub observed_at : ℕ

pub record StateChange : Type 0 where
  pub previous : BrainState
  pub current : BrainState
  pub reason : String

pub record MarketHours : Type 0 where
  pub pre_open_at : ℕ
  pub auction_at : ℕ
  pub trading_at : ℕ
  pub close_at : ℕ

-- A reading of the clock, in the hours' time zone.
pub record Reading : Type 0 where
  pub instant : ℕ
  pub trading_day : Bool
  pub time_of_day : ℕ

-- `MarketHours.__post_init__`: the session's hours must rise strictly.
pub valid_hours : MarketHours → Bool
valid_hours h =
    ltb h.pre_open_at h.auction_at && (ltb h.auction_at h.trading_at && ltb h.trading_at h.close_at)

pub phase_at : MarketHours → Reading → MarketPhase
phase_at h t =
    if not t.trading_day
    then holiday
    else if ltb t.time_of_day h.pre_open_at
    then closed
    else if ltb t.time_of_day h.auction_at
    then pre_open
    else if ltb t.time_of_day h.trading_at
    then auction
    else if ltb t.time_of_day h.close_at
    then trading
    else closed

abbrev pub is_rest : MarketPhase → Bool
is_rest closed = true
is_rest holiday = true
is_rest _ = false

abbrev pub same_phase : MarketPhase → MarketPhase → Bool
same_phase a b = elim (MarketPhase-discrete a b) [ yes p ↦ true | no p ↦ false ]

abbrev pub same_workload : Workload → Workload → Bool
same_workload a b = elim (Workload-discrete a b) [ yes p ↦ true | no p ↦ false ]

abbrev pub same_mode : BrainMode → BrainMode → Bool
same_mode a b = elim (BrainMode-discrete a b) [ yes p ↦ true | no p ↦ false ]

-- `_replace`, with every dimension given.
pub replace :
    MarketPhase
    → Workload
    → BrainMode
    → String
    → Reading
    → BrainState
    → Option StateChange × BrainState
replace phase workload mode reason t s =
    let current : BrainState = record {
      phase = phase;
      workload = workload;
      brain_mode = mode;
      observed_at = t.instant;
    } in
    if same_phase s.phase phase
      && (same_workload s.workload workload && same_mode s.brain_mode mode)
    then (none, s)
    else (some (record { previous = s; current = current; reason = reason }), current)

-- The mode that `refresh` sets for a phase.
pub refreshed_mode : BrainMode → MarketPhase → BrainMode
refreshed_mode normal p = if is_rest p then review else normal
refreshed_mode review p = if is_rest p then review else normal
refreshed_mode m p = m

pub refresh : MarketHours → String → Reading → BrainState → Option StateChange × BrainState
refresh h reason t s =
    let phase = phase_at h t in
    replace phase s.workload (refreshed_mode s.brain_mode phase) reason t s

abbrev pub is_booting : BrainMode → Bool
is_booting booting = true
is_booting _ = false

pub mark_ready : MarketHours → String → Reading → BrainState → Option StateChange × BrainState
mark_ready h reason t s =
    if not (is_booting s.brain_mode)
    then (none, s)
    else let phase = phase_at h t in
      replace phase s.workload (if is_rest phase then review else normal) reason t s

pub set_workload : Workload → String → Reading → BrainState → Option StateChange × BrainState
set_workload w reason t s = replace s.phase w s.brain_mode reason t s

pub data StateError : Type 0 where
  booting_after_readiness : StateError

pub set_mode :
    BrainMode → String → Reading → BrainState → Result StateError (Option StateChange) × BrainState
set_mode m reason t s =
    if is_booting m && not (is_booting s.brain_mode)
    then (raise booting_after_readiness, s)
    else let (change, s') = replace s.phase s.workload m reason t s in (ok change, s')

-- `__init__`.
pub new : Reading → BrainState
new t = record { phase = closed; workload = idle; brain_mode = booting; observed_at = t.instant }

-- A call on the controller. `set_mode` that raises leaves the state as it was.
pub data Operation : Type 0 where
  refreshing readying : Operation
  working : Workload → Operation
  switching : BrainMode → Operation

-- What a `set_mode` that may raise publishes and leaves.
abbrev pub kept :
    BrainState
    → Result StateError (Option StateChange) × BrainState
    → Option StateChange × BrainState
kept s (raise e, s') = (none, s)
kept s (ok change, s') = (change, s')

pub apply :
    MarketHours → Operation → String → Reading → BrainState → Option StateChange × BrainState
apply h refreshing reason t s = refresh h reason t s
apply h readying reason t s = mark_ready h reason t s
apply h (working w) reason t s = set_workload w reason t s
apply h (switching m) reason t s = kept s (set_mode m reason t s)

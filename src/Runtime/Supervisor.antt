-- ===== src/Runtime/Supervisor.antt =====
-- runtime/supervisor.py: crash counting, backoff, circuit breaking, health and shutdown. Instants and
-- durations are whole microseconds of the monotonic clock. A service's task is a machine whose phase
-- says where its coroutine waits: in `serve`, in the backoff of `_supervise` or of
-- `_restart_after_failure`, or nowhere any more; an event is what the wait ends with. Log lines are
-- left out.
pub mod Crashes
pub mod Circuit
pub mod Health
pub mod Shutdown
mod Tests
use brain_inspired_agent.Prelude.{
  ℕ, zero, suc, ◌+◌, ◌-◌, ◌*◌, ◌^◌, min, String, Bool, true, false, not, ◌||◌, Option, none, some,
  List, [], ◌∷◌, ◌++◌, map, length, all, any, ltb, leb, if◌then◌else◌, Dict, lookup, insert,
}
use Prim.Native.Nat.{max}
use mathlib.Core.List.{reverse}

pub data ServiceState : Type 0 where
  starting ready restarting circuit_open stopped : ServiceState

pub data SystemHealth : Type 0 where
  starting_up healthy degraded safe shutting_down halted : SystemHealth

pub record SupervisorConfig : Type 0 where
  pub crash_limit : ℕ
  pub crash_window : ℕ
  pub initial_backoff : ℕ
  pub maximum_backoff : ℕ

pub record ServiceRegistration : Type 0 where
  pub name : String
  pub critical : Bool

pub record Supervisor : Type 0 where
  pub states : Dict ServiceState
  pub crashes : Dict (List ℕ)
  pub health : SystemHealth
  pub shutdown_requested : Bool

abbrev pub is_open : ServiceState → Bool
is_open circuit_open = true
is_open _ = false

abbrev pub is_ready : ServiceState → Bool
is_ready ready = true
is_ready _ = false

abbrev pub is_open_at : String → Supervisor → Bool
is_open_at n s = elim (lookup n s.states) [ none ↦ false | some x ↦ is_open x ]

abbrev pub set_state : String → ServiceState → Supervisor → Supervisor
set_state n x s = record s { states = insert n x s.states }

abbrev pub is_settled : SystemHealth → Bool
is_settled safe = true
is_settled shutting_down = true
is_settled _ = false

-- The health that the services' states show.
pub observed : Dict ServiceState → SystemHealth
observed states =
    if any (λ e. is_open e.1) states
    then degraded
    else if all (λ e. is_ready e.1) states
    then healthy
    else starting_up

-- `_refresh_health`.
pub refresh_health : Supervisor → Supervisor
refresh_health s = if is_settled s.health then s else record s { health = observed s.states }

-- The `popleft` loop: crashes that lie more than a window back leave from the left.
pub drop_old : ℕ → ℕ → List ℕ → List ℕ
drop_old now window [] = []
drop_old now window (t ∷ ts) = if ltb (t + window) now then drop_old now window ts else t ∷ ts

abbrev pub crashes_of : String → Supervisor → List ℕ
crashes_of n s = elim (lookup n s.crashes) [ none ↦ [] | some ts ↦ ts ]

pub recent_crashes : SupervisorConfig → String → ℕ → Supervisor → List ℕ
recent_crashes c n now s = drop_old now c.crash_window (crashes_of n s ++ now ∷ [])

-- The branch that opens the circuit, and the one that does not.
pub open_circuit : ServiceRegistration → Supervisor → Supervisor
open_circuit r s = record s {
  states = insert r.name circuit_open s.states;
  health = if r.critical then safe else degraded;
}

-- `_record_crash`: whether the circuit is open now.
pub record_crash : SupervisorConfig → ServiceRegistration → ℕ → Supervisor → Bool × Supervisor
record_crash c r now s =
    let recent = recent_crashes c r.name now s in
    let counted = record s { crashes = insert r.name recent s.crashes } in
    if r.critical || leb c.crash_limit (length recent)
    then (true, open_circuit r counted)
    else (false, refresh_health (set_state r.name restarting counted))

-- `_backoff`'s delay.
pub backoff_delay : SupervisorConfig → String → Supervisor → ℕ
backoff_delay c n s =
    let attempt = max 1 (length (crashes_of n s)) in
    min (c.initial_backoff * 2 ^ (attempt - 1)) c.maximum_backoff

-- `_start`, when the service's own `start` returns, and when it raises.
pub start_returns : ServiceRegistration → Supervisor → Supervisor
start_returns r s = refresh_health (set_state r.name ready (set_state r.name starting s))

pub start_raises : SupervisorConfig → ServiceRegistration → ℕ → Supervisor → Bool × Supervisor
start_raises c r now s = record_crash c r now (set_state r.name starting s)

-- The end of a task: its service is stopped unless its circuit is open.
pub stop_unless_open : String → Supervisor → Supervisor
stop_unless_open n s = if is_open_at n s then s else set_state n stopped s

pub data Phase : Type 0 where
  serving retrying rebooting ended : Phase

pub data Event : Type 0 where
  -- `run` starts the service.
  boot_returned boot_raised : Event
  -- `serve` returns or raises.
  serve_returned serve_raised : Event
  -- A backoff ends, and `start`, if it is called, returns or raises.
  restart_returned restart_raised : Event

pub record Machine : Type 0 where
  pub supervisor : Supervisor
  pub phases : Dict Phase

-- A failure in `_supervise`: record it, then leave or back off.
pub crashed : SupervisorConfig → ServiceRegistration → ℕ → Supervisor → Phase × Supervisor
crashed c r now s =
    let (opened, s') = record_crash c r now s in ((if opened then ended else retrying), s')

-- A start that raised, with the phase to go on in.
pub failed_start :
    SupervisorConfig → ServiceRegistration → ℕ → Phase → Supervisor → Phase × Supervisor
failed_start c r now next s =
    let (opened, s') = start_raises c r now s in ((if opened then ended else next), s')

pub ends : ServiceRegistration → Supervisor → Phase × Supervisor
ends r s = (ended, stop_unless_open r.name s)

-- One wait of a task ends. `_supervise` goes back to its loop when a restart fails without
-- opening the circuit, so it calls `serve` next; `_restart_after_failure` backs off again.
pub advance :
    SupervisorConfig
    → ServiceRegistration
    → ℕ
    → Option Phase
    → Event
    → Supervisor
    → Option (Phase × Supervisor)
advance c r now none boot_returned s = some (serving, start_returns r s)
advance c r now none boot_raised s = some (failed_start c r now rebooting s)
advance c r now (some serving) serve_returned s =
    some (if s.shutdown_requested then ends r s else crashed c r now s)
advance c r now (some serving) serve_raised s = some (crashed c r now s)
advance c r now (some retrying) restart_returned s =
    some (if s.shutdown_requested then ends r s else (serving, start_returns r s))
advance c r now (some retrying) restart_raised s =
    some (if s.shutdown_requested then ends r s else failed_start c r now serving s)
advance c r now (some rebooting) restart_returned s =
    some (if s.shutdown_requested then ends r s else (serving, start_returns r s))
advance c r now (some rebooting) restart_raised s =
    some (if s.shutdown_requested then ends r s else failed_start c r now rebooting s)
advance c r now _ _ s = none

pub commit : ServiceRegistration → Machine → Option (Phase × Supervisor) → Machine
commit r m none = m
commit r m (some (p, s)) = record { supervisor = s; phases = insert r.name p m.phases }

-- An event that the task does not wait for changes nothing.
pub step : SupervisorConfig → ServiceRegistration → ℕ → Event → Machine → Machine
step c r now e m = commit r m (advance c r now (lookup r.name m.phases) e m.supervisor)

pub request_shutdown : Machine → Machine
request_shutdown m = record m { supervisor = record m.supervisor { shutdown_requested = true } }

pub new : List ServiceRegistration → Machine
new rs = record {
  supervisor = record {
    states = map (λ r. (r.name, stopped)) rs;
    crashes = map (λ r. (r.name, [])) rs;
    health = starting_up;
    shutdown_requested = false;
  };
  phases = [];
}

-- The calls that `_shutdown` makes to the services, in order.
pub data Call : Type 0 where
  quiesce checkpoint stop : String → Call

pub shutdown_calls : List ServiceRegistration → List Call
shutdown_calls rs =
    map (λ r. quiesce r.name) (reverse rs)
    ++ (map (λ r. checkpoint r.name) (reverse rs) ++ map (λ r. stop r.name) (reverse rs))

pub stop_each : List ServiceRegistration → Supervisor → Supervisor
stop_each [] s = s
stop_each (r ∷ rs) s = stop_each rs (stop_unless_open r.name s)

-- The end of `run`: the health while the services are stopped, and after.
pub shut_down : List ServiceRegistration → Supervisor → Supervisor
shut_down rs s = record (stop_each (reverse rs) (record s { health = shutting_down })) {
  health = halted;
}

-- ===== src/Runtime/Supervisor/Health.antt =====
-- The system's health: what raises it to SAFE, and what lowers it again.
use brain_inspired_agent.Prelude.{ℕ, ◌≡◌, false, Option, none, some, arith, ◌⊎◌, inl, lookup}
use brain_inspired_agent.Runtime.Supervisor.{
  SupervisorConfig, ServiceRegistration, SystemHealth, safe, degraded, starting, Supervisor,
  set_state, refresh_health, record_crash, open_circuit, start_returns, start_raises,
  stop_unless_open, Phase, serving, retrying, rebooting, Event, boot_returned, boot_raised,
  serve_returned, serve_raised, restart_returned, restart_raised, Machine, crashed, failed_start,
  ends, advance, commit, step,
}

-- A task's step leaves a SAFE system SAFE, or it opens the circuit of a service that is not critical
-- and leaves the system DEGRADED.
abbrev pub Guards : ServiceRegistration → SystemHealth → Type 0
Guards r h = (h ≡ safe) ⊎ ((r.critical ≡ false) × (h ≡ degraded))

module _ (c : SupervisorConfig) (r : ServiceRegistration) (now : ℕ) where
  record_crash-Guards :
      (s : Supervisor) → s.health ≡ safe → Guards r (record_crash c r now s).1.health
  unfolding record_crash open_circuit refresh_health
  record_crash-Guards s h = ground (arith, h)

  advance-Guards :
      (m : Machine) (p : Option Phase) (e : Event)
      → m.supervisor.health ≡ safe
      → Guards r (commit r m (advance c r now p e m.supervisor)).supervisor.health
  unfolding commit advance crashed failed_start start_raises start_returns ends stop_unless_open
      refresh_health
  advance-Guards m none boot_returned h = ground (arith, h)
  advance-Guards m none boot_raised h =
      record_crash-Guards (set_state r.name starting m.supervisor) h
  advance-Guards m (some serving) serve_raised h = record_crash-Guards m.supervisor h
  advance-Guards m (some serving) serve_returned h =
      ground (arith, h, record_crash-Guards m.supervisor)
  advance-Guards m (some retrying) restart_returned h = ground (arith, h)
  advance-Guards m (some retrying) restart_raised h =
      ground (arith, h, record_crash-Guards (set_state r.name starting m.supervisor))
  advance-Guards m (some rebooting) restart_returned h = ground (arith, h)
  advance-Guards m (some rebooting) restart_raised h =
      ground (arith, h, record_crash-Guards (set_state r.name starting m.supervisor))
  advance-Guards m _ _ h = inl h

  -- Once the system is SAFE, no event of a critical service's task changes that, and an event of
  -- another service's task changes it only to DEGRADED.
  pub step_safe :
      (m : Machine) (e : Event)
      → m.supervisor.health ≡ safe
      → Guards r (step c r now e m).supervisor.health
  unfolding step
  step_safe m e h = advance-Guards m (lookup r.name m.phases) e h

-- ===== src/Runtime/Supervisor/Tests.antt =====
-- A critical service and one that is not.
use brain_inspired_agent.Prelude.{
  ◌≤◌, ◌≡◌, refl, true, false, some, List, [], ◌∷◌, arith, lookup, insert, ◌⊎◌, ◌↔◌, if◌then◌else◌,
}
use brain_inspired_agent.Runtime.Supervisor.{
  SupervisorConfig, ServiceRegistration, Supervisor, Machine, ready, circuit_open, restarting,
  stopped, safe, degraded, halted, serving, retrying, boot_returned, serve_raised, restart_raised,
  step, advance, commit, crashed, failed_start, start_raises, refresh_health, open_circuit, new,
  record_crash, recent_crashes, drop_old, shut_down, is_open_at,
}
use brain_inspired_agent.Runtime.Supervisor.Crashes.{record_crash_opens, crashes_in_window}
use brain_inspired_agent.Runtime.Supervisor.Circuit.{IsBroken, booted, stepped, Reach-IsBroken}
use brain_inspired_agent.Runtime.Supervisor.Health.{Guards, step_safe}
use brain_inspired_agent.Runtime.Supervisor.Shutdown.{shut_down_settles}

abbrev config : SupervisorConfig
config = record { crash_limit = 2; crash_window = 60; initial_backoff = 1; maximum_backoff = 30 }

abbrev kernel : ServiceRegistration
kernel = record { name = "kernel"; critical = true }

abbrev feed : ServiceRegistration
feed = record { name = "feed"; critical = false }

abbrev services : List ServiceRegistration
services = kernel ∷ feed ∷ []

-- The kernel's circuit is open, and the feed has crashed once.
abbrev broken : Supervisor
broken = record {
  states = ("kernel", circuit_open) ∷ ("feed", ready) ∷ [];
  crashes = ("kernel", 5 ∷ []) ∷ ("feed", 7 ∷ []) ∷ [];
  health = safe;
  shutdown_requested = false;
}

abbrev serving_feed : Machine
serving_feed = record { supervisor = broken; phases = ("feed", serving) ∷ [] }

abbrev retrying_feed : Machine
retrying_feed = record {
  supervisor = record broken { crashes = [] };
  phases = ("feed", retrying) ∷ [];
}

abbrev first_crash : Machine
first_crash = step config kernel 4 serve_raised (step config kernel 1 boot_returned (new services))

Reach-IsBroken_example : IsBroken first_crash
Reach-IsBroken_example =
    Reach-IsBroken config services
      (stepped kernel 4 serve_raised (stepped kernel 1 boot_returned booted))

record_crash_opens_example :
    (((record_crash config feed 9 broken).0 ≡ true)
      ↔ ((feed.critical ≡ true) ⊎ (2 ≤ crashes_in_window config "feed" 9 broken)))
    × (lookup "feed" (record_crash config feed 9 broken).1.states
        ≡ some (if (record_crash config feed 9 broken).0 then circuit_open else restarting))
unfolding lookup
record_crash_opens_example = record_crash_opens config feed 9 broken ((omega arith, tt), (tt, tt))

step_safe_example : Guards feed (step config feed 9 serve_raised serving_feed).supervisor.health
step_safe_example = step_safe config feed 9 serving_feed serve_raised refl

-- The feed's second crash opens its circuit and takes the system from SAFE to DEGRADED.
safe_overwritten :
    ((step config feed 9 serve_raised serving_feed).supervisor.health ≡ degraded)
    × (lookup "feed" (step config feed 9 serve_raised serving_feed).supervisor.states
        ≡ some circuit_open)
unfolding lookup step advance commit crashed failed_start start_raises record_crash recent_crashes
    drop_old open_circuit refresh_health insert
safe_overwritten = (refl, refl)

-- After a restart that raised, the feed's task is in `serve` and its state is RESTARTING.
serves_unstarted :
    (lookup "feed" (step config feed 9 restart_raised retrying_feed).phases ≡ some serving)
    × (lookup "feed" (step config feed 9 restart_raised retrying_feed).supervisor.states
        ≡ some restarting)
unfolding lookup step advance commit crashed failed_start start_raises record_crash recent_crashes
    drop_old open_circuit refresh_health insert
serves_unstarted = (refl, refl)

shut_down_settles_example :
    ((shut_down services broken).health ≡ halted)
    × (lookup "feed" (shut_down services broken).states
        ≡ some (if is_open_at "feed" broken then circuit_open else stopped))
shut_down_settles_example = shut_down_settles services broken "feed" refl

-- ===== src/Cognition/State/Tests.antt =====
-- A trading day.
use brain_inspired_agent.Prelude.{◌≤◌, ◌<◌, ◌≡◌, refl, true, false, none, ◌↔◌}
use brain_inspired_agent.Cognition.State.{
  MarketHours, Reading, BrainState, closed, trading, idle, review, holiday, pre_open, auction,
  valid_hours, phase_at, refresh,
}
use brain_inspired_agent.Cognition.State.Laws.{phase_at_sessions, SetsMode, refresh_lem}

abbrev hours : MarketHours
hours = record { pre_open_at = 540; auction_at = 555; trading_at = 570; close_at = 900 }

abbrev morning : Reading
morning = record { instant = 7; trading_day = true; time_of_day = 600 }

abbrev resting : BrainState
resting = record { phase = closed; workload = idle; brain_mode = review; observed_at = 1 }

hours_valid : valid_hours hours ≡ true
unfolding valid_hours
hours_valid = refl

phase_at_sessions_example :
    ((phase_at hours morning ≡ holiday) ↔ (true ≡ false))
    × ((phase_at hours morning ≡ pre_open) ↔ ((true ≡ true) × (540 ≤ 600) × (600 < 555)))
    × ((phase_at hours morning ≡ auction) ↔ ((true ≡ true) × (555 ≤ 600) × (600 < 570)))
    × ((phase_at hours morning ≡ trading) ↔ ((true ≡ true) × (570 ≤ 600) × (600 < 900)))
phase_at_sessions_example = phase_at_sessions hours morning hours_valid

refresh_lem_example :
    ((refresh hours "tick" morning resting).1.phase ≡ phase_at hours morning)
    × SetsMode hours morning review (refresh hours "tick" morning resting).1.brain_mode
    × ((refresh hours "tick" morning resting).1.workload ≡ idle)
    × (refresh hours "tock" morning (refresh hours "tick" morning resting).1
        ≡ (none, (refresh hours "tick" morning resting).1))
refresh_lem_example = refresh_lem hours "tick" "tock" morning resting hours_valid

-- ===== src/Runtime/Supervisor/Circuit.antt =====
-- Open circuits and the tasks of their services.
use brain_inspired_agent.Prelude.{
  ℕ, String, ◌≡◌, refl, sym, ap, ◌∙◌, subst, true, false, Option, none, some, List, [], ◌∷◌, arith,
  inl, inr, if◌then◌else◌, if_elim, lookup, insert, lookup-insert, str_eq, eq_iff, eq_refl,
  Bool-cases,
}
use brain_inspired_agent.Runtime.Supervisor.{
  SupervisorConfig, ServiceRegistration, ready, starting, circuit_open, restarting, stopped,
  Supervisor, is_open_at, set_state, refresh_health, record_crash, open_circuit, start_returns,
  start_raises, stop_unless_open, Phase, serving, retrying, rebooting, ended, Event, boot_returned,
  boot_raised, serve_returned, serve_raised, restart_returned, restart_raised, Machine, crashed,
  failed_start, ends, advance, commit, step, new, request_shutdown,
}

-- What one wait of the task of `r` may change: no other service's state; and its own circuit is
-- open afterwards only if the task has ended.
pub record Keeps (r : ServiceRegistration) (s : Supervisor) (p : Phase) (s' : Supervisor)
    : Type 0 where
  pub others : (j : String) → str_eq r.name j ≡ false → lookup j s'.states ≡ lookup j s.states
  pub own : is_open_at r.name s' ≡ true → p ≡ ended

abbrev KeepsPair : ServiceRegistration → Supervisor → Phase × Supervisor → Type 0
KeepsPair r s (p, s') = Keeps r s p s'

abbrev OnSome : ServiceRegistration → Supervisor → Option (Phase × Supervisor) → Type 0
OnSome r s none = Unit
OnSome r s (some x) = KeepsPair r s x

module _ (c : SupervisorConfig) (r : ServiceRegistration) (now : ℕ) where
  start_returns-Keeps : (s : Supervisor) → Keeps r s serving (start_returns r s)
  unfolding start_returns refresh_health
  start_returns-Keeps s = record {
    others = λ j h. ground (
      arith,
      h,
      lookup-insert r.name j ready (insert r.name starting s.states),
      lookup-insert r.name j starting s.states,
    );
    own = λ h. ground (
      arith,
      h,
      lookup-insert r.name r.name ready (insert r.name starting s.states),
      eq_refl r.name,
    );
  }

  -- The states after a recorded crash.
  pub record_crash-states :
      (s : Supervisor)
      → (record_crash c r now s).1.states
        ≡ insert r.name (if (record_crash c r now s).0 then circuit_open else restarting) s.states
  unfolding record_crash open_circuit refresh_health
  record_crash-states s = ground arith

  record_crash-Keeps :
      (s t : Supervisor) (next : Phase)
      → ((j : String) → str_eq r.name j ≡ false → lookup j t.states ≡ lookup j s.states)
      → Keeps r s (if (record_crash c r now t).0 then ended else next) (record_crash c r now t).1
  record_crash-Keeps s t next same =
      let out = (record_crash c r now t).0 in
      let states = record_crash-states t in
      record {
        others = λ j h.
            ap (lookup j) states
            ∙ (ground (
              arith,
              h,
              lookup-insert r.name j (if out then circuit_open else restarting) t.states,
            )
                ∙ same j h);
        own = λ h. ground (
          arith,
          h,
          ap (lookup r.name) states,
          eq_refl r.name,
          lookup-insert r.name r.name (if out then circuit_open else restarting) t.states,
        );
      }

  crashed-Keeps : (s : Supervisor) → KeepsPair r s (crashed c r now s)
  unfolding crashed
  crashed-Keeps s = record_crash-Keeps s s retrying (λ j h. refl)

  failed_start-Keeps : (s : Supervisor) (next : Phase) → KeepsPair r s (failed_start c r now next s)
  unfolding failed_start start_raises
  failed_start-Keeps s next =
      record_crash-Keeps s (set_state r.name starting s) next
        (λ j h. ground (arith, h, lookup-insert r.name j starting s.states))

  ends-Keeps : (s : Supervisor) → KeepsPair r s (ends r s)
  unfolding ends stop_unless_open
  ends-Keeps s = record {
    others = λ j h. ground (arith, h, lookup-insert r.name j stopped s.states);
    own = λ h. refl;
  }

  advance-Keeps :
      (p : Option Phase) (e : Event) (s : Supervisor) → OnSome r s (advance c r now p e s)
  unfolding advance
  advance-Keeps none boot_returned s = start_returns-Keeps s
  advance-Keeps none boot_raised s = failed_start-Keeps s rebooting
  advance-Keeps (some serving) serve_returned s =
      if_elim (KeepsPair r s) s.shutdown_requested _ _ (λ _. ends-Keeps s) (λ _. crashed-Keeps s)
  advance-Keeps (some serving) serve_raised s = crashed-Keeps s
  advance-Keeps (some retrying) restart_returned s =
      if_elim (KeepsPair r s) s.shutdown_requested _ _ (λ _. ends-Keeps s)
        (λ _. start_returns-Keeps s)
  advance-Keeps (some retrying) restart_raised s =
      if_elim (KeepsPair r s) s.shutdown_requested _ _ (λ _. ends-Keeps s)
        (λ _. failed_start-Keeps s serving)
  advance-Keeps (some rebooting) restart_returned s =
      if_elim (KeepsPair r s) s.shutdown_requested _ _ (λ _. ends-Keeps s)
        (λ _. start_returns-Keeps s)
  advance-Keeps (some rebooting) restart_raised s =
      if_elim (KeepsPair r s) s.shutdown_requested _ _ (λ _. ends-Keeps s)
        (λ _. failed_start-Keeps s rebooting)
  advance-Keeps _ _ s = tt

-- Every service whose circuit is open has no task that waits.
pub record IsBroken (m : Machine) : Type 0 where
  pub at : (n : String) → is_open_at n m.supervisor ≡ true → lookup n m.phases ≡ some ended

commit-IsBroken :
    (r : ServiceRegistration) (m : Machine) (o : Option (Phase × Supervisor))
    → OnSome r m.supervisor o
    → IsBroken m
    → IsBroken (commit r m o)
unfolding commit
commit-IsBroken r m none k h = h
commit-IsBroken r m (some (p, s)) k h = record {
  at = λ n o. elim (Bool-cases (str_eq r.name n)) [
    | inl same ↦
        let name = (eq_iff r.name n).0 same in
        lookup-insert r.name n p m.phases
        ∙ rw same (ap some (k.own (subst (λ j. is_open_at j s ≡ true) (sym name) o)))
    | inr other ↦
        let unmoved = k.others n other in
        let before : is_open_at n m.supervisor ≡ true = ground (arith, o, unmoved) in
        lookup-insert r.name n p m.phases ∙ rw other (h.at n before)
  ];
}

-- The machines that boots, crashes, restarts, shutdown requests and clock readings bring about.
pub data Reach (c : SupervisorConfig) (rs : List ServiceRegistration) : Machine → Type 0 where
  booted : Reach c rs (new rs)
  stepped :
      {m : Machine} (r : ServiceRegistration) (now : ℕ) (e : Event)
      → Reach c rs m
      → Reach c rs (step c r now e m)
  requested : {m : Machine} → Reach c rs m → Reach c rs (request_shutdown m)

new_not_open :
    (n : String) (rs : List ServiceRegistration) → is_open_at n (new rs).supervisor ≡ false
unfolding new lookup
new_not_open n [] = refl
new_not_open n (r ∷ rs) = ground (arith, new_not_open n rs)

-- In every machine that can be reached, whatever the order of boots, failures and restarts: the task
-- of a service whose circuit is open has ended, so the service is neither served nor waits for a restart.
pub Reach-IsBroken :
    (c : SupervisorConfig) (rs : List ServiceRegistration) {m : Machine} → Reach c rs m → IsBroken m
unfolding step request_shutdown
Reach-IsBroken c rs booted = record { at = λ n h. absurd (ground (arith, h, new_not_open n rs)) }
Reach-IsBroken c rs (stepped {m = m} r now e h) =
    commit-IsBroken r m (advance c r now (lookup r.name m.phases) e m.supervisor)
      (advance-Keeps c r now (lookup r.name m.phases) e m.supervisor) (Reach-IsBroken c rs h)
Reach-IsBroken c rs (requested h) = record { at = (Reach-IsBroken c rs h).at }

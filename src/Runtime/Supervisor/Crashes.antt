-- ===== src/Runtime/Supervisor/Crashes.antt =====
-- Which crashes count, when the circuit opens, and how long a backoff lasts.
use native.Mathlib.Nat.{pow-suc, pow-zero, mul-one, mul_assoc}
use Prim.Native.Nat.{max}
use brain_inspired_agent.Prelude.{
  ℕ, zero, suc, ◌+◌, ◌-◌, ◌*◌, ◌^◌, ◌≤◌, String, ◌≡◌, refl, ap, Bool, true, some, List, [], ◌∷◌,
  ◌++◌, arith, length, filter, leb, ltb, All, ◌⊎◌, inl, inr, ◌↔◌, if◌then◌else◌, lookup,
  lookup-insert, eq_refl, Bool-cases,
}
use brain_inspired_agent.Runtime.Supervisor.{
  SupervisorConfig, ServiceRegistration, circuit_open, restarting, Supervisor, drop_old, crashes_of,
  recent_crashes, record_crash, open_circuit, refresh_health, backoff_delay,
}

-- Crash times that do not fall: those of one monotonic clock.
abbrev pub Rises : List ℕ → Type 0
Rises [] = Unit
Rises (t ∷ ts) = All (λ u. t ≤ u) ts × Rises ts

abbrev pub in_window : ℕ → ℕ → ℕ → Bool
in_window now window t = leb now (t + window)

filter-All :
    (now window : ℕ) (ts : List ℕ)
    → All (λ u. now ≤ u + window) ts
    → filter (in_window now window) ts ≡ ts
filter-All now window [] h = refl
filter-All now window (t ∷ ts) h = ground (arith, h.0, filter-All now window ts h.1)

All-shift :
    (now window t : ℕ) (ts : List ℕ)
    → now ≤ t + window
    → All (λ u. t ≤ u) ts
    → All (λ u. now ≤ u + window) ts
All-shift now window t [] h a = tt
All-shift now window t (u ∷ ts) h a = (omega (arith, a.0), All-shift now window t ts h a.1)

-- Dropping old crashes from the left keeps exactly those within the window.
pub drop_old-eq_filter :
    (now window : ℕ) (ts : List ℕ)
    → Rises ts
    → drop_old now window ts ≡ filter (in_window now window) ts
unfolding drop_old
drop_old-eq_filter now window [] h = refl
drop_old-eq_filter now window (t ∷ ts) h = elim (Bool-cases (ltb (t + window) now)) [
  | inl old ↦ ground (arith, old, drop_old-eq_filter now window ts h.1)
  | inr new ↦
      let kept = filter-All now window ts (All-shift now window t ts (ground (arith, new)) h.0) in
      ground (arith, new, kept)
]

-- The crashes of a service within the window, this one included.
abbrev pub crashes_in_window : SupervisorConfig → String → ℕ → Supervisor → ℕ
crashes_in_window c n now s =
    length (filter (in_window now c.crash_window) (crashes_of n s ++ now ∷ []))

-- A recorded crash opens the circuit exactly when the service is critical or its crashes within the
-- window, this one included, reach the limit; else the service is left restarting. The crash times are
-- those of a monotonic clock.
pub record_crash_opens :
    (c : SupervisorConfig) (r : ServiceRegistration) (now : ℕ) (s : Supervisor)
    → Rises (crashes_of r.name s ++ now ∷ [])
    → let (opened, s') = record_crash c r now s in
      ((opened ≡ true) ↔ ((r.critical ≡ true) ⊎ (c.crash_limit ≤ crashes_in_window c r.name now s)))
      × (lookup r.name s'.states ≡ some (if opened then circuit_open else restarting))
unfolding record_crash recent_crashes refresh_health open_circuit
record_crash_opens c r now s h =
    let counted =
      ap length (drop_old-eq_filter now c.crash_window (crashes_of r.name s ++ now ∷ []) h) in
    (
      (λ o. ground (arith, counted, o), λ d. ground (arith, counted, d)),
      ground (
        arith,
        lookup-insert r.name r.name circuit_open s.states,
        lookup-insert r.name r.name restarting s.states,
        eq_refl r.name,
      ),
    )

doubled : (i k : ℕ) → i ≤ i * 2 ^ k
doubled i zero = rw (pow-zero, mul-one) (omega arith)
doubled i (suc k) = rw (pow-suc, ← mul_assoc) (omega (arith, doubled i k))

-- A backoff lasts at least the initial delay and at most the maximum, where
-- the configuration keeps the two in order.
pub backoff_delay_bounds :
    (c : SupervisorConfig) (n : String) (s : Supervisor)
    → c.initial_backoff ≤ c.maximum_backoff
    → (c.initial_backoff ≤ backoff_delay c n s) × (backoff_delay c n s ≤ c.maximum_backoff)
unfolding backoff_delay
backoff_delay_bounds c n s h =
    (omega (arith, doubled c.initial_backoff (max 1 (length (crashes_of n s)) - 1)), omega arith)

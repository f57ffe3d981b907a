-- ===== src/Runtime/Supervisor/Shutdown.antt =====
-- What a shutdown leaves behind.
use mathlib.Core.List.{reverse, reverse-append}
use brain_inspired_agent.Prelude.{
  String, ◌≡◌, refl, ap, ◌∙◌, true, ◌||◌, some, List, [], ◌∷◌, ◌++◌, map, arith, if◌then◌else◌, has,
  lookup, lookup-insert, str_eq, eq_iff,
}
use brain_inspired_agent.Runtime.Supervisor.{
  ServiceRegistration, circuit_open, stopped, shutting_down, halted, Supervisor, is_open_at,
  stop_unless_open, stop_each, shut_down,
}

abbrev pub names : List ServiceRegistration → List String
names rs = map (λ r. r.name) rs

stop-lookup :
    (n k : String) (s : Supervisor)
    → lookup k (stop_unless_open n s).states ≡ (
        if is_open_at n s
        then lookup k s.states
        else if str_eq n k
        then some stopped
        else lookup k s.states)
unfolding stop_unless_open
stop-lookup n k s = ground (arith, lookup-insert n k stopped s.states)

-- The state of a service after the services of a list have been stopped.
stop_each-lookup :
    (k : String) (rs : List ServiceRegistration) (s : Supervisor)
    → lookup k (stop_each rs s).states ≡ (
        if has k (names rs)
        then (if is_open_at k s then lookup k s.states else some stopped)
        else lookup k s.states)
unfolding stop_each
stop_each-lookup k [] s = refl
stop_each-lookup k (r ∷ rs) s =
    stop_each-lookup k rs (stop_unless_open r.name s)
    ∙ ground (arith, stop-lookup r.name k s, eq_iff r.name k)

has-append : (k : String) (xs ys : List String) → has k (xs ++ ys) ≡ (has k xs || has k ys)
has-append k [] ys = refl
has-append k (x ∷ xs) ys = ground (arith, has-append k xs ys)

names-append : (rs ts : List ServiceRegistration) → names (rs ++ ts) ≡ names rs ++ names ts
names-append [] ts = refl
names-append (r ∷ rs) ts = ap (◌∷◌ r.name) (names-append rs ts)

has-names-reverse :
    (k : String) (rs : List ServiceRegistration) → has k (names (reverse rs)) ≡ has k (names rs)
has-names-reverse k [] = refl
has-names-reverse k (r ∷ rs) =
    ap (λ l. has k (names l)) (reverse-append (r ∷ []) rs)
    ∙ (ap (has k) (names-append (reverse rs) (r ∷ []))
        ∙ ground (arith, has-append k (names (reverse rs)) (r.name ∷ []), has-names-reverse k rs))

-- When a run has ended, the system is STOPPED, and every registered service is stopped, unless its
-- circuit was open: that it stays.
pub shut_down_settles :
    (rs : List ServiceRegistration) (s : Supervisor) (n : String)
    → has n (names rs) ≡ true
    → ((shut_down rs s).health ≡ halted)
      × (lookup n (shut_down rs s).states ≡ some (if is_open_at n s then circuit_open else stopped))
unfolding shut_down
shut_down_settles rs s n h = (
  refl,
  stop_each-lookup n (reverse rs) (record s { health = shutting_down })
      ∙ ground (arith, h, has-names-reverse n rs),
)

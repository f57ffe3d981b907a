-- ===== src/Cognition/State/Laws.antt =====
-- Phases, published changes and the modes of the brain state.
use brain_inspired_agent.Prelude.{
  ◌≤◌, ◌<◌, ◌≡◌, ◌≢◌, refl, sym, ap, subst, ◌∙◌, Bool, true, false, not, ◌&&◌, Option, none, some,
  arith, if◌then◌else◌, Result, String, ◌↔◌, ◌⊎◌, inl, inr, if_elim,
}
use brain_inspired_agent.Cognition.State.{
  MarketPhase, pre_open, auction, trading, holiday, Workload, BrainMode, booting, normal, review,
  degraded, safe, shutting_down, MarketPhase-discrete, Workload-discrete, BrainMode-discrete,
  same_phase, same_workload, same_mode, BrainState, StateChange, MarketHours, Reading, valid_hours,
  phase_at, is_rest, replace, refreshed_mode, refresh, is_booting, mark_ready, set_workload,
  set_mode, StateError, Operation, refreshing, readying, working, switching, apply, kept,
}

-- With valid hours, on a trading day each session is its half-open interval of the day, and no
-- session is open otherwise.
pub phase_at_sessions :
    (h : MarketHours) (t : Reading)
    → valid_hours h ≡ true
    → ((phase_at h t ≡ holiday) ↔ (t.trading_day ≡ false))
      × ((phase_at h t ≡ pre_open) ↔ (
          (t.trading_day ≡ true)
          × (h.pre_open_at ≤ t.time_of_day)
          × (t.time_of_day < h.auction_at)))
      × ((phase_at h t ≡ auction) ↔ (
          (t.trading_day ≡ true) × (h.auction_at ≤ t.time_of_day) × (t.time_of_day < h.trading_at)))
      × ((phase_at h t ≡ trading) ↔ (
          (t.trading_day ≡ true) × (h.trading_at ≤ t.time_of_day) × (t.time_of_day < h.close_at)))
unfolding phase_at valid_hours
phase_at_sessions h t v = (
  (λ e. ground (arith, e), λ e. ground (arith, e)),
  (λ e. ground (arith, e), λ e. ground (arith, e)),
  (λ e. ground (arith, e), λ e. ground (arith, e)),
  (λ e. ground (arith, e), λ e. ground (arith, e)),
)

-- What a call publishes, beside the state that it leaves: nothing, and then the state is the old
-- one; or a change from the old state to the new one, which differ in a dimension.
abbrev pub Publishes : BrainState → Option StateChange × BrainState → Type 0
Publishes s (none, s') = s' ≡ s
Publishes s (some c, s') =
    (c.previous ≡ s)
    × (c.current ≡ s')
    × ((s'.phase ≢ s.phase) ⊎ ((s'.workload ≢ s.workload) ⊎ (s'.brain_mode ≢ s.brain_mode)))

test {ℓ} : {P : Type ℓ} → Dec P → Bool
test d = elim d [ yes e ↦ true | no e ↦ false ]

not_same :
    (p : MarketPhase) (w : Workload) (m : BrainMode) (s : BrainState)
    → (same_phase s.phase p && (same_workload s.workload w && same_mode s.brain_mode m)) ≡ false
    → (p ≢ s.phase) ⊎ ((w ≢ s.workload) ⊎ (m ≢ s.brain_mode))
unfolding test
not_same p w m s h =
    split (MarketPhase-discrete s.phase p) (Workload-discrete s.workload w)
      (BrainMode-discrete s.brain_mode m) h
  where
    split :
        (a : Dec (s.phase ≡ p)) (b : Dec (s.workload ≡ w)) (c : Dec (s.brain_mode ≡ m))
        → (test a && (test b && test c)) ≡ false
        → (p ≢ s.phase) ⊎ ((w ≢ s.workload) ⊎ (m ≢ s.brain_mode))
    split (no a) b c h = inl (λ e. a (sym e))
    split (yes a) (no b) c h = inr (inl (λ e. b (sym e)))
    split (yes a) (yes b) (no c) h = inr (inr (λ e. c (sym e)))
    split (yes a) (yes b) (yes c) h = cc (h)

replace-Publishes :
    (p : MarketPhase) (w : Workload) (m : BrainMode) (reason : String) (t : Reading)
    (s : BrainState)
    → Publishes s (replace p w m reason t s)
unfolding replace
replace-Publishes p w m reason t s =
    if_elim (Publishes s)
      (same_phase s.phase p && (same_workload s.workload w && same_mode s.brain_mode m)) _ _
      (λ _. refl) (λ h. (refl, refl, not_same p w m s h))

abbrev PublishesKept : BrainState → Result StateError (Option StateChange) × BrainState → Type 0
PublishesKept s o = Publishes s (kept s o)

-- Every operation publishes nothing and leaves the state as it was, or publishes the change from the
-- old state to the new one, and these differ in the phase, the workload or the mode.
pub apply-Publishes :
    (h : MarketHours) (o : Operation) (reason : String) (t : Reading) (s : BrainState)
    → Publishes s (apply h o reason t s)
unfolding apply refresh mark_ready set_workload set_mode
apply-Publishes h refreshing reason t s =
    replace-Publishes (phase_at h t) s.workload (refreshed_mode s.brain_mode (phase_at h t)) reason
      t s
apply-Publishes h readying reason t s =
    if_elim (Publishes s) (not (is_booting s.brain_mode)) _ _ (λ _. refl)
      (λ _.
        replace-Publishes (phase_at h t) s.workload
          (if is_rest (phase_at h t) then review else normal) reason t s)
apply-Publishes h (working w) reason t s = replace-Publishes s.phase w s.brain_mode reason t s
apply-Publishes h (switching m) reason t s =
    if_elim (PublishesKept s) (is_booting m && not (is_booting s.brain_mode)) _ _ (λ _. refl)
      (λ _. replace-Publishes s.phase s.workload m reason t s)

-- Once the mode is not BOOTING, no operation sets it again.
pub apply-ready :
    (h : MarketHours) (o : Operation) (reason : String) (t : Reading) (s : BrainState)
    → is_booting s.brain_mode ≡ false
    → is_booting (apply h o reason t s).1.brain_mode ≡ false
unfolding apply refresh mark_ready set_workload set_mode replace refreshed_mode
apply-ready h refreshing reason t s r = ground (arith, r)
apply-ready h readying reason t s r = ground (arith, r)
apply-ready h (working w) reason t s r = ground (arith, r)
apply-ready h (switching m) reason t s r = ground (arith, r)

abbrev HasFields : MarketPhase → Workload → BrainMode → Option StateChange × BrainState → Type 0
HasFields p w m o = (o.1.phase ≡ p) × (o.1.workload ≡ w) × (o.1.brain_mode ≡ m)

all_same :
    (p : MarketPhase) (w : Workload) (m : BrainMode) (s : BrainState)
    → (same_phase s.phase p && (same_workload s.workload w && same_mode s.brain_mode m)) ≡ true
    → (s.phase ≡ p) × (s.workload ≡ w) × (s.brain_mode ≡ m)
unfolding test
all_same p w m s h =
    split (MarketPhase-discrete s.phase p) (Workload-discrete s.workload w)
      (BrainMode-discrete s.brain_mode m) h
  where
    split :
        (a : Dec (s.phase ≡ p)) (b : Dec (s.workload ≡ w)) (c : Dec (s.brain_mode ≡ m))
        → (test a && (test b && test c)) ≡ true
        → (s.phase ≡ p) × (s.workload ≡ w) × (s.brain_mode ≡ m)
    split (yes a) (yes b) (yes c) h = (a, b, c)
    split (yes a) (yes b) (no c) h = cc (h)
    split (yes a) (no b) c h = cc (h)
    split (no a) b c h = cc (h)

replace-HasFields :
    (p : MarketPhase) (w : Workload) (m : BrainMode) (reason : String) (t : Reading)
    (s : BrainState)
    → HasFields p w m (replace p w m reason t s)
unfolding replace
replace-HasFields p w m reason t s =
    if_elim (HasFields p w m)
      (same_phase s.phase p && (same_workload s.workload w && same_mode s.brain_mode m)) _ _
      (λ h. all_same p w m s h) (λ _. (refl, refl, refl))

replace_same :
    (p : MarketPhase) (w : Workload) (m : BrainMode) (reason : String) (t : Reading)
    (s : BrainState)
    → s.phase ≡ p
    → s.workload ≡ w
    → s.brain_mode ≡ m
    → replace p w m reason t s ≡ (none, s)
unfolding replace
replace_same p w m reason t s a b c =
    if_elim (λ o. o ≡ (none, s))
      (same_phase s.phase p && (same_workload s.workload w && same_mode s.brain_mode m)) _ _
      (λ _. refl) (λ h. absurd (either (not_same p w m s h)))
  where
    either : (p ≢ s.phase) ⊎ ((w ≢ s.workload) ⊎ (m ≢ s.brain_mode)) → ⊥
    either (inl x) = x (sym a)
    either (inr (inl x)) = x (sym b)
    either (inr (inr x)) = x (sym c)

refreshed_mode_twice :
    (m : BrainMode) (p : MarketPhase) → refreshed_mode (refreshed_mode m p) p ≡ refreshed_mode m p
unfolding refreshed_mode
refreshed_mode_twice m p = ground arith

-- The market is open or about to open: a trading day, from the pre-open hour until the close.
abbrev pub IsSession : MarketHours → Reading → Type 0
IsSession h t =
    (t.trading_day ≡ true) × (h.pre_open_at ≤ t.time_of_day) × (t.time_of_day < h.close_at)

-- The mode after a refresh, from the mode before it and the hours.
abbrev pub SetsMode : MarketHours → Reading → BrainMode → BrainMode → Type 0
SetsMode h t m m' =
    (((m ≡ normal) ⊎ (m ≡ review))
      × ((IsSession h t × (m' ≡ normal)) ⊎ ((¬ IsSession h t) × (m' ≡ review))))
    ⊎ ((m ≢ normal) × (m ≢ review) × (m' ≡ m))

rest-IsSession :
    (h : MarketHours) (t : Reading)
    → valid_hours h ≡ true
    → is_rest (phase_at h t) ≡ true
    → ¬ IsSession h t
unfolding phase_at valid_hours
rest-IsSession h t v r s = ground (arith, v, r, s.0, s.1, s.2)

not_rest-IsSession :
    (h : MarketHours) (t : Reading)
    → valid_hours h ≡ true
    → is_rest (phase_at h t) ≡ false
    → IsSession h t
unfolding phase_at valid_hours
not_rest-IsSession h t v r = ground (arith, v, r)

day_mode :
    (h : MarketHours) (t : Reading)
    → valid_hours h ≡ true
    → let m' : BrainMode = if is_rest (phase_at h t) then review else normal in
      (IsSession h t × (m' ≡ normal)) ⊎ ((¬ IsSession h t) × (m' ≡ review))
day_mode h t v =
    if_elim (λ m'. (IsSession h t × (m' ≡ normal)) ⊎ ((¬ IsSession h t) × (m' ≡ review)))
      (is_rest (phase_at h t)) _ _ (λ r. inr (rest-IsSession h t v r, refl))
      (λ r. inl (not_rest-IsSession h t v r, refl))

refreshed_mode-SetsMode :
    (h : MarketHours) (t : Reading) (m : BrainMode)
    → valid_hours h ≡ true
    → SetsMode h t m (refreshed_mode m (phase_at h t))
unfolding refreshed_mode
refreshed_mode-SetsMode h t normal v = inl (inl refl, day_mode h t v)
refreshed_mode-SetsMode h t review v = inl (inr refl, day_mode h t v)
refreshed_mode-SetsMode h t booting v = inr ((λ e. cc (e)), (λ e. cc (e)), refl)
refreshed_mode-SetsMode h t degraded v = inr ((λ e. cc (e)), (λ e. cc (e)), refl)
refreshed_mode-SetsMode h t safe v = inr ((λ e. cc (e)), (λ e. cc (e)), refl)
refreshed_mode-SetsMode h t shutting_down v = inr ((λ e. cc (e)), (λ e. cc (e)), refl)

-- With valid hours, a refresh sets the phase of the reading; from the mode NORMAL or REVIEW it sets NORMAL on a
-- trading day from the pre-open hour until the close, and REVIEW at any other time; any other mode
-- stays, and so does the workload; and a second refresh at the same reading publishes nothing and
-- changes nothing.
pub refresh_lem :
    (h : MarketHours) (reason reason' : String) (t : Reading) (s : BrainState)
    → valid_hours h ≡ true
    → let s' = (refresh h reason t s).1 in
      (s'.phase ≡ phase_at h t)
      × SetsMode h t s.brain_mode s'.brain_mode
      × (s'.workload ≡ s.workload)
      × (refresh h reason' t s' ≡ (none, s'))
unfolding refresh
refresh_lem h reason reason' t s v =
    let p = phase_at h t in
    let m = refreshed_mode s.brain_mode p in
    let f = replace-HasFields p s.workload m reason t s in
    let s' = (replace p s.workload m reason t s).1 in
    (
      f.0,
      subst (SetsMode h t s.brain_mode) (sym f.2) (refreshed_mode-SetsMode h t s.brain_mode v),
      f.1,
      replace_same p s'.workload (refreshed_mode s'.brain_mode p) reason' t s' f.0 refl (
          f.2
          ∙ (sym (refreshed_mode_twice s.brain_mode p) ∙ ap (λ x. refreshed_mode x p) (sym f.2))),
    )

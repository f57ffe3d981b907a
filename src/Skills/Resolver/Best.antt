-- ===== src/Skills/Resolver/Best.antt =====
-- The skill that a requirement is bound to.
use brain_inspired_agent.Prelude.{
  ℕ, String, ◌≡◌, refl, sym, ap, ◌∙◌, subst, Bool, true, false, ◌⊎◌, List, [], ◌∷◌, arith,
  Bool-cases, inl, inr, All, ok, Result-cases,
}
use brain_inspired_agent.Skills.Contract.{CapabilityContract, Capabilities, get_capability}
use brain_inspired_agent.Skills.Registry.{InstalledSkill, is_enabled, candidates}
use brain_inspired_agent.Skills.Registry.Laws.{Among, Among-candidates, Call, run_all, in_health}
use brain_inspired_agent.Skills.Resolver.{
  SkillRequirement, SkillBinding, eligible, before, least, rank_all, binding, choose, resolve,
}
use brain_inspired_agent.Skills.Resolver.Order.{before_trans, before_irrefl}

-- The first, or a later one that comes before it.
abbrev Least : InstalledSkill → InstalledSkill → List InstalledSkill → Type 0
Least r best ss =
    ((r ≡ best) ⊎ (Among r ss × (before r best ≡ true))) × All (λ o. before o r ≡ false) ss

not_before :
    (a b r : InstalledSkill)
    → before a b ≡ false
    → (r ≡ b) ⊎ (before r b ≡ true)
    → before a r ≡ false
not_before a b r h (inl e) = ap (before a) e ∙ h
not_before a b r h (inr e) = elim (Bool-cases (before a r)) [
  | inr k ↦ k
  | inl k ↦ let low = before_trans a r b k e in absurd (ground (arith, low, h))
]

least-Least : (best : InstalledSkill) (ss : List InstalledSkill) → Least (least best ss) best ss
unfolding least
least-Least best [] = (inl refl, tt)
least-Least best (s ∷ ss) = elim (Bool-cases (before s best)) [
  | inl e ↦
      let (place, all) = least-Least s ss in
      let same : least best (s ∷ ss) ≡ least s ss = rw e refl in
      subst (λ r. Least r best (s ∷ ss)) (sym same)
        (
          elim place [
            | inl p ↦ inr (inl (sym p), ap (λ r. before r best) p ∙ e)
            | inr (among, p) ↦ inr (inr among, before_trans (least s ss) s best p e)
          ],
          (
            elim place [
              | inl p ↦ not_before s s (least s ss) (before_irrefl s) (inl p)
              | inr (among, p) ↦ not_before s s (least s ss) (before_irrefl s) (inr p)
            ],
            all,
          ),
        )
  | inr e ↦
      let (place, all) = least-Least best ss in
      let same : least best (s ∷ ss) ≡ least best ss = rw e refl in
      subst (λ r. Least r best (s ∷ ss)) (sym same)
        (
          elim place [ inl p ↦ inl p | inr (among, p) ↦ inr (inr among, p) ],
          (
            elim place [
              | inl p ↦ not_before s best (least best ss) e (inl p)
              | inr (among, p) ↦ not_before s best (least best ss) e (inr p)
            ],
            all,
          ),
        )
]

module _ (capabilities : Capabilities) (required : CapabilityContract) (q : SkillRequirement) where
  -- What is ranked are the eligible skills.
  ranked-Among :
      (ss : List InstalledSkill) (s : InstalledSkill)
      → Among s (rank_all capabilities required q ss).0
      → Among s ss × (eligible capabilities required q s ≡ true)
  unfolding rank_all
  ranked-Among [] s h = absurd h
  ranked-Among (x ∷ ss) s h = elim (Bool-cases (eligible capabilities required q x)) [
    | inl e ↦
        let kept : (rank_all capabilities required q (x ∷ ss)).0
            ≡ x ∷ (rank_all capabilities required q ss).0 =
          rw e refl in
        elim (subst (Among s) kept h) [
          | inl p ↦ (inl p, ap (eligible capabilities required q) (sym p) ∙ e)
          | inr k ↦ let (among, fit) = ranked-Among ss s k in (inr among, fit)
        ]
    | inr e ↦
        let kept : (rank_all capabilities required q (x ∷ ss)).0
            ≡ (rank_all capabilities required q ss).0 =
          rw e refl in
        let (among, fit) = ranked-Among ss s (subst (Among s) kept h) in (inr among, fit)
  ]

  abbrev pub Unbeaten : InstalledSkill → InstalledSkill → Type 0
  Unbeaten r o = eligible capabilities required q o ≡ true → before o r ≡ false

  ranked-Unbeaten :
      (ss : List InstalledSkill) (r : InstalledSkill)
      → All (λ o. before o r ≡ false) (rank_all capabilities required q ss).0
      → All (Unbeaten r) ss
  unfolding rank_all
  ranked-Unbeaten [] r h = tt
  ranked-Unbeaten (x ∷ ss) r h = elim (Bool-cases (eligible capabilities required q x)) [
    | inl e ↦
        let kept : (rank_all capabilities required q (x ∷ ss)).0
            ≡ x ∷ (rank_all capabilities required q ss).0 =
          rw e refl in
        let all = subst (All (λ o. before o r ≡ false)) kept h in
        (λ k. all.0, ranked-Unbeaten ss r all.1)
    | inr e ↦
        let kept : (rank_all capabilities required q (x ∷ ss)).0
            ≡ (rank_all capabilities required q ss).0 =
          rw e refl in
        (
          λ k. absurd (ground (arith, k, e)),
          ranked-Unbeaten ss r (subst (All (λ o. before o r ≡ false)) kept h),
        )
  ]

  chosen :
      (policy : String) (now : ℕ) (b : SkillBinding) (ranked : List InstalledSkill × Bool)
      → choose q policy now ranked ≡ ok b
      → (s : InstalledSkill) × Among s ranked.0
        × (b ≡ binding q policy now s)
        × All (λ o. before o s ≡ false) ranked.0
  chosen policy now b ([], true) e = absurd (ground (arith, e))
  chosen policy now b ([], false) e = absurd (ground (arith, e))
  chosen policy now b (s ∷ ss, saw) e =
      let (place, all) = least-Least s ss in
      let same : b ≡ binding q policy now (least s ss) = ground (arith, e) in
      (
        least s ss,
        elim place [ inl p ↦ inl (sym p) | inr (among, p) ↦ inr among ],
        same,
        (
          elim place [
            | inl p ↦ not_before s s (least s ss) (before_irrefl s) (inl p)
            | inr (among, p) ↦ not_before s s (least s ss) (before_irrefl s) (inr p)
          ],
          all,
        ),
      )

-- In a registry that any calls have made: a requirement is bound to a candidate that is enabled, was
-- verified, was not unhealthy when it was enabled, and is eligible for the required contract; and no
-- eligible candidate comes before it in the order of health, cost, latency, version, identifier and digest.
pub resolve_lem :
    (capabilities : Capabilities) (cs : List Call) (q : SkillRequirement) (policy : String)
    (now : ℕ) (b : SkillBinding)
    → resolve capabilities (run_all capabilities cs []) q policy now ≡ ok b
    → (required : CapabilityContract) × (get_capability q.capability q.capability_version
          capabilities
        ≡ ok required)
      × (s : InstalledSkill) × Among s (candidates q.capability (run_all capabilities cs []))
      × (b ≡ binding q policy now s)
      × (is_enabled s.status ≡ true)
      × (s.verified ≡ true)
      × (in_health s.health ≡ true)
      × (eligible capabilities required q s ≡ true)
      × All
          (Unbeaten capabilities required q s)
          (candidates q.capability (run_all capabilities cs []))
unfolding resolve
resolve_lem capabilities cs q policy now b e =
    let items = candidates q.capability (run_all capabilities cs []) in
    elim (Result-cases (get_capability q.capability q.capability_version capabilities)) [
      | inr (x, f) ↦ absurd (ground (arith, e, f))
      | inl (required, f) ↦
          let picked : choose q policy now (rank_all capabilities required q items) ≡ ok b =
            ground (arith, e, f) in
          let (s, ranked, same, all) =
            chosen capabilities required q policy now b (rank_all capabilities required q items)
              picked in
          let (among, fit) = ranked-Among capabilities required q items s ranked in
          let (on, checked, fine) = Among-candidates capabilities cs q.capability s among in
          (
            required,
            f,
            s,
            among,
            same,
            on,
            checked,
            fine,
            fit,
            ranked-Unbeaten capabilities required q items s all,
          )
    ]

-- ===== src/Skills/Registry/Laws.antt =====
-- The skills that a registry offers.
use brain_inspired_agent.Prelude.{
  String, ◌≡◌, refl, sym, ap, ◌∙◌, subst, Bool, true, false, not, ◌&&◌, ◌||◌, ◌⊎◌, Option, none,
  some, List, [], ◌∷◌, filter, arith, Bool-cases, inl, inr, All, Result, ok, raise, Result-cases,
}
use brain_inspired_agent.Prelude.Pairs.{put_pair, same_pair}
use brain_inspired_agent.Skills.Contract.{Capabilities, SkillError}
use brain_inspired_agent.Skills.Registry.{
  SkillStatus, is_enabled, is_unhealthy, SkillManifest, SkillHealth, InstalledSkill, Skills,
  get_skill, check_provisions, new_skill, install, verify, enable, disable, values, candidates,
  provides_it,
}

abbrev pub in_health : Option SkillHealth → Bool
in_health none = false
in_health (some h) = not (is_unhealthy h.status)

-- A skill that is enabled has been verified and had a health that is not unhealthy.
abbrev pub is_sound : InstalledSkill → Bool
is_sound s = not (is_enabled s.status) || (s.verified && in_health s.health)

pub data Call : Type 0 where
  install_call : SkillManifest → Call
  verify_call : String → String → Call
  enable_call : String → String → SkillHealth → Call
  disable_call : String → String → Call

abbrev after : Skills → Result SkillError (InstalledSkill × Skills) → Skills
after items (ok (s, items')) = items'
after items (raise e) = items

abbrev run : Capabilities → Call → Skills → Skills
run capabilities (install_call m) items = after items (install capabilities m items)
run capabilities (verify_call id v) items = after items (verify id v items)
run capabilities (enable_call id v h) items = after items (enable id v h items)
run capabilities (disable_call id v) items = after items (disable id v items)

-- The registry after calls on an empty one, each without effect where it raises.
abbrev pub run_all : Capabilities → List Call → Skills → Skills
run_all capabilities [] items = items
run_all capabilities (c ∷ cs) items = run_all capabilities cs (run capabilities c items)

abbrev AllSound : Skills → Type 0
AllSound items = All (λ s. is_sound s ≡ true) (values items)

AllSound-put :
    (key : String × String) (s : InstalledSkill) (items : Skills)
    → is_sound s ≡ true
    → AllSound items
    → AllSound (put_pair key s items)
unfolding put_pair
AllSound-put key s [] h v = (h, tt)
AllSound-put key s ((name, old) ∷ rest) h v = elim (Bool-cases (same_pair name key)) [
  | inl e ↦ rw e (h, v.1)
  | inr e ↦ rw e (v.0, AllSound-put key s rest h v.1)
]

after-AllSound :
    (items : Skills) (m : Result SkillError (InstalledSkill × Skills))
    → AllSound items
    → ((s : InstalledSkill) (items' : Skills) → m ≡ ok (s, items') → AllSound items')
    → AllSound (after items m)
after-AllSound items (ok (s, items')) v k = k s items' refl
after-AllSound items (raise e) v k = v

-- A stored skill that is sound keeps the registry sound.
stored :
    (key : String × String) (s : InstalledSkill) (items items' : Skills)
    → is_sound s ≡ true
    → put_pair key s items ≡ items'
    → AllSound items
    → AllSound items'
stored key s items items' h e v = subst AllSound e (AllSound-put key s items h v)

run-AllSound :
    (capabilities : Capabilities) (c : Call) (items : Skills)
    → AllSound items
    → AllSound (run capabilities c items)
unfolding install verify enable disable
run-AllSound capabilities (install_call m) items v =
    after-AllSound items (install capabilities m items) v (λ s items' e.
      elim (Result-cases (check_provisions capabilities m m.provides)) [
        | inr (x, f) ↦ absurd (ground (arith, e, f))
        | inl (u, f) ↦
            stored (m.skill_id, m.version) (new_skill m) items items' refl (ground (arith, e, f)) v
      ])
run-AllSound capabilities (verify_call id n) items v =
    after-AllSound items (verify id n items) v (λ s items' e.
      elim (Result-cases (get_skill id n items)) [
        | inr (x, f) ↦ absurd (ground (arith, e, f))
        | inl (old, f) ↦
            stored (id, n) (record old { status = SkillStatus.verified; verified = true }) items
              items' refl (ground (arith, e, f)) v
      ])
run-AllSound capabilities (enable_call id n h) items v =
    after-AllSound items (enable id n h items) v (λ s items' e.
      elim (Result-cases (get_skill id n items)) [
        | inr (x, f) ↦ absurd (ground (arith, e, f))
        | inl (old, f) ↦
            let checked : old.verified ≡ true = ground (arith, e, f) in
            let fine : is_unhealthy h.status ≡ false = ground (arith, e, f, checked) in
            stored (id, n) (record old { status = SkillStatus.enabled; health = some h }) items
              items' (ground (arith, checked, fine)) (ground (arith, e, f, checked, fine)) v
      ])
run-AllSound capabilities (disable_call id n) items v =
    after-AllSound items (disable id n items) v (λ s items' e.
      elim (Result-cases (get_skill id n items)) [
        | inr (x, f) ↦ absurd (ground (arith, e, f))
        | inl (old, f) ↦
            stored (id, n) (record old { status = SkillStatus.disabled }) items items' refl
              (ground (arith, e, f)) v
      ])

run_all-AllSound :
    (capabilities : Capabilities) (cs : List Call) (items : Skills)
    → AllSound items
    → AllSound (run_all capabilities cs items)
run_all-AllSound capabilities [] items v = v
run_all-AllSound capabilities (c ∷ cs) items v =
    run_all-AllSound capabilities cs (run capabilities c items)
      (run-AllSound capabilities c items v)

-- The list has this skill.
abbrev pub Among : InstalledSkill → List InstalledSkill → Type 0
Among s [] = ⊥
Among s (x ∷ xs) = (x ≡ s) ⊎ Among s xs

filtered :
    (p : InstalledSkill → Bool) (xs : List InstalledSkill) (s : InstalledSkill)
    → All (λ x. is_sound x ≡ true) xs
    → Among s (filter p xs)
    → (p s ≡ true) × (is_sound s ≡ true)
filtered p [] s v h = absurd h
filtered p (x ∷ xs) s v h = elim (Bool-cases (p x)) [
  | inr e ↦ filtered p xs s v.1 (subst (Among s) (skip e) h)
  | inl e ↦ elim (subst (Among s) (keep e) h) [
    | inl same ↦ (ap p (sym same) ∙ e, ap is_sound (sym same) ∙ v.0)
    | inr rest ↦ filtered p xs s v.1 rest
  ]
]
  where
    skip : p x ≡ false → filter p (x ∷ xs) ≡ filter p xs
    skip e = rw e refl

    keep : p x ≡ true → filter p (x ∷ xs) ≡ x ∷ filter p xs
    keep e = rw e refl

-- A candidate is enabled, verified and was healthy enough when it was enabled.
pub Among-candidates :
    (capabilities : Capabilities) (cs : List Call) (capability : String) (s : InstalledSkill)
    → Among s (candidates capability (run_all capabilities cs []))
    → (is_enabled s.status ≡ true) × (s.verified ≡ true) × (in_health s.health ≡ true)
unfolding candidates
Among-candidates capabilities cs capability s h =
    let (chosen, sound) =
      filtered (λ s. is_enabled s.status && provides_it capability s.manifest)
        (values (run_all capabilities cs [])) s (run_all-AllSound capabilities cs [] tt) h in
    let on : is_enabled s.status ≡ true = ground (arith, chosen) in
    (on, ground (arith, sound, on), ground (arith, sound, on))

-- ===== src/Skills/Resolver.antt =====
-- `SkillResolver` of skills.py: the binding of a requirement to the best eligible skill. Costs are whole
-- millionths; the clock is an input.
pub mod Order
pub mod Best
mod Tests
use brain_inspired_agent.Prelude.{
  ℕ, String, Bool, true, false, not, ◌&&◌, ◌||◌, Option, none, some, List, [], ◌∷◌, find?, has, leb,
  ltb, ◌==◌, str_eq, if◌then◌else◌, Result, ok, raise, ◌>>=◌,
}
use brain_inspired_agent.Prelude.Texts.{codes, dotted}
use brain_inspired_agent.Skills.Contract.{
  SideEffect, risk, subset, numbers, CapabilityContract, compatible, Capabilities, get_capability,
  SkillError, permission_denied, binding_not_found,
}
use brain_inspired_agent.Skills.Registry.{
  HealthStatus, healthy, degraded, unhealthy, is_unhealthy, CapabilityProvision, SkillManifest,
  SkillHealth, InstalledSkill, Skills, candidates,
}

pub record SkillRequirement : Type 0 where
  pub node_id : String
  pub capability : String
  pub capability_version : String
  pub allowed_permissions : List String
  pub side_effect : SideEffect
  pub max_cost : Option ℕ
  pub max_latency_ms : Option ℕ
  pub data_region : Option String

pub record SkillBinding : Type 0 where
  pub node_id : String
  pub capability : String
  pub capability_version : String
  pub skill_id : String
  pub skill_version : String
  pub skill_digest : String
  pub policy_version : String
  pub resolved_at : ℕ

abbrev pub over : Option ℕ → ℕ → Bool
over none n = false
over (some limit) n = ltb limit n

abbrev pub outside : Option String → List String → Bool
outside none regions = false
outside (some r) [] = false
outside (some r) (x ∷ xs) = not (has r (x ∷ xs))

abbrev pub usable : Option SkillHealth → Bool
usable none = false
usable (some h) = not (is_unhealthy h.status)

-- The contract of the first provision of the capability.
abbrev pub provided_by : Capabilities → String → SkillManifest → Option CapabilityContract
provided_by capabilities capability m =
    elim (find? (λ p. str_eq p.capability capability) m.provides) [
      | none ↦ none
      | some p ↦ elim (get_capability p.capability p.capability_version capabilities) [
        | ok c ↦ some c
        | raise e ↦ none
      ]
    ]

abbrev fits : CapabilityContract → Option CapabilityContract → Bool
fits required none = false
fits required (some provided) = compatible required provided

-- The tests before the permissions, and the whole of them.
pub suits : Capabilities → CapabilityContract → SkillRequirement → InstalledSkill → Bool
suits capabilities required q s =
    fits required (provided_by capabilities q.capability s.manifest)
    && leb (risk s.manifest.side_effect) (risk q.side_effect)

abbrev pub permitted : SkillRequirement → InstalledSkill → Bool
permitted q s = subset s.manifest.required_permissions q.allowed_permissions

pub eligible : Capabilities → CapabilityContract → SkillRequirement → InstalledSkill → Bool
unfolding suits
eligible capabilities required q s =
    suits capabilities required q s
    && (permitted q s
        && (usable s.health
            && not (
                over q.max_cost s.manifest.max_cost
                || (over q.max_latency_ms s.manifest.max_latency_ms
                    || outside q.data_region s.manifest.data_regions))))

-- Texts and tuples of numbers in their order.
abbrev pub tuple_lt : List ℕ → List ℕ → Bool
tuple_lt [] [] = false
tuple_lt [] (y ∷ ys) = true
tuple_lt (x ∷ xs) [] = false
tuple_lt (x ∷ xs) (y ∷ ys) = ltb x y || (x == y && tuple_lt xs ys)

abbrev pub tuple_eq : List ℕ → List ℕ → Bool
tuple_eq [] [] = true
tuple_eq (x ∷ xs) (y ∷ ys) = x == y && tuple_eq xs ys
tuple_eq _ _ = false

abbrev pub health_rank : Option SkillHealth → ℕ
health_rank none = 1
health_rank (some h) = elim h.status [ healthy ↦ 0 | _ ↦ 1 ]

abbrev pub version_of : InstalledSkill → List ℕ
version_of s = numbers (dotted s.manifest.version)

-- The comparison of two sort keys: health, cost, latency, the newest version, identifier, digest.
abbrev pub before_by_name : InstalledSkill → InstalledSkill → Bool
before_by_name a b =
    tuple_lt (codes a.manifest.skill_id) (codes b.manifest.skill_id)
    || (tuple_eq (codes a.manifest.skill_id) (codes b.manifest.skill_id)
        && tuple_lt (codes a.manifest.digest) (codes b.manifest.digest))

abbrev pub before_by_version : InstalledSkill → InstalledSkill → Bool
before_by_version a b =
    tuple_lt (version_of b) (version_of a)
    || (tuple_eq (version_of b) (version_of a) && before_by_name a b)

abbrev pub limits_of : InstalledSkill → List ℕ
limits_of s = health_rank s.health ∷ s.manifest.max_cost ∷ s.manifest.max_latency_ms ∷ []

pub before : InstalledSkill → InstalledSkill → Bool
before a b =
    tuple_lt (limits_of a) (limits_of b)
    || (tuple_eq (limits_of a) (limits_of b) && before_by_version a b)

-- `min`: the first of the least.
pub least : InstalledSkill → List InstalledSkill → InstalledSkill
unfolding before
least best [] = best
least best (s ∷ ss) = least (if before s best then s else best) ss

-- The loop over the candidates: the eligible ones, and whether permissions alone excluded one.
pub rank_all :
    Capabilities
    → CapabilityContract
    → SkillRequirement
    → List InstalledSkill
    → List InstalledSkill × Bool
unfolding suits eligible
rank_all capabilities required q [] = ([], false)
rank_all capabilities required q (s ∷ ss) =
    let (ranked, saw) = rank_all capabilities required q ss in
    (
      (if eligible capabilities required q s then s ∷ ranked else ranked),
      (suits capabilities required q s && not (permitted q s)) || saw,
    )

abbrev pub binding : SkillRequirement → String → ℕ → InstalledSkill → SkillBinding
binding q policy_version now s = record {
  node_id = q.node_id;
  capability = q.capability;
  capability_version = q.capability_version;
  skill_id = s.manifest.skill_id;
  skill_version = s.manifest.version;
  skill_digest = s.manifest.digest;
  policy_version = policy_version;
  resolved_at = now;
}

abbrev pub choose :
    SkillRequirement → String → ℕ → List InstalledSkill × Bool → Result SkillError SkillBinding
choose q policy_version now ([], true) = raise permission_denied
choose q policy_version now ([], false) = raise binding_not_found
choose q policy_version now (s ∷ ss, saw) = ok (binding q policy_version now (least s ss))

pub resolve : Capabilities → Skills → SkillRequirement → String → ℕ → Result SkillError SkillBinding
unfolding rank_all least
resolve capabilities skills q policy_version now =
    get_capability q.capability q.capability_version capabilities >>= λ required.
    choose q policy_version now (rank_all capabilities required q (candidates q.capability skills))

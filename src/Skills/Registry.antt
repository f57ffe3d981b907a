-- ===== src/Skills/Registry.antt =====
-- `SkillRegistry` of skills.py: the installed skills by identifier and version. Manifests have passed
-- `SkillManifest.load`.
pub mod Laws
use brain_inspired_agent.Prelude.{
  ℕ, String, Bool, true, false, not, ◌&&◌, ◌||◌, Option, none, some, List, [], ◌∷◌, any, filter,
  map, leb, str_eq, if◌then◌else◌, Result, ok, raise, ◌>>=◌, ◌>>◌, reject_if,
}
use brain_inspired_agent.Prelude.Pairs.{PairDict, find_pair, put_pair}
use brain_inspired_agent.Skills.Contract.{
  SideEffect, risk, subset, CapabilityContract, Capabilities, get_capability, SkillError,
  skill_exists, skill_not_found, skill_schema_incompatible, skill_not_verified, skill_unhealthy,
}

pub data SkillStatus : Type 0 where
  installed verified enabled disabled : SkillStatus

abbrev pub is_enabled : SkillStatus → Bool
is_enabled enabled = true
is_enabled _ = false

pub data HealthStatus : Type 0 where
  healthy degraded unhealthy : HealthStatus

abbrev pub is_unhealthy : HealthStatus → Bool
is_unhealthy unhealthy = true
is_unhealthy _ = false

pub record CapabilityProvision : Type 0 where
  pub capability : String
  pub capability_version : String

pub record SkillManifest : Type 0 where
  pub skill_id : String
  pub version : String
  pub digest : String
  pub provides : List CapabilityProvision
  pub side_effect : SideEffect
  pub required_permissions : List String
  pub max_cost : ℕ
  pub max_latency_ms : ℕ
  pub data_regions : List String

pub record SkillHealth : Type 0 where
  pub status : HealthStatus
  pub checked_at : ℕ

pub record InstalledSkill : Type 0 where
  pub manifest : SkillManifest
  pub status : SkillStatus
  pub verified : Bool
  pub health : Option SkillHealth

abbrev pub Skills : Type 0
Skills = PairDict InstalledSkill

unfoldable pub get_skill : String → String → Skills → Result SkillError InstalledSkill
get_skill id version items = elim (find_pair (id, version) items) [
  | none ↦ raise skill_not_found
  | some s ↦ ok s
]

-- A skill must not exceed the contracts of what it provides.
unfoldable pub check_provisions :
    Capabilities → SkillManifest → List CapabilityProvision → Result SkillError (Unit {0})
check_provisions capabilities m [] = ok tt
check_provisions capabilities m (p ∷ ps) =
    get_capability p.capability p.capability_version capabilities >>= λ contract.
    reject_if
      (not (
          leb (risk m.side_effect) (risk contract.side_effect)
          && leb (risk contract.side_effect) (risk m.side_effect))
        || not (subset m.required_permissions contract.allowed_permissions))
      skill_schema_incompatible
    >> check_provisions capabilities m ps

abbrev is_some : Option InstalledSkill → Bool
is_some none = false
is_some (some s) = true

abbrev pub new_skill : SkillManifest → InstalledSkill
new_skill m = record { manifest = m; status = installed; verified = false; health = none }

unfoldable pub install :
    Capabilities → SkillManifest → Skills → Result SkillError (InstalledSkill × Skills)
unfolding check_provisions
install capabilities m items =
    reject_if (is_some (find_pair (m.skill_id, m.version) items)) skill_exists
    >> (check_provisions capabilities m m.provides
        >> ok (new_skill m, put_pair (m.skill_id, m.version) (new_skill m) items))

-- `self._items[key] = updated`.
abbrev pub store :
    String → String → InstalledSkill → Skills → Result SkillError (InstalledSkill × Skills)
store id version item items = ok (item, put_pair (id, version) item items)

unfoldable pub verify : String → String → Skills → Result SkillError (InstalledSkill × Skills)
unfolding get_skill
verify id version items = get_skill id version items >>= λ item.
    store id version (record item { status = SkillStatus.verified; verified = true }) items

unfoldable pub enable :
    String → String → SkillHealth → Skills → Result SkillError (InstalledSkill × Skills)
unfolding get_skill
enable id version health items = get_skill id version items >>= λ item.
    reject_if (not item.verified) skill_not_verified
    >> (reject_if (is_unhealthy health.status) skill_unhealthy
        >> store id version (record item { status = enabled; health = some health }) items)

unfoldable pub disable : String → String → Skills → Result SkillError (InstalledSkill × Skills)
unfolding get_skill
disable id version items = get_skill id version items >>= λ item.
    store id version (record item { status = disabled }) items

abbrev provides_it : String → SkillManifest → Bool
provides_it capability m = any (λ p. str_eq p.capability capability) m.provides

-- `candidates`.
abbrev values : Skills → List InstalledSkill
values [] = []
values ((key, item) ∷ rest) = item ∷ values rest

unfoldable pub candidates : String → Skills → List InstalledSkill
candidates capability items =
    filter (λ s. is_enabled s.status && provides_it capability s.manifest) (values items)

-- ===== src/Skills/Contract.antt =====
-- The capability contracts of skills.py and their compatibility. A schema has been read from JSON: a rule
-- is absent where the property is no object, and the values of an enumeration are texts, absent where they
-- are no sequence. The names and versions of a contract have passed its constructor's patterns.
mod Tests
use brain_inspired_agent.Prelude.{
  ℕ, ◌+◌, ◌-◌, ◌*◌, String, Bool, true, false, ◌&&◌, Option, none, some, List, [], ◌∷◌, all, has,
  leb, ◌==◌, str_eq, if◌then◌else◌, Dict, lookup, Result, ok, raise,
}
use brain_inspired_agent.Prelude.Pairs.{PairDict, find_pair, put_pair}
use brain_inspired_agent.Prelude.Texts.{dotted}

pub data SideEffect : Type 0 where
  pure idempotent queryable non_replayable : SideEffect

-- `_Risk`.
abbrev pub risk : SideEffect → ℕ
risk pure = 0
risk idempotent = 1
risk queryable = 2
risk non_replayable = 3

pub record Rule : Type 0 where
  pub type_name : Option String
  pub enum : Option (Option (List String))

pub record Schema : Type 0 where
  pub properties : List (String × Option Rule)
  pub required : List String

pub record CapabilityContract : Type 0 where
  pub capability : String
  pub version : String
  pub input_schema : Schema
  pub output_schema : Schema
  pub side_effect : SideEffect
  pub allowed_permissions : List String

-- The number that these digits write.
abbrev decimal : ℕ → List ℕ → ℕ
decimal n [] = n
decimal n (c ∷ cs) = decimal (n * 10 + (c - b'0')) cs

-- The numbers of a version.
abbrev pub numbers : List (List ℕ) → List ℕ
numbers [] = []
numbers (part ∷ parts) = decimal 0 part ∷ numbers parts

abbrev head : List ℕ → ℕ
head [] = 0
head (n ∷ ns) = n

abbrev pub major : String → ℕ
major version = head (numbers (dotted version))

abbrev pub subset : List String → List String → Bool
subset xs ys = all (λ x. has x ys) xs

abbrev same_option : Option String → Option String → Bool
same_option none none = true
same_option (some a) (some b) = str_eq a b
same_option _ _ = false

-- The values of the provided enumeration are required ones, where the requirement has one.
abbrev enum_compatible : Option (Option (List String)) → Option (Option (List String)) → Bool
enum_compatible none provided = true
enum_compatible (some (some required)) (some (some provided)) = subset provided required
enum_compatible (some _) _ = false

abbrev rule_compatible : Option Rule → Option (Option Rule) → Bool
rule_compatible (some required) (some (some provided)) =
    same_option provided.type_name required.type_name && enum_compatible required.enum provided.enum
rule_compatible _ _ = false

abbrev rules_compatible : List (String × Option Rule) → List (String × Option Rule) → Bool
rules_compatible [] provided = true
rules_compatible ((name, rule) ∷ rest) provided =
    rule_compatible rule (lookup name provided) && rules_compatible rest provided

-- `schema_compatible`.
unfoldable pub schema_compatible : Bool → Schema → Schema → Bool
schema_compatible contravariant required provided =
    (if contravariant
      then subset provided.required required.required
      else subset required.required provided.required)
    && rules_compatible required.properties provided.properties

-- `CapabilityRegistry.compatible`.
unfoldable pub compatible : CapabilityContract → CapabilityContract → Bool
unfolding schema_compatible
compatible required provided =
    str_eq required.capability provided.capability
    && (major required.version == major provided.version
        && (schema_compatible true required.input_schema provided.input_schema
            && (schema_compatible false required.output_schema provided.output_schema
                && (leb (risk provided.side_effect) (risk required.side_effect)
                    && subset provided.allowed_permissions required.allowed_permissions))))

pub data SkillError : Type 0 where
  capability_exists capability_not_found skill_exists skill_not_found : SkillError
  skill_schema_incompatible skill_not_verified skill_unhealthy : SkillError
  permission_denied binding_not_found : SkillError

-- `CapabilityRegistry`: the contracts by name and version.
abbrev pub Capabilities : Type 0
Capabilities = PairDict CapabilityContract

abbrev is_some : Option CapabilityContract → Bool
is_some none = false
is_some (some c) = true

pub register_capability : CapabilityContract → Capabilities → Result SkillError Capabilities
register_capability c items =
    if is_some (find_pair (c.capability, c.version) items)
    then raise capability_exists
    else ok (put_pair (c.capability, c.version) c items)

unfoldable pub get_capability :
    String → String → Capabilities → Result SkillError CapabilityContract
get_capability capability version items = elim (find_pair (capability, version) items) [
  | none ↦ raise capability_not_found
  | some c ↦ ok c
]

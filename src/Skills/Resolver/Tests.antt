-- ===== src/Skills/Resolver/Tests.antt =====
-- Two skills for a capability; the newer one of equal cost is bound.
use brain_inspired_agent.Prelude.{
  String, ◌≡◌, refl, true, none, some, List, [], ◌∷◌, All, ok, raise, lookup,
}
use brain_inspired_agent.Prelude.Texts.{cut}
use brain_inspired_agent.Prelude.Pairs.{find_pair, put_pair}
use brain_inspired_agent.Skills.Contract.{
  pure, Schema, CapabilityContract, Capabilities, get_capability, compatible, schema_compatible,
  permission_denied,
}
use brain_inspired_agent.Skills.Registry.{
  healthy, SkillManifest, SkillHealth, InstalledSkill, is_enabled, candidates, install, verify,
  enable, check_provisions, get_skill,
}
use brain_inspired_agent.Skills.Registry.Laws.{
  Among, Call, install_call, verify_call, enable_call, run_all, in_health,
}
use brain_inspired_agent.Skills.Resolver.{
  SkillRequirement, SkillBinding, binding, eligible, resolve,
}
use brain_inspired_agent.Skills.Resolver.Best.{Unbeaten, resolve_lem}

abbrev nothing : Schema
nothing = record { properties = []; required = [] }

abbrev quote : CapabilityContract
quote = record {
  capability = "market.quote";
  version = "1.0";
  input_schema = nothing;
  output_schema = nothing;
  side_effect = pure;
  allowed_permissions = "net" ∷ [];
}

abbrev capabilities : Capabilities
capabilities = (("market.quote", "1.0"), quote) ∷ []

abbrev manifest : String → SkillManifest
manifest v = record {
  skill_id = "quotes";
  version = v;
  digest = v;
  provides = record { capability = "market.quote"; capability_version = "1.0" } ∷ [];
  side_effect = pure;
  required_permissions = "net" ∷ [];
  max_cost = 10;
  max_latency_ms = 100;
  data_regions = [];
}

abbrev good : SkillHealth
good = record { status = healthy; checked_at = 5 }

abbrev installed_twice : List Call
installed_twice =
    install_call (manifest "1.2.0")
    ∷ install_call (manifest "1.10.0")
    ∷ verify_call "quotes" "1.2.0"
    ∷ verify_call "quotes" "1.10.0"
    ∷ enable_call "quotes" "1.2.0" good
    ∷ enable_call "quotes" "1.10.0" good
    ∷ []

abbrev need : List String → SkillRequirement
need permissions = record {
  node_id = "fetch";
  capability = "market.quote";
  capability_version = "1.0";
  allowed_permissions = permissions;
  side_effect = pure;
  max_cost = none;
  max_latency_ms = some 200;
  data_region = none;
}

abbrev newest : SkillBinding
newest = record {
  node_id = "fetch";
  capability = "market.quote";
  capability_version = "1.0";
  skill_id = "quotes";
  skill_version = "1.10.0";
  skill_digest = "1.10.0";
  policy_version = "p";
  resolved_at = 9;
}

resolved :
    resolve capabilities (run_all capabilities installed_twice []) (need ("net" ∷ [])) "p" 9
    ≡ ok newest
unfolding resolve get_capability compatible candidates install verify enable check_provisions
    get_skill find_pair put_pair schema_compatible lookup cut
resolved = refl

denied :
    resolve capabilities (run_all capabilities installed_twice []) (need []) "p" 9
    ≡ raise permission_denied
unfolding resolve get_capability compatible candidates install verify enable check_provisions
    get_skill find_pair put_pair schema_compatible lookup cut
denied = refl

resolve_lem_example :
    (required : CapabilityContract) × (get_capability "market.quote" "1.0" capabilities
      ≡ ok required)
    × (s : InstalledSkill) × Among s
        (candidates "market.quote" (run_all capabilities installed_twice []))
    × (newest ≡ binding (need ("net" ∷ [])) "p" 9 s)
    × (is_enabled s.status ≡ true)
    × (s.verified ≡ true)
    × (in_health s.health ≡ true)
    × (eligible capabilities required (need ("net" ∷ [])) s ≡ true)
    × All
        (Unbeaten capabilities required (need ("net" ∷ [])) s)
        (candidates "market.quote" (run_all capabilities installed_twice []))
resolve_lem_example =
    resolve_lem capabilities installed_twice (need ("net" ∷ [])) "p" 9 newest resolved

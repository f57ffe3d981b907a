-- ===== src/Skills/Contract/Tests.antt =====
-- A skill that accepts fewer values than its callers may send passes as compatible.
use brain_inspired_agent.Prelude.{String, ◌≡◌, refl, true, some, List, [], ◌∷◌, lookup}
use brain_inspired_agent.Skills.Contract.{Schema, schema_compatible, major}
use brain_inspired_agent.Prelude.Texts.{cut}

abbrev input : List String → Schema
input values = record {
  properties =
      ("side", some (record { type_name = some "string"; enum = some (some values) })) ∷ [];
  required = "side" ∷ [];
}

narrower_input : schema_compatible true (input ("buy" ∷ "sell" ∷ [])) (input ("buy" ∷ [])) ≡ true
unfolding schema_compatible lookup
narrower_input = refl

major_12 : major "12.3" ≡ 12
unfolding cut
major_12 = refl

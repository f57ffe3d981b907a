-- ===== src/Cognition/Goals.antt =====
-- goals.py: completion conditions over a context, and the policy that selects goals. Context values
-- are JSON values with whole numbers; what a condition expects is a scalar. A path comes split at its dots.
pub mod Select
mod Tests
use brain_inspired_agent.Prelude.{
  ℕ, zero, suc, ◌+◌, ◌≤◌, String, Bool, true, false, not, ◌&&◌, ◌||◌, Option, none, some, List, [],
  ◌∷◌, map, filter, has, leb, ltb, ◌==◌, str_eq, str_lt, if◌then◌else◌,
}
use brain_inspired_agent.Prelude.Int.{ℤ, pos, negsuc, ltb_ℤ}
use brain_inspired_agent.Prelude.Sort.{sorted}

mutual
  pub data Value : Type 0 where
    null : Value
    bool : Bool → Value
    num : ℤ → Value
    text : String → Value
    array : Value
    object : Fields → Value

  pub data Fields : Type 0 where
    no_fields : Fields
    field : String → Value → Fields → Fields

pub data Scalar : Type 0 where
  is_null : Scalar
  is_bool : Bool → Scalar
  is_num : ℤ → Scalar
  is_text : String → Scalar

pub data ConditionOperator : Type 0 where
  eq ne gt gte lt lte : ConditionOperator

pub member : String → Fields → Option Value
member k no_fields = none
member k (field j v fs) = if str_eq j k then some v else member k fs

abbrev pub fields_of : Value → Fields
fields_of (object fs) = fs
fields_of _ = no_fields

-- `_resolve`: the value at the path, if every step is a key of an object.
pub resolve : Value → List String → Option Value
resolve v [] = some v
resolve v (part ∷ parts) = elim (member part (fields_of v)) [
  | none ↦ none
  | some w ↦ resolve w parts
]

abbrev eq_ℤ : ℤ → ℤ → Bool
eq_ℤ (pos a) (pos b) = a == b
eq_ℤ (negsuc a) (negsuc b) = a == b
eq_ℤ _ _ = false

abbrev eq_Bool : Bool → Bool → Bool
eq_Bool true b = b
eq_Bool false b = not b

abbrev as_number : Bool → ℤ
as_number true = pos 1
as_number false = pos 0

-- Python's `==` between a value and a scalar: a truth value equals the number that it counts as.
pub equals : Value → Scalar → Bool
equals null is_null = true
equals (bool a) (is_bool b) = eq_Bool a b
equals (bool a) (is_num n) = eq_ℤ (as_number a) n
equals (num n) (is_bool b) = eq_ℤ n (as_number b)
equals (num n) (is_num m) = eq_ℤ n m
equals (text a) (is_text b) = str_eq a b
equals _ _ = false

pub compare_numbers : ConditionOperator → ℤ → ℤ → Bool
compare_numbers gt a b = ltb_ℤ b a
compare_numbers gte a b = not (ltb_ℤ a b)
compare_numbers lt a b = ltb_ℤ a b
compare_numbers _ a b = not (ltb_ℤ b a)

-- The order tests: numbers only, and truth values are none here.
pub ordered : ConditionOperator → Value → Scalar → Bool
ordered op (num n) (is_num m) = compare_numbers op n m
ordered op _ _ = false

pub record CompletionCondition : Type 0 where
  pub condition_id : String
  pub path : List String
  pub operator : ConditionOperator
  pub expected : Scalar

pub holds : ConditionOperator → Value → Scalar → Bool
holds eq v x = equals v x
holds ne v x = not (equals v x)
holds op v x = ordered op v x

-- `CompletionCondition.matches`.
pub matches : Value → CompletionCondition → Bool
matches context c = elim (resolve context c.path) [
  | none ↦ false
  | some v ↦ holds c.operator v c.expected
]

pub data GoalStatus : Type 0 where
  available completed expired disabled : GoalStatus

pub record GoalDefinition : Type 0 where
  pub goal_id : String
  pub priority : ℕ
  pub conflict_domain : String
  pub deadline : Option ℕ
  pub completion_conditions : List CompletionCondition
  pub enabled : Bool

pub record GoalEvaluation : Type 0 where
  pub goal : GoalDefinition
  pub status : GoalStatus
  pub evaluated_at : ℕ
  pub unmet_condition_ids : List String

pub record GoalSnapshot : Type 0 where
  pub version : ℕ
  pub created_at : ℕ
  pub evaluations : List GoalEvaluation
  pub selected_goal_ids : List String

abbrev pub is_due : Option ℕ → ℕ → Bool
is_due none now = false
is_due (some at) now = leb at now

abbrev pub is_nil {ℓ} : {A : Type ℓ} → List A → Bool
is_nil [] = true
is_nil (x ∷ xs) = false

pub unmet : Value → List CompletionCondition → List String
unmet context cs = map (λ c. c.condition_id) (filter (λ c. not (matches context c)) cs)

-- `_evaluate_goal`.
pub evaluate_goal : Value → ℕ → GoalDefinition → GoalEvaluation
evaluate_goal context now g =
    let missing = unmet context g.completion_conditions in
    if not g.enabled
    then record { goal = g; status = disabled; evaluated_at = now; unmet_condition_ids = [] }
    else if is_due g.deadline now
    then record { goal = g; status = expired; evaluated_at = now; unmet_condition_ids = [] }
    else if not (is_nil g.completion_conditions) && is_nil missing
    then record { goal = g; status = completed; evaluated_at = now; unmet_condition_ids = [] }
    else record { goal = g; status = available; evaluated_at = now; unmet_condition_ids = missing }

abbrev pub is_available : GoalStatus → Bool
is_available available = true
is_available _ = false

-- The earlier deadline; no deadline is the last of all.
pub earlier : Option ℕ → Option ℕ → Bool
earlier (some a) (some b) = ltb a b
earlier (some a) none = true
earlier none _ = false

-- The sort key of `_select`.
pub comes_first : GoalEvaluation → GoalEvaluation → Bool
comes_first x y =
    ltb y.goal.priority x.goal.priority
    || (x.goal.priority == y.goal.priority
        && (earlier x.goal.deadline y.goal.deadline
            || (not (earlier y.goal.deadline x.goal.deadline)
                && str_lt x.goal.goal_id y.goal.goal_id)))

-- The loop of `_select`, with the occupied conflict domains.
pub pick : List String → List GoalEvaluation → List GoalEvaluation
pick occupied [] = []
pick occupied (x ∷ xs) =
    let skipped = pick occupied xs in
    let taken = x ∷ pick (x.goal.conflict_domain ∷ occupied) xs in
    if has x.goal.conflict_domain occupied then skipped else taken

pub select : List GoalEvaluation → List GoalEvaluation
select es = pick [] (sorted comes_first (filter (λ e. is_available e.status) es))

-- `GoalPolicy.evaluate`, from the version of the last snapshot.
pub evaluate : List GoalDefinition → Value → ℕ → ℕ → GoalSnapshot
evaluate goals context now version =
    let evaluations = map (evaluate_goal context now) goals in
    record {
      version = version + 1;
      created_at = now;
      evaluations = evaluations;
      selected_goal_ids = map (λ e. e.goal.goal_id) (select evaluations);
    }

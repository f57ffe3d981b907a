-- ===== src/Events/Message.antt =====
-- events/models.py and the bus message of brain_kernel/ports/events.py: what subscriptions are
-- configured with, and what a delivery reports. A predicate that is given may raise (`none`).
use brain_inspired_agent.Prelude.{
  ℕ, String, Bool, true, false, Option, none, List, [], ◌∷◌, map, filter, str_eq, Result, ok, ◌>>◌,
  reject_if,
}
use brain_inspired_agent.Prelude.Int.{ℤ, pos, pos_part, ltb_ℤ}

pub record BusMessage : Type 0 where
  pub msg_id : String
  pub msg_type : String
  pub source : String
  pub priority : ℕ

pub data OverflowPolicy : Type 0 where
  wait reject drop coalesce : OverflowPolicy

pub data DeliveryOutcome : Type 0 where
  enqueued coalesced filtered dropped rejected closed : DeliveryOutcome

pub record SubscriptionConfig : Type 0 where
  pub subscription_id : String
  pub message_types : List String
  pub capacity : ℕ
  pub overflow_policy : OverflowPolicy
  pub predicate : Option (BusMessage → Option Bool)
  pub coalesce_key : Option (BusMessage → String)

pub data ConfigError : Type 0 where
  no_subscription_id no_message_types capacity_not_positive timeout_not_positive no_coalesce_key :
      ConfigError

abbrev is_empty {ℓ} : {A : Type ℓ} → List A → Bool
is_empty [] = true
is_empty (x ∷ xs) = false

abbrev lacks_key : OverflowPolicy → Option (BusMessage → String) → Bool
lacks_key coalesce none = true
lacks_key _ _ = false

-- `__post_init__`, over the raw capacity and the raw timeout.
unfoldable pub validate_config :
    String
    → List String
    → ℤ
    → OverflowPolicy
    → Option (BusMessage → Option Bool)
    → Option (BusMessage → String)
    → ℤ
    → Result ConfigError SubscriptionConfig
validate_config id types capacity policy predicate key timeout = do
  reject_if (str_eq id "") no_subscription_id
  reject_if (is_empty types) no_message_types
  reject_if (ltb_ℤ capacity (pos 1)) capacity_not_positive
  reject_if (ltb_ℤ timeout (pos 1)) timeout_not_positive
  reject_if (lacks_key policy key) no_coalesce_key
  ok (record {
    subscription_id = id;
    message_types = types;
    capacity = pos_part capacity;
    overflow_policy = policy;
    predicate = predicate;
    coalesce_key = key;
  })

pub record DeliveryResult : Type 0 where
  pub subscription_id : String
  pub outcome : DeliveryOutcome

pub record PublishReport : Type 0 where
  pub msg_id : String
  pub deliveries : List DeliveryResult

abbrev pub is_rejected : DeliveryOutcome → Bool
is_rejected rejected = true
is_rejected _ = false

-- `PublishReport.rejected`.
unfoldable pub rejected_ids : PublishReport → List String
rejected_ids r = map (λ d. d.subscription_id) (filter (λ d. is_rejected d.outcome) r.deliveries)

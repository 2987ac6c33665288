-- ===== src/Infrastructure/EventBus.antt =====
-- src/modules/infrastructure/event_bus/interface.py: `DefaultEventBus`. A handler is a value of a
-- parameter type, and `publish` gives the handlers that it calls, in order (handlers that raise or
-- call the bus are left out). The identifier that `uuid4` makes is an argument.
pub mod Delivery
use linblock.Prelude.{
  ℕ, String, string_eq, Bool, true, false, Option, none, some, List, [], ◌∷◌, Result, ok, err,
  Method, require, ◌>>=◌, ◌>>◌, is_some, if◌then◌else◌,
}
use mathlib.Core.Option
use linblock.Dict
use linblock.Dict.{Dict}

pub data Error : Type 0 where
  not_initialized : Error
  subscription_not_found : String → Error

pub record EventBus (H : Type 0) : Type 0 where
  pub subscriptions : Dict String (Dict String H)
  pub initialized : Bool

abbrev pub Call : Type 0 → Type 0 → Type 0
Call H A = Method Error (EventBus H) A

module _ {H : Type 0} where
  unfoldable pub init : EventBus H
  init = record { subscriptions = Dict.empty; initialized = true }

  unfoldable pub require_initialized : Call H Unit
  require_initialized b = require b.initialized not_initialized b

  -- `self._subscriptions.get(event_type, {})`
  abbrev pub or_empty : Option (Dict String H) → Dict String H
  or_empty none = Dict.empty
  or_empty (some handlers) = handlers

  abbrev pub handlers_of : EventBus H → String → Dict String H
  handlers_of b event_type = or_empty (Dict.get b.subscriptions event_type)

  pub subscribe : String → H → String → Call H String
  unfolding require_initialized
  subscribe event_type handler sub_id = do
    require_initialized
    λ b.
        let handlers = Dict.put (handlers_of b event_type) sub_id handler in
        (ok sub_id, record b { subscriptions = Dict.put b.subscriptions event_type handlers })

  -- The loop of `unsubscribe`: the first event type that holds the identifier loses it.
  pub drop_first : String → List (String × Dict String H) → Option (List (String × Dict String H))
  drop_first sub_id [] = none
  drop_first sub_id ((event_type, handlers) ∷ entries) =
      let rest = drop_first sub_id entries in
      if Dict.contains handlers sub_id
      then some ((event_type, Dict.remove handlers sub_id) ∷ entries)
      else Option.map (λ l. (event_type, handlers) ∷ l) rest

  dropped : String → Option (List (String × Dict String H)) → Call H Unit
  dropped sub_id none b = (err (subscription_not_found sub_id), b)
  dropped sub_id (some entries) b =
      (ok tt, record b { subscriptions = record { entries = entries } })

  pub unsubscribe : String → Call H Unit
  unfolding require_initialized dropped
  unsubscribe sub_id = do
    require_initialized
    λ b. dropped sub_id (drop_first sub_id b.subscriptions.entries) b

  pub publish : String → Call H (List H)
  unfolding require_initialized
  publish event_type = do require_initialized; λ b. (ok (Dict.values (handlers_of b event_type)), b)

  get_subscriber_count : String → Call H ℕ
  unfolding require_initialized
  get_subscriber_count event_type = do
    require_initialized
    λ b. (ok (Dict.size (handlers_of b event_type)), b)

  unfoldable pub cleanup : EventBus H → EventBus H
  cleanup b = record { subscriptions = Dict.empty; initialized = false }

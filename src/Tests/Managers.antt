-- ===== src/Tests/Managers.antt =====
-- src/modules/infrastructure/event_bus/interface.py and
-- src/modules/android/process_manager/interface.py at concrete inputs.
use linblock.Prelude.{ℕ, String, string_eq, nat_eq, ◌≡◌, refl, true, [], ◌∷◌}
use linblock.Dict
use linblock.Infrastructure.EventBus.{EventBus, publish, subscribe, unsubscribe}
use linblock.Infrastructure.EventBus.Delivery.{publish-unsubscribe}
use linblock.Android.ProcessManager.{ProcessInfo, ProcessManager, new_process}

-- Handlers that are numbers.
abbrev bus : EventBus ℕ
bus = record {
  subscriptions = record { entries = ("boot", record { entries = ("a", 1) ∷ [] }) ∷ [] };
  initialized = true;
}

abbrev boot : String
boot = "boot"

publish-unsubscribe_example :
    (publish boot (unsubscribe "b" (subscribe "halt" 2 "b" bus).1).1).0 ≡ (publish boot bus).0
publish-unsubscribe_example =
    publish-unsubscribe bus "halt" 2 "b" boot refl (unfold Dict.get in (refl, tt))

abbrev sh : ℕ
sh = 12

abbrev mail : ℕ
mail = 13

abbrev shell : ProcessInfo
shell = new_process sh "org.shell" "sh"

abbrev guest : ProcessManager
guest = record {
  processes = record { entries = (sh, shell) ∷ (mail, new_process mail "org.mail" "mail") ∷ [] };
  initialized = true;
}

-- ===== src/Infrastructure/EventBus/Delivery.antt =====
-- Who is called for an event.
use linblock.Prelude.{
  String, string_eq, ◌==◌, ==_iff, ==_refl, ◌≡◌, refl, ap, ◌∙◌, true, none, some, List, [], ◌∷◌,
  ◌++◌, ok, if◌then◌else◌, Bool-cases, Option-cases, inl, inr, map, All,
}
use mathlib.Core.List.{map-append}
use linblock.Dict
use linblock.Dict.{Dict, get-put, items-put_new, remove-put_new, AllItems, get-AllItems, get-empty}
use linblock.Dict.Assoc.{write}
use linblock.Infrastructure.EventBus.{
  EventBus, handlers_of, subscribe, drop_first, unsubscribe, publish,
}

abbrev Lacks : (H : Type 0) → String → String × Dict String H → Type 0
Lacks H sub_id (event_type, handlers) = Dict.get handlers sub_id ≡ none

module _ {H : Type 0} (b : EventBus H) (event_type : String) (handler : H) (sub_id : String) where
  -- After a subscription with a new identifier on a live bus, an event of that type goes to the
  -- handlers as before and then to the new one, and an event of any other type as before.
  pub publish-subscribe :
      (other : String)
      → b.initialized ≡ true
      → Dict.get (handlers_of b event_type) sub_id ≡ none
      → (publish other (subscribe event_type handler sub_id b).1).0 ≡ (
          if event_type == other
          then ok (Dict.values (handlers_of b event_type) ++ handler ∷ [])
          else (publish other b).0)
  unfolding publish subscribe
  publish-subscribe other up fresh =
      let handlers = Dict.put (handlers_of b event_type) sub_id handler in
      let added : Dict.values handlers ≡ Dict.values (handlers_of b event_type) ++ handler ∷ [] =
        ap (map (λ kv. kv.1)) (items-put_new (handlers_of b event_type) sub_id handler fresh)
        ∙ map-append (λ kv. kv.1) (Dict.items (handlers_of b event_type))
            ((sub_id, handler) ∷ []) in
      elim (Bool-cases (event_type == other)) [
        | inl same ↦ rw up (rw get-put (rw same (ap ok added)))
        | inr apart ↦ rw up (rw get-put (rw apart refl))
      ]

-- No subscription has the identifier.
abbrev IsFresh : {H : Type 0} → String → EventBus H → Type 0
IsFresh {H} sub_id b = AllItems (Lacks H sub_id) b.subscriptions

module _ {H : Type 0} where
  drop_first-write :
      (sub_id event_type : String) (handlers : Dict String H)
      (entries : List (String × Dict String H))
      → All (Lacks H sub_id) entries
      → Dict.contains handlers sub_id ≡ true
      → drop_first sub_id (write event_type handlers entries)
        ≡ some (write event_type (Dict.remove handlers sub_id) entries)
  unfolding drop_first write
  drop_first-write sub_id event_type handlers [] fresh there = rw there refl
  drop_first-write sub_id event_type handlers ((other, old) ∷ entries) fresh there =
      elim (Bool-cases (other == event_type)) [
        | inl same ↦ rw (same, there) refl
        | inr apart ↦
            rw (apart, fresh.0, drop_first-write sub_id event_type handlers entries fresh.1 there)
              refl
      ]

  fresh-handlers_of :
      (b : EventBus H) (sub_id event_type : String)
      → IsFresh sub_id b
      → Dict.get (handlers_of b event_type) sub_id ≡ none
  fresh-handlers_of b sub_id event_type fresh =
      elim (Option-cases (Dict.get b.subscriptions event_type)) [
        | inl gone ↦ rw gone (get-empty sub_id)
        | inr (handlers, held) ↦
            rw held (get-AllItems (Lacks H sub_id) b.subscriptions event_type handlers fresh held)
      ]

  -- What is left is the event type, with the handlers that it had.
  unsubscribe-subscribe :
      (b : EventBus H) (event_type : String) (handler : H) (sub_id : String)
      → b.initialized ≡ true
      → IsFresh sub_id b
      → (unsubscribe sub_id (subscribe event_type handler sub_id b).1).1 ≡ record b {
        subscriptions = Dict.put b.subscriptions event_type (handlers_of b event_type);
      }
  unfolding subscribe unsubscribe Dict.put
  unsubscribe-subscribe b event_type handler sub_id up fresh =
      let before = handlers_of b event_type in
      let handlers = Dict.put before sub_id handler in
      let there : Dict.contains handlers sub_id ≡ true = simp (get-put, ==_refl) refl in
      let left = drop_first-write sub_id event_type handlers b.subscriptions.entries fresh there in
      let same =
        remove-put_new before sub_id handler (fresh-handlers_of b sub_id event_type fresh) in
      simp (up, left, same) refl

  -- On a live bus, unsubscribing with the identifier of a subscription just made undoes it, if the
  -- identifier was new: every event goes to the handlers that it went to before.
  pub publish-unsubscribe :
      (b : EventBus H) (event_type : String) (handler : H) (sub_id other : String)
      → b.initialized ≡ true
      → IsFresh sub_id b
      → (publish other (unsubscribe sub_id (subscribe event_type handler sub_id b).1).1).0
        ≡ (publish other b).0
  unfolding publish subscribe unsubscribe
  publish-unsubscribe b event_type handler sub_id other up fresh =
      rw (unsubscribe-subscribe b event_type handler sub_id up fresh)
        (elim (Bool-cases (event_type == other)) [
          | inl same ↦ rw up (
              rw get-put (
                rw same (
                  ap (λ t. ok (Dict.values (handlers_of b t))) ((==_iff event_type other).0 same))))
          | inr apart ↦ rw up (rw get-put (rw apart refl))
        ])

-- ===== src/Android/AppStateStore/History.antt =====
-- The history of a package is a chain of transitions that ends in its current record.
use linblock.Prelude.{
  String, ◌≡◌, refl, string_eq, ==_iff, ◌==◌, Bool-cases, inl, inr, Option, none, some, List, [],
  ◌∷◌, ◌++◌, ap, sym, ==_refl,
}
use mathlib.Core.Option
use mathlib.Core.Path.{subst}
use linblock.Dict
use linblock.Dict.{Dict, get-put, get-remove, get-empty}
use linblock.Android.AppStateStore.{
  AppStateRecord, AppStateStore, init, or_nil, get_current, get_history, new_record, record_state,
  remove, clear,
}

pub data Event : Type 0 where
  enter : (pkg state : String) → Option (Dict String String) → (now : String) → Event
  forget : (pkg : String) → Event
  forget_all : Event

unfoldable pub handle : AppStateStore → Event → AppStateStore
handle s (enter pkg state metadata now) = (record_state s pkg state metadata now).0
handle s (forget pkg) = remove s pkg
handle s forget_all = clear s

unfoldable pub run : AppStateStore → List Event → AppStateStore
run s [] = s
run s (event ∷ events) = run (handle s event) events

-- The record behind the ones in the list.
abbrev pub latest : Option AppStateRecord → List AppStateRecord → Option AppStateRecord
latest before [] = before
latest before (r ∷ rs) = latest (some r) rs

-- Each record belongs to the package and names the state of the one before it, and the first
-- names none.
abbrev pub IsChain : String → Option AppStateRecord → List AppStateRecord → Type 0
IsChain pkg before [] = Unit
IsChain pkg before (r ∷ rs) =
    (r.pkg ≡ pkg) × (r.previous_state ≡ Option.map (λ b. b.state) before) × IsChain pkg (some r) rs

latest-append :
    (before : Option AppStateRecord) (rs : List AppStateRecord) (r : AppStateRecord)
    → latest before (rs ++ r ∷ []) ≡ some r
latest-append before [] r = refl
latest-append before (q ∷ rs) r = latest-append (some q) rs r

IsChain-append :
    (pkg : String) (before : Option AppStateRecord) (rs : List AppStateRecord) (r : AppStateRecord)
    → IsChain pkg before rs
    → r.pkg ≡ pkg
    → r.previous_state ≡ Option.map (λ b. b.state) (latest before rs)
    → IsChain pkg before (rs ++ r ∷ [])
IsChain-append pkg before [] r h named linked = (named, linked, tt)
IsChain-append pkg before (q ∷ rs) r h named linked =
    (h.0, h.1, IsChain-append pkg (some q) rs r h.2 named linked)

record IsLinked (s : AppStateStore) (pkg : String) : Type 0 where
  chained : IsChain pkg none (or_nil (Dict.get s.history pkg))
  ends : latest none (or_nil (Dict.get s.history pkg)) ≡ Dict.get s.current pkg

module _ (s : AppStateStore) (pkg state : String) (metadata : Option (Dict String String))
    (now : String) where
  enter_self-IsLinked : IsLinked s pkg → IsLinked (record_state s pkg state metadata now).0 pkg
  unfolding record_state new_record
  enter_self-IsLinked v = record {
    chained =
        simp (get-put, ==_refl)
          (IsChain-append pkg none _ _ v.chained refl
            (ap (Option.map (λ b. b.state)) (sym v.ends)));
    ends = simp (get-put, ==_refl, latest-append) refl;
  }

  enter-IsLinked :
      (other : String) → IsLinked s other → IsLinked (record_state s pkg state metadata now).0 other
  unfolding record_state
  enter-IsLinked other v = elim (Bool-cases (pkg == other)) [
    | inl same ↦
        let e = (==_iff pkg other).0 same in
        subst (IsLinked (record_state s pkg state metadata now).0) e
          (enter_self-IsLinked (subst (IsLinked s) (sym e) v))
    | inr apart ↦ record {
      chained = simp (get-put, apart) v.chained;
      ends = simp (get-put, apart) v.ends;
    }
  ]

remove-IsLinked :
    (s : AppStateStore) (pkg other : String) → IsLinked s other → IsLinked (remove s pkg) other
unfolding remove
remove-IsLinked s pkg other v = elim (Bool-cases (pkg == other)) [
  | inl same ↦ record { chained = simp (get-remove, same) tt; ends = simp (get-remove, same) refl }
  | inr apart ↦ record {
    chained = simp (get-remove, apart) v.chained;
    ends = simp (get-remove, apart) v.ends;
  }
]

handle-IsLinked :
    (s : AppStateStore) (event : Event) (other : String)
    → IsLinked s other
    → IsLinked (handle s event) other
unfolding handle clear
handle-IsLinked s (enter pkg state metadata now) other v =
    enter-IsLinked s pkg state metadata now other v
handle-IsLinked s (forget pkg) other v = remove-IsLinked s pkg other v
handle-IsLinked s forget_all other v = record {
  chained = simp get-empty tt;
  ends = simp get-empty refl;
}

run-IsLinked :
    (s : AppStateStore) (events : List Event) (other : String)
    → IsLinked s other
    → IsLinked (run s events) other
unfolding run
run-IsLinked s [] other v = v
run-IsLinked s (event ∷ events) other v =
    run-IsLinked (handle s event) events other (handle-IsLinked s event other v)

init-IsLinked : (pkg : String) → IsLinked init pkg
unfolding init
init-IsLinked pkg = record { chained = simp get-empty tt; ends = simp get-empty refl }

-- After any calls on a new store, the history of a package is a chain of records of that package,
-- each naming the state of the record before it as its previous state, and `get_current` is the
-- last record of the history, or nothing where the history is empty.
pub get_history_lem :
    (events : List Event) (pkg : String)
    → IsChain pkg none (get_history (run init events) pkg)
      × (latest none (get_history (run init events) pkg) ≡ get_current (run init events) pkg)
unfolding get_history get_current
get_history_lem events pkg =
    let v = run-IsLinked init events pkg (init-IsLinked pkg) in (v.chained, v.ends)

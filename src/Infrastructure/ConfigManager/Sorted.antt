-- ===== src/Infrastructure/ConfigManager/Sorted.antt =====
-- What `yaml.dump` makes of a mapping: it sorts the keys of each dict by default. Reading a key gives
-- the same value as before, with its keys sorted.
use linblock.Prelude.{
  String, string_eq, ◌==◌, ==_iff, ◌≡◌, refl, ap, sym, ◌∙◌, Bool, true, false, inl, inr, Bool-cases,
  Option, none, some, List, [], ◌∷◌, arith, if◌then◌else◌,
}
use mathlib.Core.Option
use Prim.Native.Nat.{Ordering}
use Prim.Native.String.{compare}
use linblock.Infrastructure.ConfigManager.Tree.{
  Value, leaf, node, Fields, nil, field, get_field, get_path,
}
use linblock.Infrastructure.ConfigManager.Paths.{follow, get_path-cons}

abbrev pub before : String → String → Bool
before j k = elim (compare j k) [ Ordering.lt ↦ true | _ ↦ false ]

unfoldable pub insert : {A : Type 0} → String → Value A → Fields A → Fields A
insert k v nil = field k v nil
insert k v (field j u fs) =
    let rest = insert k v fs in if before k j then field k v (field j u fs) else field j u rest

unfoldable mutual
  pub sorted_value : {A : Type 0} → Value A → Value A
  sorted_value (leaf a) = leaf a
  sorted_value (node fs) = node (sorted fs)

  pub sorted : {A : Type 0} → Fields A → Fields A
  sorted nil = nil
  sorted (field k v fs) = insert k (sorted_value v) (sorted fs)

-- A dict has each key once, in itself and in the dicts below it; `P` holds of what is no dict.
abbrev mutual
  pub IsDict : {A : Type 0} → (A → Type 0) → Value A → Type 0
  IsDict P (leaf a) = P a
  IsDict P (node fs) = AreDicts P fs

  pub AreDicts : {A : Type 0} → (A → Type 0) → Fields A → Type 0
  AreDicts P nil = Unit
  AreDicts P (field k v fs) = (get_field k fs ≡ none) × IsDict P v × AreDicts P fs

module _ {A : Type 0} where
  pub get_field-insert :
      (k j : String) (v : Value A) (fs : Fields A)
      → get_field j fs ≡ none
      → get_field k (insert j v fs) ≡ (if j == k then some v else get_field k fs)
  unfolding get_field insert
  get_field-insert k j v nil new = refl
  get_field-insert k j v (field i u fs) new = elim (Bool-cases (i == j)) [
    | inl same ↦ absurd (cc (rw same at new))
    | inr apart ↦
        let new' : get_field j fs ≡ none = rw apart at new in
        ground (arith, get_field-insert k j v fs new', ==_iff i j, ==_iff j k, ==_iff i k)
  ]

  pub get_field-sorted :
      (P : A → Type 0) (k : String) (fs : Fields A)
      → AreDicts P fs
      → get_field k (sorted fs) ≡ Option.map sorted_value (get_field k fs)
  unfolding get_field sorted
  get_field-sorted P k nil d = refl
  get_field-sorted P k (field j v fs) (new, _, d) =
      let new' : get_field j (sorted fs) ≡ none =
        get_field-sorted P j fs d ∙ ap (Option.map sorted_value) new in
      get_field-insert k j (sorted_value v) (sorted fs) new' ∙ elim (Bool-cases (j == k)) [
        | inl same ↦ rw same refl
        | inr apart ↦ rw apart (get_field-sorted P k fs d)
      ]

  pub get_field-IsDict :
      (P : A → Type 0) (k : String) (fs : Fields A) (v : Value A)
      → AreDicts P fs
      → get_field k fs ≡ some v
      → IsDict P v
  unfolding get_field
  get_field-IsDict P k nil v d h = absurd (cc h)
  get_field-IsDict P k (field j u fs) v (_, here, d) h = elim (Bool-cases (j == k)) [
    | inl same ↦ let e : u ≡ v = cc (rw same at h) in rw (← e) here
    | inr apart ↦ get_field-IsDict P k fs v d (rw apart at h)
  ]

  follow-sorted :
      (P : A → Type 0) (parts : List String) (o : Option (Value A))
      → ((v : Value A)
          → o ≡ some v
          → get_path parts (sorted_value v) ≡ Option.map sorted_value (get_path parts v))
      → follow parts (Option.map sorted_value o) ≡ Option.map sorted_value (follow parts o)
  follow-sorted P parts none h = refl
  follow-sorted P parts (some v) h = h v refl

  pub get_path-sorted :
      (P : A → Type 0) (parts : List String) (v : Value A)
      → IsDict P v
      → get_path parts (sorted_value v) ≡ Option.map sorted_value (get_path parts v)
  unfolding get_path sorted_value
  get_path-sorted P [] v d = refl
  get_path-sorted P (part ∷ parts) (leaf a) d = refl
  get_path-sorted P (part ∷ parts) (node fs) d =
      get_path-cons part parts (sorted fs)
      ∙ ap (follow parts) (get_field-sorted P part fs d)
      ∙ follow-sorted P parts (get_field part fs)
          (λ v held. get_path-sorted P parts v (get_field-IsDict P part fs v d held))
      ∙ ap (Option.map sorted_value) (sym (get_path-cons part parts fs))

  -- Each key once, in the dict itself.
  abbrev pub IsDistinct : Fields A → Type 0
  IsDistinct nil = Unit
  IsDistinct (field k v fs) = (get_field k fs ≡ none) × IsDistinct fs

  AreDicts-IsDistinct : (P : A → Type 0) (fs : Fields A) → AreDicts P fs → IsDistinct fs
  AreDicts-IsDistinct P nil d = tt
  AreDicts-IsDistinct P (field k v fs) (new, _, d) = (new, AreDicts-IsDistinct P fs d)

  insert-IsDistinct :
      (k : String) (v : Value A) (fs : Fields A)
      → get_field k fs ≡ none
      → IsDistinct fs
      → IsDistinct (insert k v fs)
  unfolding insert get_field
  insert-IsDistinct k v nil new d = (refl, tt)
  insert-IsDistinct k v (field j u fs) new d = elim (Bool-cases (j == k)) [
    | inl same ↦ absurd (cc (rw same at new))
    | inr apart ↦
        let new' : get_field k fs ≡ none = rw apart at new in
        let absent : get_field j (insert k v fs) ≡ none =
          ground (arith, get_field-insert j k v fs new', ==_iff j k, ==_iff k j, d.0) in
        elim (Bool-cases (before k j)) [
          | inl first ↦ rw first (rw apart new', d)
          | inr later ↦ rw later (absent, insert-IsDistinct k v fs new' d.1)
        ]
  ]

  sorted-new :
      (P : A → Type 0) (k : String) (fs : Fields A)
      → AreDicts P fs
      → get_field k fs ≡ none
      → get_field k (sorted fs) ≡ none
  sorted-new P k fs d new = get_field-sorted P k fs d ∙ ap (Option.map sorted_value) new

  pub sorted-IsDistinct : (P : A → Type 0) (fs : Fields A) → AreDicts P fs → IsDistinct (sorted fs)
  unfolding sorted
  sorted-IsDistinct P nil d = tt
  sorted-IsDistinct P (field k v fs) (new, _, d) =
      insert-IsDistinct k (sorted_value v) (sorted fs) (sorted-new P k fs d new)
        (sorted-IsDistinct P fs d)

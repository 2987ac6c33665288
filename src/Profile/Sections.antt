-- ===== src/Profile/Sections.antt =====
-- A section of a profile: its dict, sorted by the YAML library, gives its values back.
use text.Mathlib.TextEquality.{eq_iff}
use linblock.Prelude.{
  String, string_eq, ◌==◌, Bool-cases, inl, inr, none, List, ◌≡◌, refl, ap, ◌∙◌, Bool, true, false,
  ◌&&◌, not, some, [], ◌∷◌, arith, length,
}
use mathlib.Core.Option
use linblock.Infrastructure.ConfigManager.Sorted.{
  sorted, sorted_value, insert, AreDicts, get_field-sorted,
}
use linblock.Infrastructure.ConfigManager.Tree.{leaf, node, Fields, nil, field, get_field}
use linblock.Profile.{
  Scalar, Tree, Schema, Instance, asdict, or_default, has_field, known, values_of, construct,
}

-- No two fields have one name.
abbrev distinct : Schema → Bool
distinct [] = true
distinct ((name, value) ∷ schema) = not (has_field name schema) && distinct schema

-- A field that the class does not have changes no value.
values_of-field :
    (schema : Schema) (k : String) (v : Tree) (fs : Fields Scalar)
    → has_field k schema ≡ false
    → values_of schema (field k v fs) ≡ values_of schema fs
unfolding values_of get_field
values_of-field [] k v fs h = refl
values_of-field ((name, value) ∷ schema) k v fs h =
    ground (arith, eq_iff name k, eq_iff k name, values_of-field schema k v fs)

values_of-asdict :
    (schema : Schema) (values : Instance)
    → length values ≡ length schema
    → distinct schema ≡ true
    → values_of schema (asdict schema values) ≡ values
unfolding values_of asdict get_field
values_of-asdict [] [] e h = refl
values_of-asdict [] (v ∷ values) e h = absurd (omega arith)
values_of-asdict (f ∷ schema) [] e h = absurd (omega arith)
values_of-asdict ((name, value) ∷ schema) (v ∷ values) e h =
    let fs = asdict schema values in
    let fresh : has_field name schema ≡ false = ground (arith, h) in
    let later : distinct schema ≡ true = ground (arith, h) in
    let own : get_field name (field name v fs) ≡ some v = ground (arith, eq_iff name name) in
    ap (λ o. or_default o value ∷ values_of schema (field name v fs)) own
    ∙ ap (λ l. v ∷ l)
        (values_of-field schema name v fs fresh
          ∙ values_of-asdict schema values (omega (arith, e)) later)

known-more :
    (name : String) (value : Tree) (schema : Schema) (fs : Fields Scalar)
    → known schema fs ≡ true
    → known ((name, value) ∷ schema) fs ≡ true
unfolding known
known-more name value schema nil h = refl
known-more name value schema (field k v fs) h = ground (arith, known-more name value schema fs)

known-asdict : (schema : Schema) (values : Instance) → known schema (asdict schema values) ≡ true
unfolding known asdict
known-asdict [] values = refl
known-asdict (f ∷ schema) [] = refl
known-asdict ((name, value) ∷ schema) (v ∷ values) = ground (
  arith,
  eq_iff name name,
  known-more name value schema (asdict schema values),
  known-asdict schema values,
)

construct-asdict :
    (schema : Schema) (values : Instance)
    → distinct schema ≡ true
    → length values ≡ length schema
    → construct schema (node (asdict schema values)) ≡ some values
unfolding construct
construct-asdict schema values h e =
    rw (known-asdict schema values) (ap (λ l. some l) (values_of-asdict schema values e h))

values_of-same :
    (schema : Schema) (fs gs : Fields Scalar)
    → ((k : String) → get_field k gs ≡ get_field k fs)
    → values_of schema gs ≡ values_of schema fs
unfolding values_of
values_of-same [] fs gs h = refl
values_of-same ((name, value) ∷ schema) fs gs h =
    ap (λ o. or_default o value ∷ values_of schema gs) (h name)
    ∙ ap (λ l. or_default (get_field name fs) value ∷ l) (values_of-same schema fs gs h)

known-insert :
    (schema : Schema) (k : String) (v : Tree) (fs : Fields Scalar)
    → known schema (insert k v fs) ≡ has_field k schema && known schema fs
unfolding known insert
known-insert schema k v nil = refl
known-insert schema k v (field j u fs) = ground (arith, known-insert schema k v fs)

known-sorted : (schema : Schema) (fs : Fields Scalar) → known schema (sorted fs) ≡ known schema fs
unfolding known sorted
known-sorted schema nil = refl
known-sorted schema (field k v fs) =
    known-insert schema k (sorted_value v) (sorted fs)
    ∙ ap (λ b. has_field k schema && b) (known-sorted schema fs)

-- The values of a section are no dicts.
abbrev pub leaves : List Scalar → Instance
leaves [] = []
leaves (a ∷ xs) = leaf a ∷ leaves xs

-- Every scalar is written so that it is read.
abbrev pub Any : Scalar → Type 0
Any a = Unit

get_field-leaves :
    (schema : Schema) (xs : List Scalar) (k : String)
    → Option.map sorted_value (get_field k (asdict schema (leaves xs)))
      ≡ get_field k (asdict schema (leaves xs))
unfolding asdict get_field sorted_value
get_field-leaves [] xs k = refl
get_field-leaves (f ∷ schema) [] k = refl
get_field-leaves ((name, value) ∷ schema) (a ∷ xs) k = elim (Bool-cases (name == k)) [
  | inl same ↦ rw same refl
  | inr apart ↦ rw apart (get_field-leaves schema xs k)
]

get_field-new :
    (schema : Schema) (values : Instance) (k : String)
    → has_field k schema ≡ false
    → get_field k (asdict schema values) ≡ none
unfolding asdict get_field
get_field-new [] values k h = refl
get_field-new (f ∷ schema) [] k h = refl
get_field-new ((name, value) ∷ schema) (v ∷ values) k h =
    ground (arith, get_field-new schema values k)

pub asdict-AreDicts :
    (schema : Schema) (xs : List Scalar)
    → distinct schema ≡ true
    → AreDicts Any (asdict schema (leaves xs))
unfolding asdict
asdict-AreDicts [] xs h = tt
asdict-AreDicts (f ∷ schema) [] h = tt
asdict-AreDicts ((name, value) ∷ schema) (a ∷ xs) h =
    let fresh : has_field name schema ≡ false = ground (arith, h) in
    let later : distinct schema ≡ true = ground (arith, h) in
    (get_field-new schema (leaves xs) name fresh, tt, asdict-AreDicts schema xs later)

-- The values of the fields of a class, none of them a dict.
pub record IsSection (schema : Schema) (values : Instance) : Type 0 where
  pub scalars : List Scalar
  pub are_leaves : values ≡ leaves scalars
  pub count : length (leaves scalars) ≡ length schema

pub section-AreDicts :
    (schema : Schema) (values : Instance)
    → distinct schema ≡ true
    → IsSection schema values
    → AreDicts Any (asdict schema values)
section-AreDicts schema values h s = rw s.are_leaves (asdict-AreDicts schema s.scalars h)

construct-leaves :
    (schema : Schema) (xs : List Scalar)
    → distinct schema ≡ true
    → length (leaves xs) ≡ length schema
    → construct schema (node (sorted (asdict schema (leaves xs)))) ≡ some (leaves xs)
unfolding construct
construct-leaves schema xs h e =
    let fs = asdict schema (leaves xs) in
    let same = values_of-same schema fs (sorted fs) (λ k.
      get_field-sorted Any k fs (asdict-AreDicts schema xs h) ∙ get_field-leaves schema xs k) in
    rw (known-sorted schema fs) (
      rw (known-asdict schema (leaves xs))
        (ap (λ l. some l) (same ∙ values_of-asdict schema (leaves xs) e h)))

pub construct-sorted :
    (schema : Schema) (values : Instance)
    → distinct schema ≡ true
    → IsSection schema values
    → construct schema (node (sorted (asdict schema values))) ≡ some values
construct-sorted schema values h s = rw s.are_leaves (construct-leaves schema s.scalars h s.count)

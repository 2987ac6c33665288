-- ===== src/Infrastructure/ConfigManager/Paths.antt =====
-- Reading a tree after a write, by the paths of the two.
use linblock.Prelude.{
  String, string_eq, ◌==◌, ==_iff, ==_refl, ◌≡◌, refl, ap, sym, ◌∙◌, Option-cases, Bool, true,
  false, if◌then◌else◌, Bool-cases, inl, inr, Option, none, some, List, [], ◌∷◌, ◌++◌, arith,
}
use linblock.Infrastructure.ConfigManager.Tree.{
  Value, leaf, node, Fields, nil, field, get_field, put_field, child, get_path, set_path,
}

-- Neither path leads to the other.
abbrev pub are_apart : List String → List String → Bool
are_apart [] q = false
are_apart (a ∷ p) [] = false
are_apart (a ∷ p) (b ∷ q) = let rest = are_apart p q in if a == b then rest else true

module _ {A : Type 0} where
  pub get_field-put_field :
      (k j : String) (v : Value A) (fs : Fields A)
      → get_field j (put_field k v fs) ≡ (if k == j then some v else get_field j fs)
  unfolding get_field put_field
  get_field-put_field k j v nil = refl
  get_field-put_field k j v (field i w fs) =
      ground (arith, get_field-put_field k j v fs, ==_iff i k, ==_iff i j, ==_iff k j)

  abbrev pub follow : List String → Option (Value A) → Option (Value A)
  follow q none = none
  follow q (some v) = get_path q v

  pub get_path-cons :
      (b : String) (q : List String) (fs : Fields A)
      → get_path (b ∷ q) (node fs) ≡ follow q (get_field b fs)
  unfolding get_path
  get_path-cons b q fs = elim (Option-cases (get_field b fs)) [
    | inl missing ↦ ground arith
    | inr (v, held) ↦ ground arith
  ]

  get_path-put_field :
      (a b : String) (q : List String) (v : Value A) (fs : Fields A)
      → get_path (b ∷ q) (node (put_field a v fs))
        ≡ (if a == b then get_path q v else get_path (b ∷ q) (node fs))
  get_path-put_field a b q v fs = rw (get_path-cons b q (put_field a v fs)) (
      rw get_field-put_field (elim (Bool-cases (a == b)) [
        | inl same ↦ rw same refl
        | inr apart ↦ rw apart (sym (get_path-cons b q fs))
      ]))

  -- Below a part, the tree that `set` goes on in holds what was there.
  get_path-child :
      (c : String) (q : List String) (o : Option (Value A))
      → get_path (c ∷ q) (node (child o)) ≡ follow (c ∷ q) o
  unfolding get_path child get_field
  get_path-child c q none = refl
  get_path-child c q (some (leaf a)) = refl
  get_path-child c q (some (node fs)) = refl

  -- A path below the one that was written, or that one, is read in the new value.
  pub get_path-set_below :
      (part : String) (parts rest : List String) (v : Value A) (fs : Fields A)
      → get_path (part ∷ parts ++ rest) (node (set_path (part ∷ parts) v fs)) ≡ get_path rest v
  unfolding set_path
  get_path-set_below part [] rest v fs = rw get_path-put_field (rw ==_refl refl)
  get_path-set_below part (next ∷ parts) rest v fs =
      rw get_path-put_field (rw ==_refl (get_path-set_below next parts rest v _))

  pub get_path-set_apart :
      (p q : List String) (v : Value A) (fs : Fields A)
      → are_apart p q ≡ true
      → get_path q (node (set_path p v fs)) ≡ get_path q (node fs)
  unfolding set_path
  get_path-set_apart [] q v fs h = cc
  get_path-set_apart (a ∷ p) [] v fs h = cc
  get_path-set_apart (a ∷ []) (b ∷ q) v fs h =
      rw get_path-put_field
        (elim (Bool-cases (a == b)) [ inl same ↦ cc (rw same at h) | inr apart ↦ rw apart refl ])
  get_path-set_apart (a ∷ a' ∷ p) (b ∷ []) v fs h =
      rw get_path-put_field
        (elim (Bool-cases (a == b)) [ inl same ↦ cc (rw same at h) | inr apart ↦ rw apart refl ])
  get_path-set_apart (a ∷ a' ∷ p) (b ∷ c ∷ q) v fs h =
      rw get_path-put_field (elim (Bool-cases (a == b)) [
        | inl same ↦
            let below =
              get_path-set_apart (a' ∷ p) (c ∷ q) v (child (get_field a fs)) (rw same at h) in
            rw same (
              below
              ∙ get_path-child c q (get_field a fs)
              ∙ ap (λ k. follow (c ∷ q) (get_field k fs)) ((==_iff a b).0 same)
              ∙ sym (get_path-cons b (c ∷ q) fs))
        | inr apart ↦ rw apart refl
      ])

  -- Above a path that was written there are dicts.
  pub get_path-set_above :
      (part : String) (parts : List String) (next : String) (rest : List String) (v : Value A)
      (fs : Fields A)
      → (gs : Fields A) × (get_path
            (part ∷ parts)
            (node (set_path (part ∷ parts ++ next ∷ rest) v fs))
          ≡ some (node gs))
  unfolding set_path
  get_path-set_above part [] next rest v fs = (
    set_path (next ∷ rest) v (child (get_field part fs)),
    rw get_path-put_field (rw ==_refl (unfold get_path in refl)),
  )
  get_path-set_above part (p ∷ parts) next rest v fs =
      let (gs, e) = get_path-set_above p parts next rest v (child (get_field part fs)) in
      (gs, rw get_path-put_field (rw ==_refl e))

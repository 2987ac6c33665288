-- ===== src/Dict/Assoc.antt =====
-- The entries of a dict, in insertion order.
use linblock.Prelude.{
  ◌+◌, ◌≡◌, refl, sym, inl, inr, Option, none, some, List, [], ◌∷◌, ◌++◌, arith, if◌then◌else◌, Eq,
  ◌==◌, ==_iff, ==_refl, ap, length, is_some, map, All, Bool-cases,
}
use mathlib.Core.Option
use mathlib.Core.Path.{subst}

module _ {ℓ κ} {K : Type ℓ} {V : Type κ} ⦃e : Eq K⦄ where
  unfoldable pub lookup : K → List (K × V) → Option V
  lookup k [] = none
  lookup k ((j, v) ∷ l) = if j == k then some v else lookup k l

  -- A write to a present key keeps its place, and a new key goes to the end.
  unfoldable pub write : K → V → List (K × V) → List (K × V)
  write k v [] = (k, v) ∷ []
  write k v ((j, w) ∷ l) = let rest = write k v l in if j == k then (j, v) ∷ l else (j, w) ∷ rest

  unfoldable pub without : K → List (K × V) → List (K × V)
  without k [] = []
  without k ((j, v) ∷ l) = let rest = without k l in if j == k then rest else (j, v) ∷ rest

  pub lookup-write :
      (k j : K) (v : V) (l : List (K × V))
      → lookup j (write k v l) ≡ (if k == j then some v else lookup j l)
  unfolding lookup write
  lookup-write k j v [] = refl
  lookup-write k j v ((i, w) ∷ l) =
      ground (arith, lookup-write k j v l, ==_iff i k, ==_iff i j, ==_iff k j)

  pub lookup-without :
      (k j : K) (l : List (K × V)) → lookup j (without k l) ≡ (if k == j then none else lookup j l)
  unfolding lookup without
  lookup-without k j [] = ground arith
  lookup-without k j ((i, w) ∷ l) =
      ground (arith, lookup-without k j l, ==_iff i k, ==_iff i j, ==_iff k j)

  -- Each key stands once.
  unfoldable pub AreUnique : List (K × V) → Type κ
  AreUnique [] = Unit
  AreUnique ((j, v) ∷ l) = (lookup j l ≡ none) × AreUnique l

  pub write-AreUnique : (k : K) (v : V) (l : List (K × V)) → AreUnique l → AreUnique (write k v l)
  unfolding lookup write AreUnique
  write-AreUnique k v [] h = (refl, tt)
  write-AreUnique k v ((j, w) ∷ l) h =
      ground (arith, write-AreUnique k v l h.1, lookup-write k j v l, ==_iff j k, ==_iff k j)

  pub without-AreUnique : (k : K) (l : List (K × V)) → AreUnique l → AreUnique (without k l)
  unfolding lookup without AreUnique
  without-AreUnique k [] h = tt
  without-AreUnique k ((j, w) ∷ l) h =
      ground (arith, without-AreUnique k l h.1, lookup-without k j l)

  without_absent : (k : K) (l : List (K × V)) → lookup k l ≡ none → without k l ≡ l
  unfolding lookup without
  without_absent k [] h = refl
  without_absent k ((j, w) ∷ l) h = ground (arith, without_absent k l)

  pub length-write :
      (k : K) (v : V) (l : List (K × V))
      → length (write k v l) ≡ (if is_some (lookup k l) then length l else length l + 1)
  unfolding lookup write
  length-write k v [] = refl
  length-write k v ((j, w) ∷ l) = ground (arith, length-write k v l)

  pub length-without :
      (k : K) (l : List (K × V))
      → AreUnique l
      → length (without k l) + (if is_some (lookup k l) then 1 else 0) ≡ length l
  unfolding lookup without AreUnique
  length-without k [] h = refl
  length-without k ((j, w) ∷ l) h =
      ground (arith, length-without k l h.1, without_absent k l, ==_iff j k)

  pub write_absent :
      (k : K) (v : V) (l : List (K × V)) → lookup k l ≡ none → write k v l ≡ l ++ (k, v) ∷ []
  unfolding lookup write
  write_absent k v [] h = refl
  write_absent k v ((j, w) ∷ l) h = ground (arith, write_absent k v l)

module _ {ℓ κ μ} {K : Type ℓ} {V : Type κ} ⦃e : Eq K⦄ (P : K × V → Type μ) where
  pub lookup-All : (k : K) (v : V) (l : List (K × V)) → All P l → lookup k l ≡ some v → P (k, v)
  unfolding lookup
  lookup-All k v [] h q = absurd (cc)
  lookup-All k v ((j, w) ∷ l) h q = elim (Bool-cases (j == k)) [
    | inl same ↦
        subst (λ i. P (i, v)) ((==_iff j k).0 same) (subst (λ u. P (j, u)) (ground arith) h.0)
    | inr other ↦ lookup-All k v l h.1 (ground arith)
  ]

  pub write-All : (k : K) (v : V) (l : List (K × V)) → All P l → P (k, v) → All P (write k v l)
  unfolding write
  write-All k v [] h p = (p, tt)
  write-All k v ((j, w) ∷ l) h p = elim (Bool-cases (j == k)) [
    | inl same ↦ rw same (subst (λ i. P (i, v)) (sym ((==_iff j k).0 same)) p, h.1)
    | inr other ↦ rw other (h.0, write-All k v l h.1 p)
  ]

  pub without-All : (k : K) (l : List (K × V)) → All P l → All P (without k l)
  unfolding without
  without-All k [] h = tt
  without-All k ((j, w) ∷ l) h = elim (Bool-cases (j == k)) [
    | inl same ↦ rw same (without-All k l h.1)
    | inr other ↦ rw other (h.0, without-All k l h.1)
  ]

pub lookup-map {ℓ κ μ} :
    {K : Type ℓ} {V : Type κ} {W : Type μ} ⦃e : Eq K⦄ (f : V → W) (k : K) (l : List (K × V))
    → lookup k (map (λ kv. (kv.0, f kv.1)) l) ≡ Option.map f (lookup k l)
unfolding lookup
lookup-map f k [] = refl
lookup-map f k ((j, v) ∷ l) = elim (Bool-cases (j == k)) [
  | inl same ↦ rw same refl
  | inr apart ↦ rw apart (lookup-map f k l)
]

pub without-write_absent {ℓ κ} :
    {K : Type ℓ} {V : Type κ} ⦃e : Eq K⦄ (k : K) (v : V) (l : List (K × V))
    → lookup k l ≡ none
    → without k (write k v l) ≡ l
unfolding lookup without write
without-write_absent k v [] h = rw (==_refl k) refl
without-write_absent k v ((j, w) ∷ l) h = elim (Bool-cases (j == k)) [
  | inl same ↦ cc (rw same at h)
  | inr apart ↦
      rw apart (rw apart (ap (λ m. (j, w) ∷ m) (without-write_absent k v l (rw apart at h))))
]

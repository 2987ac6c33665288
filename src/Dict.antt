-- ===== src/Dict.antt =====
-- Python's `dict`: insertion order is kept, since the program iterates over dicts.
pub mod Assoc
use Assoc.{
  lookup, write, without, AreUnique, lookup-write, lookup-without, write-AreUnique,
  without-AreUnique, length-write, length-without, write_absent, lookup-All, write-All, without-All,
  lookup-map, without-write_absent,
}
use mathlib.Core.Option
use linblock.Prelude.{
  ℕ, ◌+◌, ◌≡◌, refl, Bool, Option, none, some, List, [], ◌∷◌, ◌++◌, if◌then◌else◌, All, Eq, ◌==◌,
  length, map, is_some, ap,
}

pub record Dict {ℓ κ} (K : Type ℓ) (V : Type κ) : Type (ℓ ⊔ κ) where
  pub entries : List (K × V)

module _ {ℓ κ} {K : Type ℓ} {V : Type κ} where
  -- {}
  abbrev pub empty : Dict K V
  empty = record { entries = [] }

  -- list(d.items()), list(d.keys()), list(d.values()), len(d)
  abbrev pub items : Dict K V → List (K × V)
  items d = d.entries

  abbrev pub keys : Dict K V → List K
  keys d = map (λ kv. kv.0) d.entries

  abbrev pub values : Dict K V → List V
  values d = map (λ kv. kv.1) d.entries

  abbrev pub size : Dict K V → ℕ
  size d = length d.entries

module _ {ℓ κ μ} {K : Type ℓ} {V : Type κ} {W : Type μ} where
  -- An update of every value in place.
  abbrev pub map_values : (V → W) → Dict K V → Dict K W
  map_values f d = record { entries = map (λ kv. (kv.0, f kv.1)) d.entries }

module _ {ℓ κ} {K : Type ℓ} {V : Type κ} ⦃e : Eq K⦄ where
  -- d.get(k)
  unfoldable pub get : Dict K V → K → Option V
  unfolding lookup
  get d k = lookup k d.entries

  -- k in d
  abbrev pub contains : Dict K V → K → Bool
  contains d k = is_some (get d k)

  -- d[k] = v
  unfoldable pub put : Dict K V → K → V → Dict K V
  unfolding write
  put d k v = record { entries = write k v d.entries }

  -- del d[k], d.pop(k, None)
  unfoldable pub remove : Dict K V → K → Dict K V
  unfolding without
  remove d k = record { entries = without k d.entries }

  -- Each key has one entry, as in every dict.
  unfoldable pub IsDict : Dict K V → Type κ
  IsDict d = AreUnique d.entries

  pub get-put :
      (d : Dict K V) (k j : K) (v : V) → get (put d k v) j ≡ (if k == j then some v else get d j)
  unfolding get put
  get-put d k j v = lookup-write k j v d.entries

  pub get-remove :
      (d : Dict K V) (k j : K) → get (remove d k) j ≡ (if k == j then none else get d j)
  unfolding get remove
  get-remove d k j = lookup-without k j d.entries

  pub get-empty : (k : K) → get (empty {V = V}) k ≡ none
  unfolding get lookup
  get-empty k = refl

  put-IsDict : (d : Dict K V) (k : K) (v : V) → IsDict d → IsDict (put d k v)
  unfolding IsDict put
  put-IsDict d k v h = write-AreUnique k v d.entries h

  remove-IsDict : (d : Dict K V) (k : K) → IsDict d → IsDict (remove d k)
  unfolding IsDict remove
  remove-IsDict d k h = without-AreUnique k d.entries h

  pub size-put :
      (d : Dict K V) (k : K) (v : V)
      → size (put d k v) ≡ (if contains d k then size d else size d + 1)
  unfolding get put
  size-put d k v = length-write k v d.entries

  pub size-remove :
      (d : Dict K V) (k : K)
      → IsDict d
      → size (remove d k) + (if contains d k then 1 else 0) ≡ size d
  unfolding get remove IsDict
  size-remove d k h = length-without k d.entries h

  pub items-put_new :
      (d : Dict K V) (k : K) (v : V) → get d k ≡ none → items (put d k v) ≡ items d ++ (k, v) ∷ []
  unfolding get put
  items-put_new d k v h = write_absent k v d.entries h

  -- The values of the dict, read through its keys.
  abbrev pub AllItems {μ} : (K × V → Type μ) → Dict K V → Type μ
  AllItems P d = All P (items d)

  pub get-AllItems {μ} :
      (P : K × V → Type μ) (d : Dict K V) (k : K) (v : V)
      → AllItems P d
      → get d k ≡ some v
      → P (k, v)
  unfolding get
  get-AllItems P d k v h q = lookup-All P k v d.entries h q

  pub put-AllItems {μ} :
      (P : K × V → Type μ) (d : Dict K V) (k : K) (v : V)
      → AllItems P d
      → P (k, v)
      → AllItems P (put d k v)
  unfolding put
  put-AllItems P d k v h p = write-All P k v d.entries h p

  pub remove-AllItems {μ} :
      (P : K × V → Type μ) (d : Dict K V) (k : K) → AllItems P d → AllItems P (remove d k)
  unfolding remove
  remove-AllItems P d k h = without-All P k d.entries h

pub get-map_values {ℓ κ μ} :
    {K : Type ℓ} {V : Type κ} {W : Type μ} ⦃e : Eq K⦄ (f : V → W) (d : Dict K V) (k : K)
    → get (map_values f d) k ≡ Option.map f (get d k)
unfolding get
get-map_values f d k = lookup-map f k d.entries

pub remove-put_new {ℓ κ} :
    {K : Type ℓ} {V : Type κ} ⦃e : Eq K⦄ (d : Dict K V) (k : K) (v : V)
    → get d k ≡ none
    → remove (put d k v) k ≡ d
unfolding get put remove
remove-put_new d k v h = ap (λ l. record { entries = l }) (without-write_absent k v d.entries h)

empty-IsDict {ℓ κ} : (K : Type ℓ) (V : Type κ) ⦃e : Eq K⦄ → IsDict (empty {K = K} {V = V})
unfolding IsDict AreUnique
empty-IsDict K V = tt

pub ruleset dict_laws = (get-empty, get-put, get-remove)

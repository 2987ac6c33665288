-- ===== src/Prelude/Outcome.antt =====
-- What a call that may raise gives back, and methods: functions from the object's state to an
-- outcome and the new state. What was written before a raise stays written.
use mathlib.Core.Path.{◌≡◌, refl}
use mathlib.Core.Logic.{◌⊎◌, inl, inr}
use mathlib.Core.Bool.{Bool, true, false}

pub data Result {ℓ κ} (E : Type ℓ) (A : Type κ) : Type (ℓ ⊔ κ) where
  ok : A → Result E A
  err : E → Result E A

abbrev pub Method : Type 0 → Type 0 → Type 0 → Type 0
Method E S A = S → Result E A × S

module _ {E S A B : Type 0} where
  abbrev continue : Result E A → (A → Method E S B) → Method E S B
  continue (ok a) f s = f a s
  continue (err e) f s = (err e, s)

  infixl 10 ◌>>=◌ ◌>>◌
  abbrev pub ◌>>=◌ : Method E S A → (A → Method E S B) → Method E S B
  ◌>>=◌ m f s = let (r, s') = m s in continue r f s'

  abbrev pub ◌>>◌ : Method E S A → Method E S B → Method E S B
  m >> k = m >>= λ _. k

  continue-ok :
      (r : Result E A) (f : A → Method E S B) (s : S) (b : B)
      → (continue r f s).0 ≡ ok b
      → (a : A) × (r ≡ ok a) × (continue r f s ≡ f a s)
  continue-ok (ok a) f s b h = (a, refl, refl)
  continue-ok (err e) f s b h = absurd (cc)

  -- A call that returns has got through its first part.
  pub >>=-ok :
      (m : Method E S A) (f : A → Method E S B) (s : S) (b : B)
      → ((m >>= f) s).0 ≡ ok b
      → (a : A) × ((m s).0 ≡ ok a) × ((m >>= f) s ≡ f a (m s).1)
  >>=-ok m f s b h = continue-ok (m s).0 f (m s).1 b h

  continue-cases :
      (r : Result E A) (f : A → Method E S B) (s : S)
      → ((a : A) × (r ≡ ok a) × (continue r f s ≡ f a s))
        ⊎ ((e : E) × (r ≡ err e) × (continue r f s ≡ (err e, s)))
  continue-cases (ok a) f s = inl (a, refl, refl)
  continue-cases (err e) f s = inr (e, refl, refl)

  -- A call goes on from its first part, or ends with what that raised.
  pub >>=-cases :
      (m : Method E S A) (f : A → Method E S B) (s : S)
      → ((a : A) × ((m s).0 ≡ ok a) × ((m >>= f) s ≡ f a (m s).1))
        ⊎ ((e : E) × ((m s).0 ≡ err e) × ((m >>= f) s ≡ (err e, (m s).1)))
  >>=-cases m f s = continue-cases (m s).0 f (m s).1

  -- What the first part leads to and the second keeps holds after both.
  continue-Holds :
      {P : S → Type 0} (r : Result E A) (f : A → Method E S B) (s : S)
      → ((a : A) (t : S) → P t → P (f a t).1)
      → P s
      → P (continue r f s).1
  continue-Holds (ok a) f s keeps h = keeps a s h
  continue-Holds (err e) f s keeps h = h

  pub >>=-Holds :
      {P : S → Type 0} (m : Method E S A) (f : A → Method E S B) (s : S)
      → ((a : A) (t : S) → P t → P (f a t).1)
      → P (m s).1
      → P ((m >>= f) s).1
  >>=-Holds m f s keeps h = continue-Holds (m s).0 f (m s).1 keeps h

module _ {E S : Type 0} where
  -- `if not b: raise e`
  abbrev pub require : Bool → E → Method E S Unit
  require true e s = (ok tt, s)
  require false e s = (err e, s)

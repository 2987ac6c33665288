-- ===== src/Bytes.antt =====
-- Bytes as numbers below 256, and `struct.pack` and `struct.unpack` of unsigned fields.
use mathlib.Core.List.{reverse-append, reverse-reverse}
use native.Mathlib.Nat.{pow-suc}
use linblock.Prelude.{
  ℕ, zero, suc, ◌+◌, ◌*◌, ◌/◌, ◌%◌, ◌^◌, ◌<◌, ◌≡◌, refl, ap, ◌∙◌, Option, none, some, List, [], ◌∷◌,
  ◌++◌, arith, ltb, if◌then◌else◌, length, length-append, take, drop, take-append, drop-append, sym,
  reverse, ℤ, pos, negsuc,
}

-- "<" fields: the lowest byte comes first.
unfoldable pub le_bytes : ℕ → ℕ → List ℕ
le_bytes zero n = []
le_bytes (suc w) n = (n % 256) ∷ le_bytes w (n / 256)

unfoldable pub of_le : List ℕ → ℕ
of_le [] = 0
of_le (b ∷ bs) = b + 256 * of_le bs

-- "!" fields: the highest byte comes first.
unfoldable pub be_bytes : ℕ → ℕ → List ℕ
unfolding le_bytes
be_bytes w n = reverse (le_bytes w n)

unfoldable pub of_be : List ℕ → ℕ
unfolding of_le
of_be bs = of_le (reverse bs)

pub length-le_bytes : (w n : ℕ) → length (le_bytes w n) ≡ w
unfolding le_bytes
length-le_bytes zero n = refl
length-le_bytes (suc w) n = ap suc (length-le_bytes w (n / 256))

pub of_le-le_bytes : (w n : ℕ) → n < 256 ^ w → of_le (le_bytes w n) ≡ n
unfolding le_bytes of_le
of_le-le_bytes zero n h = omega arith
of_le-le_bytes (suc w) n h =
    let fits : n / 256 < 256 ^ w = omega (arith, pow-suc 256 w) in
    omega (arith, of_le-le_bytes w (n / 256) fits)

length-reverse : (bs : List ℕ) → length (reverse bs) ≡ length bs
length-reverse [] = refl
length-reverse (b ∷ bs) =
    ap length (reverse-append (b ∷ []) bs)
    ∙ length-append (reverse bs) (b ∷ [])
    ∙ omega (arith, length-reverse bs)

pub length-be_bytes : (w n : ℕ) → length (be_bytes w n) ≡ w
unfolding be_bytes
length-be_bytes w n = length-reverse (le_bytes w n) ∙ length-le_bytes w n

pub of_be-be_bytes : (w n : ℕ) → n < 256 ^ w → of_be (be_bytes w n) ≡ n
unfolding be_bytes of_be
of_be-be_bytes w n h = ap of_le (reverse-reverse (le_bytes w n)) ∙ of_le-le_bytes w n h

-- Of a Python integer: `struct.error` (none) if it is negative or too large for the field.
pack_le : ℕ → ℤ → Option (List ℕ)
pack_le w (pos n) = if ltb n (256 ^ w) then some (le_bytes w n) else none
pack_le w (negsuc n) = none

unfoldable pub pack_be : ℕ → ℤ → Option (List ℕ)
pack_be w (pos n) = if ltb n (256 ^ w) then some (be_bytes w n) else none
pack_be w (negsuc n) = none

-- A field in front is read, and what is behind it is reached by skipping it.
pub field_here :
    (w n : ℕ) → n < 256 ^ w → (rest : List ℕ) → of_le (take w (le_bytes w n ++ rest)) ≡ n
field_here w n h rest =
    ap of_le (
      ap (λ k. take k (le_bytes w n ++ rest)) (sym (length-le_bytes w n))
      ∙ take-append (le_bytes w n) rest)
    ∙ of_le-le_bytes w n h

pub field_behind : (w n : ℕ) (rest : List ℕ) → drop w (le_bytes w n ++ rest) ≡ rest
field_behind w n rest =
    ap (λ k. drop k (le_bytes w n ++ rest)) (sym (length-le_bytes w n))
    ∙ drop-append (le_bytes w n) rest

-- bytes(n)
abbrev pub zeros : ℕ → List ℕ
zeros zero = []
zeros (suc n) = 0 ∷ zeros n

pub length-zeros : (n : ℕ) → length (zeros n) ≡ n
length-zeros zero = refl
length-zeros (suc n) = ap suc (length-zeros n)

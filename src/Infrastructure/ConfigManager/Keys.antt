-- ===== src/Infrastructure/ConfigManager/Keys.antt =====
-- `key.split('.')`, and what joins the parts again.
use Prim.Native.Char.{Char, code}
use Prim.Native.String.{◌++◌}
use Prim.Native.String.append
use text.Mathlib.TextEquality.{Char-path}
use linblock.Prelude.{
  String, nat_beq, nat_beq_iff, ◌≡◌, ◌≢◌, refl, sym, ap, ◌∙◌, Bool-cases, inl, inr, List, [], ◌∷◌,
  if◌then◌else◌,
}

abbrev begin_with : Char → List String → List String
begin_with c [] = String.◌∷◌ c "" ∷ []
begin_with c (part ∷ parts) = String.◌∷◌ c part ∷ parts

-- The parts between the dots; an empty key has one part, the empty one.
unfoldable pub split : String → List String
split String.[] = "" ∷ []
split (String.◌∷◌ c s) =
    let parts = split s in if nat_beq (code c) b'.' then "" ∷ parts else begin_with c parts

abbrev pub join : List String → String
join [] = ""
join (part ∷ []) = part
join (part ∷ next ∷ parts) = part ++ ("." ++ join (next ∷ parts))

begin_with-ne-nil : (c : Char) (parts : List String) → begin_with c parts ≢ []
begin_with-ne-nil c [] h = cc
begin_with-ne-nil c (part ∷ parts) h = cc

pub split-ne-nil : (s : String) → split s ≢ []
unfolding split
split-ne-nil String.[] h = cc
split-ne-nil (String.◌∷◌ c s) h = elim (Bool-cases (nat_beq (code c) b'.')) [
  | inl dot ↦ cc (rw dot at h)
  | inr other ↦ begin_with-ne-nil c (split s) (rw other at h)
]

nil-append : (t : String) → "" ++ t ≡ t
nil-append t = λ i. append.nil t i

cons-append : (c : Char) (s t : String) → String.◌∷◌ c s ++ t ≡ String.◌∷◌ c (s ++ t)
cons-append c s t = λ i. append.cons c s t i

dot-append : (t : String) → "." ++ t ≡ String.◌∷◌ "." t
dot-append t = cons-append "." "" t ∙ ap (String.◌∷◌ ".") (nil-append t)

dot-join : (parts : List String) → parts ≢ [] → join ("" ∷ parts) ≡ String.◌∷◌ "." (join parts)
dot-join [] h = absurd (h refl)
dot-join (part ∷ parts) h =
    nil-append ("." ++ join (part ∷ parts)) ∙ dot-append (join (part ∷ parts))

join-begin_with :
    (c : Char) (parts : List String) → join (begin_with c parts) ≡ String.◌∷◌ c (join parts)
join-begin_with c [] = refl
join-begin_with c (part ∷ []) = refl
join-begin_with c (part ∷ next ∷ parts) = cons-append c part ("." ++ join (next ∷ parts))

-- No two keys have the same parts.
join-split : (s : String) → join (split s) ≡ s
unfolding split
join-split String.[] = refl
join-split (String.◌∷◌ c s) = elim (Bool-cases (nat_beq (code c) b'.')) [
  | inl dot ↦
      let e : c ≡ "." = Char-path c "." ((nat_beq_iff (code c) b'.').0 dot) in
      rw dot (
        dot-join (split s) (split-ne-nil s)
        ∙ ap (String.◌∷◌ ".") (join-split s)
        ∙ ap (λ d. String.◌∷◌ d s) (sym e))
  | inr other ↦ rw other (join-begin_with c (split s) ∙ ap (String.◌∷◌ c) (join-split s))
]

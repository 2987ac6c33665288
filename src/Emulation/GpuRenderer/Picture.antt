-- ===== src/Emulation/GpuRenderer/Picture.antt =====
-- The gradient that `_generate_stub_frame` of internal/renderer_worker.py and `get_frame` of
-- `StubGPURenderer` in interface.py draw where there is no native library: four bytes for each pixel,
-- row by row.
use linblock.Prelude.{
  ℕ, zero, suc, ◌+◌, ◌*◌, ◌/◌, ◌%◌, ◌≤◌, ◌<◌, ◌≡◌, refl, ap, sym, ◌∙◌, List, [], ◌∷◌, ◌++◌, arith,
  length, length-append, take, drop, take-append, drop-append, drop-drop, All, All-append,
}

-- f(x) + f(x + 1) + ..., n of them.
unfoldable pub joined : (ℕ → List ℕ) → ℕ → ℕ → List ℕ
joined f x zero = []
joined f x (suc n) = f x ++ joined f (x + 1) n

-- Blue, green, red, alpha. With an offset of 0 the mask changes nothing.
abbrev pub pixel : ℕ → ℕ → ℕ → ℕ → ℕ → List ℕ
pixel width height offset y x =
    ((x * 255 / width + offset) % 256) ∷ ((y * 255 / height + offset) % 256) ∷ 128 ∷ 255 ∷ []

unfoldable pub gradient : ℕ → ℕ → ℕ → List ℕ
unfolding joined
gradient width height offset = joined (λ y. joined (pixel width height offset y) 0 width) 0 height

module _ (f : ℕ → List ℕ) (size : ℕ) (sized : (x : ℕ) → length (f x) ≡ size) where
  length-joined : (x n : ℕ) → length (joined f x n) ≡ n * size
  unfolding joined
  length-joined x zero = omega arith
  length-joined x (suc n) =
      length-append (f x) (joined f (x + 1) n) ∙ grind (arith, sized x, length-joined (x + 1) n)

  -- The i-th of them.
  slice-joined : (i x n : ℕ) → i < n → take size (drop (i * size) (joined f x n)) ≡ f (x + i)
  unfolding joined
  slice-joined i x zero h = absurd (omega arith)
  slice-joined zero x (suc n) h =
      let rest = joined f (x + 1) n in
      let start : 0 * size ≡ 0 = omega arith in
      let same : x ≡ x + 0 = omega arith in
      ap (λ k. take size (drop k (f x ++ rest))) start
      ∙ ap (λ k. take k (f x ++ rest)) (sym (sized x))
      ∙ take-append (f x) rest
      ∙ ap f same
  slice-joined (suc i) x (suc n) h =
      let rest = joined f (x + 1) n in
      let start : suc i * size ≡ size + i * size = grind arith in
      let same : x + 1 + i ≡ x + suc i = omega arith in
      ap (λ k. take size (drop k (f x ++ rest))) start
      ∙ ap (take size) (sym (drop-drop (i * size) size (f x ++ rest)))
      ∙ ap (λ k. take size (drop (i * size) (drop k (f x ++ rest)))) (sym (sized x))
      ∙ ap (λ l. take size (drop (i * size) l)) (drop-append (f x) rest)
      ∙ slice-joined i (x + 1) n (omega arith)
      ∙ ap f same

All-joined :
    (f : ℕ → List ℕ) (P : ℕ → Type 0) → ((x : ℕ) → All P (f x)) → (x n : ℕ) → All P (joined f x n)
unfolding joined
All-joined f P each x zero = tt
All-joined f P each x (suc n) =
    All-append P (f x) (joined f (x + 1) n) (each x) (All-joined f P each (x + 1) n)

take-take : (m n : ℕ) (l : List ℕ) → m ≤ n → take m (take n l) ≡ take m l
take-take zero n l h = refl
take-take (suc m) zero l h = absurd (omega arith)
take-take (suc m) (suc n) [] h = refl
take-take (suc m) (suc n) (b ∷ l) h = ap (λ r. b ∷ r) (take-take m n l (omega arith))

slice-take : (m k n : ℕ) (l : List ℕ) → k + m ≤ n → take m (drop k (take n l)) ≡ take m (drop k l)
slice-take m zero n l h = take-take m n l (omega arith)
slice-take m (suc k) zero l h = absurd (omega arith)
slice-take m (suc k) (suc n) [] h = refl
slice-take m (suc k) (suc n) (b ∷ l) h = slice-take m k n l (omega arith)

zero-plus : (n : ℕ) → 0 + n ≡ n
zero-plus n = omega arith

module _ (width height offset : ℕ) where
  length-row : (y : ℕ) → length (joined (pixel width height offset y) 0 width) ≡ width * 4
  length-row y = length-joined (pixel width height offset y) 4 (λ x. refl) 0 width

  -- The picture has four bytes for each pixel, and each is a byte.
  pub gradient_bounds :
      (length (gradient width height offset) ≡ width * height * 4)
      × All (λ b. b < 256) (gradient width height offset)
  unfolding gradient
  gradient_bounds = (
    length-joined (λ y. joined (pixel width height offset y) 0 width) (width * 4) length-row 0
          height
        ∙ grind arith,
    All-joined (λ y. joined (pixel width height offset y) 0 width) (λ b. b < 256)
        (λ y. All-joined (pixel width height offset y) (λ b. b < 256) (λ x. omega arith) 0 width) 0
        height,
  )

  -- The four bytes from (y * w + x) * 4 on are those of the pixel at column x of row y.
  pub pixel-gradient :
      (x y : ℕ)
      → x < width
      → y < height
      → take 4 (drop ((y * width + x) * 4) (gradient width height offset))
        ≡ pixel width height offset y x
  unfolding gradient
  pixel-gradient x y hx hy =
      let picture = gradient width height offset in
      let row = joined (pixel width height offset y) 0 width in
      let start : (y * width + x) * 4 ≡ y * (width * 4) + x * 4 = grind arith in
      ap (λ k. take 4 (drop k picture)) start
      ∙ ap (take 4) (sym (drop-drop (x * 4) (y * (width * 4)) picture))
      ∙ sym (slice-take 4 (x * 4) (width * 4) (drop (y * (width * 4)) picture) (omega arith))
      ∙ ap (λ l. take 4 (drop (x * 4) l))
          (slice-joined (λ y. joined (pixel width height offset y) 0 width) (width * 4) length-row y
              0 height hy
            ∙ ap (λ y. joined (pixel width height offset y) 0 width) (zero-plus y))
      ∙ slice-joined (pixel width height offset y) 4 (λ x. refl) x 0 width hx
      ∙ ap (pixel width height offset y) (zero-plus x)

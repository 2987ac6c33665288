-- ===== src/Emulation/GpuRenderer/Region.antt =====
-- Regions of shared memory, as the program's processes see them under /dev/shm: a name leads to at
-- most one region, and a region that has lost its name stays with those who have mapped it. A file
-- system has one name for each display, so the store keeps one name.
use linblock.Prelude.{
  ℕ, ◌+◌, ◌≤◌, ◌≡◌, ap, sym, ◌∙◌, Option, none, some, List, ◌++◌, arith, length, length-append,
  take, drop, length-take, length-drop, take-append, drop-append, drop-drop, nat_beq, if◌then◌else◌,
}
use linblock.Bytes.{zeros}

pub record Shm : Type 0 where
  pub name : Option ℕ
  pub contents : ℕ → List ℕ
  pub next : ℕ

-- The contents of a region replaced.
abbrev pub with_contents : ℕ → List ℕ → Shm → Shm
with_contents region bytes s = record s {
  contents = λ r. if nat_beq r region then bytes else s.contents r;
}

-- unlink
abbrev pub unlink : Shm → Shm
unlink s = record s { name = none }

-- A new region of that size under the name; what had the name before has lost it.
abbrev pub create_region : ℕ → Shm → ℕ × Shm
create_region size s =
    (s.next, with_contents s.next (zeros size) (record s { name = some s.next; next = s.next + 1 }))

-- region[offset:offset + len(bytes)] = bytes, where the bytes fit the region.
unfoldable pub splice : ℕ → List ℕ → List ℕ → List ℕ
splice offset bytes region = take offset region ++ (bytes ++ drop (offset + length bytes) region)

-- region[:len(bytes)] = bytes
abbrev pub write_front : List ℕ → List ℕ → List ℕ
write_front bytes region = bytes ++ drop (length bytes) region

-- region[offset:offset + n]
abbrev pub slice : ℕ → ℕ → List ℕ → List ℕ
slice offset n region = take n (drop offset region)

pub length-splice :
    (offset : ℕ) (bytes region : List ℕ)
    → offset + length bytes ≤ length region
    → length (splice offset bytes region) ≡ length region
unfolding splice
length-splice offset bytes region h = omega (
  arith,
  length-append (take offset region) (bytes ++ drop (offset + length bytes) region),
  length-append bytes (drop (offset + length bytes) region),
  length-take offset region,
  length-drop (offset + length bytes) region,
)

-- A header that is written in front and pixels that are written behind it.
pub splice_frame :
    (head pixels region : List ℕ)
    → splice (length head) pixels (write_front head region)
      ≡ head ++ (pixels ++ drop (length head + length pixels) region)
unfolding splice
splice_frame head pixels region =
    let rest = drop (length head) region in
    ap (λ l. l ++ (pixels ++ drop (length head + length pixels) (head ++ rest)))
      (take-append head rest)
    ∙ ap (λ l. head ++ (pixels ++ l))
        (sym (drop-drop (length pixels) (length head) (head ++ rest))
          ∙ ap (drop (length pixels)) (drop-append head rest)
          ∙ drop-drop (length pixels) (length head) region)

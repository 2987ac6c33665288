-- ===== src/Emulation/GpuRenderer/Worker/Sizes.antt =====
-- The worker's map has the size of its frames.
use mathlib.Core.Path.{subst}
use linblock.Prelude.{
  ℕ, ◌+◌, ◌≤◌, ◌<◌, ◌≡◌, refl, ap, sym, ◌∙◌, false, ◌&&◌, not, Option, none, some, List, arith,
  length, length-append, drop, length-drop, ltb, nat_beq, nat_beq_iff, is_some, Bool-cases, inl,
  inr,
}
use linblock.Bytes.{zeros, length-zeros}
use linblock.Emulation.GpuRenderer.Header.{header_size, frame_header, pack, length-pack}
use linblock.Emulation.GpuRenderer.Region.{
  Shm, with_contents, unlink, create_region, splice, write_front, length-splice,
}
use linblock.Emulation.GpuRenderer.Worker.{
  Setup, Setup.open_fails, Setup.size_fails, Setup.map_fails, Setup.granted, Host, Mapping,
  Mapping.absent, Mapping.mapped, Mapping.closed, Descriptor.opened, Worker, memory_size,
  write_header, create_memory, setup_shared_memory, put_frame, pixel_data, write_packed,
  write_mapping, write_frame, generate_stub_frame,
}
use linblock.Emulation.GpuRenderer.Worker.Handlers.{write_stub_frame}

abbrev pub Sized : Mapping → ℕ → Shm → Type 0
Sized absent size s = Unit
Sized (mapped region) size s = (region < s.next) × (length (s.contents region) ≡ size)
Sized closed size s = Unit

-- An open map is of a region that holds the header and a frame of the current size.
abbrev pub IsSized : Worker → Type 0
IsSized w = Sized w.mapping (memory_size w) w.shm

at_mapping : (m : Mapping) (w : Worker) → w.mapping ≡ m → IsSized w → Sized m (memory_size w) w.shm
at_mapping m w e h = subst (λ n. Sized n (memory_size w) w.shm) e h

pub of_mapping :
    (m : Mapping) (w : Worker) → w.mapping ≡ m → Sized m (memory_size w) w.shm → IsSized w
of_mapping m w e h = subst (λ n. Sized n (memory_size w) w.shm) (sym e) h

-- The contents of a region, whether it or another was changed.
contents_same : (s : Shm) (r : ℕ) (bytes : List ℕ) → (with_contents r bytes s).contents r ≡ bytes
contents_same s r bytes = rw ((nat_beq_iff r r).1 refl) refl

contents_other :
    (s : Shm) (r r' : ℕ) (bytes : List ℕ)
    → r < r'
    → (with_contents r' bytes s).contents r ≡ s.contents r
contents_other s r r' bytes h = let e : nat_beq r r' ≡ false = ground arith in rw e refl

Sized-with_contents :
    (r size : ℕ) (bytes : List ℕ) (s : Shm)
    → length bytes ≡ length (s.contents r)
    → Sized (mapped r) size s
    → Sized (mapped r) size (with_contents r bytes s)
Sized-with_contents r size bytes s e h = (h.0, ap length (contents_same s r bytes) ∙ e ∙ h.1)

-- A new region leaves the mapped one alone.
Sized-create_region :
    (m : Mapping) (size n : ℕ) (s : Shm)
    → Sized m size s
    → Sized m size (create_region n (unlink s)).1
Sized-create_region absent size n s h = tt
Sized-create_region (mapped r) size n s h = (
  omega arith,
  ap length
        (contents_other (record s { name = some s.next; next = s.next + 1 }) r s.next (zeros n) h.0)
      ∙ h.1,
)
Sized-create_region closed size n s h = tt

Sized-unlink : (m : Mapping) (size : ℕ) (s : Shm) → Sized m size s → Sized m size (unlink s)
Sized-unlink absent size s h = tt
Sized-unlink (mapped r) size s h = h
Sized-unlink closed size s h = tt

length-write_front :
    (header bytes : List ℕ)
    → length header ≤ length bytes
    → length (write_front header bytes) ≡ length bytes
length-write_front header bytes h =
    omega
      (arith, length-append header (drop (length header) bytes), length-drop (length header) bytes)

header_in_front :
    (o : Option (List ℕ)) (r : ℕ) (w : Worker)
    → ((header : List ℕ) → o ≡ some header → length header ≡ header_size)
    → w.mapping ≡ mapped r
    → header_size ≤ length (w.shm.contents r)
    → IsSized w
    → IsSized (write_header o r w).1
unfolding write_header
header_in_front none r w short e fits h = h
header_in_front (some header) r w short e fits h =
    of_mapping (mapped r) (write_header (some header) r w).1 e (
      Sized-with_contents r (memory_size w) (write_front header (w.shm.contents r)) w.shm
        (length-write_front header (w.shm.contents r) (omega (arith, short header refl)))
        (at_mapping (mapped r) w e h))

create_memory-IsSized : (setup : Setup) (w : Worker) → IsSized w → IsSized (create_memory setup w).1
unfolding create_memory
create_memory-IsSized open_fails w h = Sized-unlink w.mapping (memory_size w) w.shm h
create_memory-IsSized size_fails w h = Sized-create_region w.mapping (memory_size w) 0 w.shm h
create_memory-IsSized map_fails w h =
    Sized-create_region w.mapping (memory_size w) (memory_size w) w.shm h
create_memory-IsSized granted w h =
    let (r, s) = create_region (memory_size w) (unlink w.shm) in
    let w' : Worker = record w { descriptor = opened; mapping = mapped r; shm = s } in
    let sized : length (s.contents r) ≡ memory_size w =
      ap length (
        contents_same (record (unlink w.shm) { name = some r; next = r + 1 }) r
          (zeros (memory_size w)))
      ∙ length-zeros (memory_size w) in
    header_in_front (pack (frame_header w.width w.height 0 0)) r w'
      (length-pack (frame_header w.width w.height 0 0)) refl (omega (arith, sized))
      (omega arith, sized)

pub setup_shared_memory-IsSized :
    (host : Host) (w : Worker) → IsSized w → IsSized (setup_shared_memory host w).1
unfolding setup_shared_memory
setup_shared_memory-IsSized host w h = elim (Bool-cases (is_some w.shm.name && not host.unlinks)) [
  | inl kept ↦ simp kept h
  | inr gone ↦ simp gone (create_memory-IsSized host.setup w h)
]

put_frame-IsSized :
    (header pixels : List ℕ) (r : ℕ) (w : Worker)
    → length header ≡ header_size
    → w.mapping ≡ mapped r
    → IsSized w
    → IsSized (put_frame header pixels r w).1
put_frame-IsSized header pixels r w short e h =
    let bytes = w.shm.contents r in
    let sized = at_mapping (mapped r) w e h in
    elim (Bool-cases (ltb (length bytes) header_size)) [
      | inl none' ↦ simp none' h
      | inr front ↦
          let headed = length-write_front header bytes (ground arith) in
          elim (Bool-cases (ltb (length bytes) (header_size + length pixels))) [
            | inl part ↦
                simp (front, part)
                  (of_mapping (mapped r)
                    (record w { shm = with_contents r (write_front header bytes) w.shm }) e
                    (Sized-with_contents r (memory_size w) (write_front header bytes) w.shm headed
                      sized))
            | inr whole ↦
                let written = splice header_size pixels (write_front header bytes) in
                simp (front, whole)
                  (of_mapping (mapped r) (record w { shm = with_contents r written w.shm }) e
                    (Sized-with_contents r (memory_size w) written w.shm
                      (length-splice header_size pixels (write_front header bytes)
                          (ground (arith, headed))
                        ∙ headed)
                      sized))
          ]
    ]

write_packed-IsSized :
    (o : Option (List ℕ)) (pixels : List ℕ) (r : ℕ) (w : Worker)
    → ((header : List ℕ) → o ≡ some header → length header ≡ header_size)
    → w.mapping ≡ mapped r
    → IsSized w
    → IsSized (write_packed o pixels r w).1
unfolding write_packed
write_packed-IsSized none pixels r w short e h = h
write_packed-IsSized (some header) pixels r w short e h =
    put_frame-IsSized header (pixel_data pixels w) r w (short header refl) e h

write_mapping-IsSized :
    (m : Mapping) (host : Host) (pixels : List ℕ) (w : Worker)
    → w.mapping ≡ m
    → IsSized w
    → IsSized (write_mapping m host pixels w).1
unfolding write_mapping
write_mapping-IsSized absent host pixels w e h = h
write_mapping-IsSized closed host pixels w e h = h
write_mapping-IsSized (mapped r) host pixels w e h =
    let header = frame_header w.width w.height (w.frame_number + 1) host.now in
    write_packed-IsSized (pack header) pixels r (record w { frame_number = w.frame_number + 1 })
      (length-pack header) e h

pub write_stub_frame-IsSized :
    (host : Host) (w : Worker) → IsSized w → IsSized (write_stub_frame host w).1
unfolding write_stub_frame write_frame
write_stub_frame-IsSized host w h =
    write_mapping-IsSized w.mapping host (generate_stub_frame w) w refl h

-- ===== src/Emulation/GpuRenderer/ShmDisplay/Transfer.antt =====
-- A frame that one process writes is read by another that has mapped the region.
use linblock.Prelude.{
  ℕ, Bool, Option, ltb, false, length-append, ◌+◌, ◌*◌, ◌≤◌, ◌≡◌, refl, ap, sym, ◌∙◌, true, none,
  some, List, ◌++◌, arith, length, take, drop, take-append, drop-append, length-take, nat_beq,
  nat_beq_iff, leb, if◌then◌else◌, ok,
}
use linblock.Emulation.GpuRenderer.Header.{
  ShmHeader, header_size, frame_header, Fits, encode, pack-Fits, unpack, unpack-encode,
  length-encode,
}
use linblock.Emulation.GpuRenderer.Region.{
  Shm, with_contents, splice, write_front, splice_frame, slice,
}
use linblock.Emulation.GpuRenderer.ShmDisplay.{
  ShmDisplay, Frame, with_frame, put_frame, returned, read_region, write_packed, write_mapped,
  write_frame, read_mapped, read_with, read_frame,
}

module _ (h : ShmHeader) (pixels region : List ℕ) (n : ℕ) where
  -- What is then in the region.
  abbrev pub written : List ℕ
  written = with_frame (encode h) n pixels region

  written_lem :
      n ≤ length pixels
      → written
        ≡ encode h ++ (take n pixels ++ drop (length (encode h) + length (take n pixels)) region)
  written_lem enough =
      let e : leb n (length pixels) ≡ true = ground arith in
      rw e (
        ap (λ k. splice k (take n pixels) (write_front (encode h) region)) (sym (length-encode h))
        ∙ splice_frame (encode h) (take n pixels) region)

  pub unpack-written : Fits h → n ≤ length pixels → unpack written ≡ h
  unpack-written f enough = ap unpack (written_lem enough) ∙ unpack-encode h _ f

  pub slice-written : n ≤ length pixels → slice header_size n written ≡ take n pixels
  slice-written enough =
      let rest = drop (length (encode h) + length (take n pixels)) region in
      ap (slice header_size n) (written_lem enough)
      ∙ ap (λ k. take n (drop k (encode h ++ (take n pixels ++ rest)))) (sym (length-encode h))
      ∙ ap (take n) (drop-append (encode h) (take n pixels ++ rest))
      ∙ ap (λ k. take k (take n pixels ++ rest)) (sym (length-take n pixels enough))
      ∙ take-append (take n pixels) rest

pub written_long :
    (h : ShmHeader) (pixels region : List ℕ) (n : ℕ)
    → n ≤ length pixels
    → header_size ≤ length (written h pixels region n)
written_long h pixels region n enough =
    let tail = take n pixels ++ drop (length (encode h) + length (take n pixels)) region in
    omega (
      arith,
      ap length (written_lem h pixels region n enough),
      length-append (encode h) tail,
      length-encode h,
    )

abbrev pub frame : ℕ → ℕ → ℕ → ℕ → List ℕ → Frame
frame width height frame_number timestamp_ns pixels = record {
  width = width;
  height = height;
  frame_number = frame_number;
  timestamp_ns = timestamp_ns;
  pixels = pixels;
}

put_frame-ok :
    (d : ShmDisplay) (s : Shm) (region : ℕ) (pixels header : List ℕ)
    → d.writable ≡ true
    → header_size + d.width * d.height * 4 ≤ length (s.contents region)
    → put_frame header (d.width * d.height * 4) pixels region (s.contents region) d s ≡ (
      ok tt,
      (
        d,
        with_contents region
            (with_frame header (d.width * d.height * 4) pixels (s.contents region))
            s,
      ),
    )
unfolding put_frame
put_frame-ok d s region pixels header writable room = ground arith

write_frame-ok :
    (d : ShmDisplay) (s : Shm) (region : ℕ) (pixels : List ℕ) (number timestamp : ℕ)
    → d.region ≡ some region
    → d.writable ≡ true
    → header_size + d.width * d.height * 4 ≤ length (s.contents region)
    → Fits (frame_header d.width d.height number timestamp)
    → write_frame pixels number timestamp d s ≡ (
      ok tt,
      (
        d,
        with_contents region
            (written
              (frame_header d.width d.height number timestamp)
              pixels
              (s.contents region)
              (d.width * d.height * 4))
            s,
      ),
    )
unfolding write_frame write_mapped write_packed
write_frame-ok d s region pixels number timestamp mapped writable room f =
    ap (λ r. write_mapped r pixels number timestamp d s) mapped
    ∙ ap (λ o. write_packed o region pixels d s)
        (pack-Fits (frame_header d.width d.height number timestamp) f)
    ∙ put_frame-ok d s region pixels (encode (frame_header d.width d.height number timestamp))
        writable room

returned-if :
    (b : Bool) (p q : Option Frame × ShmDisplay)
    → returned (if b then p else q) ≡ (if b then returned p else returned q)
returned-if true p q = refl
returned-if false p q = refl

read_region-long :
    (bytes : List ℕ) (c : ShmDisplay)
    → header_size ≤ length bytes
    → read_region bytes c ≡ returned (read_with (unpack bytes) bytes c)
unfolding read_region
read_region-long bytes c room =
    let e : ltb (length bytes) header_size ≡ false = ground arith in rw e refl

pub read_frame-mapped :
    (c : ShmDisplay) (s : Shm) (region : ℕ) (bytes : List ℕ)
    → c.region ≡ some region
    → header_size ≤ length bytes
    → read_frame c (with_contents region bytes s) ≡ returned (read_with (unpack bytes) bytes c)
unfolding read_frame read_mapped read_region
read_frame-mapped c s region bytes shared room =
    ap (λ r. read_mapped r c (with_contents region bytes s)) shared
    ∙ ap (λ l. read_region l c) (rw ((nat_beq_iff region region).1 refl) refl)
    ∙ read_region-long bytes c room

-- A display that has mapped the region reads the frame that another has just written there, if that
-- one may write its map, the header and the frame have room in the region, the header fits its fields and there are
-- enough pixels, as many of them as the frame has; unless it has read a frame of that number last,
-- when it reads nothing. It then keeps the number.
pub read_frame-write_frame :
    (d c : ShmDisplay) (s : Shm) (region : ℕ) (pixels : List ℕ) (number timestamp : ℕ)
    → d.region ≡ some region
    → c.region ≡ some region
    → d.writable ≡ true
    → header_size + d.width * d.height * 4 ≤ length (s.contents region)
    → Fits (frame_header d.width d.height number timestamp)
    → d.width * d.height * 4 ≤ length pixels
    → ((write_frame pixels number timestamp d s).0 ≡ ok tt)
      × (read_frame c (write_frame pixels number timestamp d s).1.1 ≡ (
          if nat_beq number c.last_frame_number then (ok none, c) else (
            ok (
                some
                  (frame d.width d.height number timestamp (take (d.width * d.height * 4) pixels))),
            record c { last_frame_number = number },
          )))
unfolding read_with
read_frame-write_frame d c s region pixels number timestamp mapped shared writable room f enough =
    let h = frame_header d.width d.height number timestamp in
    let n = d.width * d.height * 4 in
    let bytes = written h pixels (s.contents region) n in
    let long : header_size ≤ length bytes = written_long h pixels (s.contents region) n enough in
    let e = write_frame-ok d s region pixels number timestamp mapped writable room f in
    let header = unpack-written h pixels (s.contents region) n f enough in
    let behind = slice-written h pixels (s.contents region) n enough in
    (
      ap (λ r. r.0) e,
      ap (λ r. read_frame c r.1.1) e
          ∙ read_frame-mapped c s region bytes shared long
          ∙ ap (λ k. returned (read_with k bytes c)) header
          ∙ returned-if (nat_beq number c.last_frame_number) (none, c)
              (
                some (frame d.width d.height number timestamp (slice header_size n bytes)),
                record c { last_frame_number = number },
              )
          ∙ ap
              (λ l. if nat_beq number c.last_frame_number then (ok none, c) else (
                ok (some (frame d.width d.height number timestamp l)),
                record c { last_frame_number = number },
              ))
              behind,
    )

-- ===== src/Emulation/GpuRenderer/Header.antt =====
-- The header of a shared frame, `"<IIIIIIQQ"`: magic, version, width, height, stride and format in
-- four bytes each, frame number and timestamp in eight each.
use linblock.Prelude.{
  ℕ, ◌*◌, ◌^◌, ◌<◌, ◌≡◌, refl, ap, sym, ◌∙◌, Bool, ◌&&◌, Option, none, some, List, ◌++◌, length,
  length-append, take, drop, append_assoc, ltb, lt→ltb, if◌then◌else◌, Bool-cases, inl, inr,
}
use linblock.Bytes.{le_bytes, of_le, length-le_bytes, field_here, field_behind}

pub record ShmHeader : Type 0 where
  pub magic : ℕ
  pub version : ℕ
  pub width : ℕ
  pub height : ℕ
  pub stride : ℕ
  pub format : ℕ
  pub frame_number : ℕ
  pub timestamp_ns : ℕ

-- "LBKD"
abbrev pub shm_magic : ℕ
shm_magic = 0x4c42_4b44

abbrev pub header_size : ℕ
header_size = 40

-- What both producers write in front of a frame.
abbrev pub frame_header : ℕ → ℕ → ℕ → ℕ → ShmHeader
frame_header width height frame_number timestamp_ns = record {
  magic = shm_magic;
  version = 1;
  width = width;
  height = height;
  stride = width * 4;
  format = 1;
  frame_number = frame_number;
  timestamp_ns = timestamp_ns;
}

-- The fields fit.
pub record Fits (h : ShmHeader) : Type 0 where
  pub magic : h.magic < 256 ^ 4
  pub version : h.version < 256 ^ 4
  pub width : h.width < 256 ^ 4
  pub height : h.height < 256 ^ 4
  pub stride : h.stride < 256 ^ 4
  pub format : h.format < 256 ^ 4
  pub frame_number : h.frame_number < 256 ^ 8
  pub timestamp_ns : h.timestamp_ns < 256 ^ 8

abbrev pub fits : ShmHeader → Bool
fits h =
    ltb h.magic (256 ^ 4)
    && (ltb h.version (256 ^ 4)
        && (ltb h.width (256 ^ 4)
            && (ltb h.height (256 ^ 4)
                && (ltb h.stride (256 ^ 4)
                    && (ltb h.format (256 ^ 4)
                        && (ltb h.frame_number (256 ^ 8) && ltb h.timestamp_ns (256 ^ 8)))))))

abbrev pub encode : ShmHeader → List ℕ
encode h =
    le_bytes 4 h.magic
    ++ (le_bytes 4 h.version
        ++ (le_bytes 4 h.width
            ++ (le_bytes 4 h.height
                ++ (le_bytes 4 h.stride
                    ++ (le_bytes 4 h.format
                        ++ (le_bytes 8 h.frame_number ++ le_bytes 8 h.timestamp_ns))))))

-- struct.pack: none is `struct.error`.
unfoldable pub pack : ShmHeader → Option (List ℕ)
pack h = if fits h then some (encode h) else none

abbrev pub word_at : List ℕ → ℕ
word_at bytes = of_le (take 4 bytes)

abbrev pub long_at : List ℕ → ℕ
long_at bytes = of_le (take 8 bytes)

-- struct.unpack of the first forty bytes, field by field.
unfoldable pub unpack : List ℕ → ShmHeader
unpack b0 =
    let b1 = drop 4 b0 in
    let b2 = drop 4 b1 in
    let b3 = drop 4 b2 in
    let b4 = drop 4 b3 in
    let b5 = drop 4 b4 in
    let b6 = drop 4 b5 in
    let b7 = drop 8 b6 in
    record {
      magic = word_at b0;
      version = word_at b1;
      width = word_at b2;
      height = word_at b3;
      stride = word_at b4;
      format = word_at b5;
      frame_number = long_at b6;
      timestamp_ns = long_at b7;
    }

pub length-encode : (h : ShmHeader) → length (encode h) ≡ header_size
length-encode h = simp (length-append, length-le_bytes) refl

pub length-pack :
    (h : ShmHeader) (bytes : List ℕ) → pack h ≡ some bytes → length bytes ≡ header_size
unfolding pack
length-pack h bytes e = elim (Bool-cases (fits h)) [
  | inl yes' ↦
      let same : encode h ≡ bytes = cc (simp yes' at e) in ap length (sym same) ∙ length-encode h
  | inr no' ↦ cc (simp no' at e)
]

pub pack-Fits : (h : ShmHeader) → Fits h → pack h ≡ some (encode h)
unfolding pack
pack-Fits h f =
    simp
      (
        lt→ltb h.magic (256 ^ 4) f.magic,
        lt→ltb h.version (256 ^ 4) f.version,
        lt→ltb h.width (256 ^ 4) f.width,
        lt→ltb h.height (256 ^ 4) f.height,
        lt→ltb h.stride (256 ^ 4) f.stride,
        lt→ltb h.format (256 ^ 4) f.format,
        lt→ltb h.frame_number (256 ^ 8) f.frame_number,
        lt→ltb h.timestamp_ns (256 ^ 8) f.timestamp_ns,
      )
      refl

-- A header that fits is read back, whatever follows it.
pub unpack-encode : (h : ShmHeader) (rest : List ℕ) → Fits h → unpack (encode h ++ rest) ≡ h
unfolding unpack
unpack-encode h rest f = simp append_assoc (
    simp (field_behind 4, field_behind 8)
      (simp
        (
          field_here 4 h.magic f.magic,
          field_here 4 h.version f.version,
          field_here 4 h.width f.width,
          field_here 4 h.height f.height,
          field_here 4 h.stride f.stride,
          field_here 4 h.format f.format,
          field_here 8 h.frame_number f.frame_number,
          field_here 8 h.timestamp_ns f.timestamp_ns,
        )
        refl))

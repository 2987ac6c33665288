-- ===== src/Emulation/VncClient/Handshake.antt =====
-- The handshake with a server whose messages each arrive in a piece.
use linblock.Prelude.{
  ℕ, ◌^◌, ◌<◌, ◌≡◌, refl, ap, sym, ◌∙◌, true, false, some, List, [], ◌∷◌, ◌++◌, arith, length,
  length-append, take, drop, take_all, take-append, drop-append, drop-drop, length-take,
  append_assoc, nat_beq, ok, err, ◌>>=◌,
}
use linblock.Bytes.{of_le, be_bytes, of_be, length-be_bytes, of_be-be_bytes}
use linblock.Socket.{Socket, put_back, recv}
use linblock.Emulation.VncClient.{
  vnc_error, Client, Texts, received, read_from, read, send, unpack, starts_rfb, rfb_version,
  sec_none, member, check_version, choose_type, agree_security, check_result, server_init,
  pixel_format, encodings, finish, handshake, connected_or_not, connect,
}

abbrev at : Socket → Client → Client
at s c = record c { socket = some s }

-- A piece that is read whole.
recv-put_back :
    (bytes : List ℕ) (n : ℕ) (s : Socket)
    → length bytes ≡ n
    → 0 < n
    → recv n (put_back bytes s) ≡ (ok bytes, s)
unfolding recv put_back
recv-put_back [] n s e h = absurd (omega arith)
recv-put_back (b ∷ bs) n s e h =
    ap (λ k. (ok (take k (b ∷ bs)), put_back (drop k (b ∷ bs)) s)) (sym e)
    ∙ ap (λ l. (ok l, put_back (drop (length bs) bs) s))
        (take_all (b ∷ bs) (length (b ∷ bs)) (omega arith))
    ∙ ap (λ l. (ok (b ∷ bs), put_back l s)) (drop-length bs)
  where
    drop-length : (l : List ℕ) → drop (length l) l ≡ []
    drop-length [] = refl
    drop-length (x ∷ l) = drop-length l

read-piece :
    (bytes : List ℕ) (n : ℕ) (s : Socket) (c : Client)
    → length bytes ≡ n
    → 0 < n
    → read n (at (put_back bytes s) c) ≡ (ok bytes, at s c)
unfolding read read_from received
read-piece bytes n s c e h = ap (received (at (put_back bytes s) c)) (recv-put_back bytes n s e h)

-- A server with no password: its version, the types that it offers, its result, its size, pixel format and name.
pub record Server : Type 0 where
  pub version : List ℕ
  pub types : List ℕ
  pub width : ℕ
  pub height : ℕ
  pub format : List ℕ
  pub name : List ℕ

pub record IsServer (v : Server) : Type 0 where
  pub twelve : length v.version ≡ 12
  pub rfb : starts_rfb v.version ≡ true
  pub some_types : 0 < length v.types
  pub few_types : length v.types < 256
  pub no_password : member sec_none v.types ≡ true
  pub wide : v.width < 256 ^ 2
  pub high : v.height < 256 ^ 2
  pub sixteen : length v.format ≡ 16
  pub named : 0 < length v.name
  pub short_name : length v.name < 256 ^ 4

abbrev pub init_data : Server → List ℕ
init_data v =
    be_bytes 2 v.width ++ (be_bytes 2 v.height ++ (v.format ++ be_bytes 4 (length v.name)))

abbrev after_sizes : Server → Socket → Socket
after_sizes v rest = put_back v.name rest

abbrev after_result : Server → Socket → Socket
after_result v rest = put_back (init_data v) (after_sizes v rest)

abbrev after_types : Server → Socket → Socket
after_types v rest = put_back (0 ∷ 0 ∷ 0 ∷ 0 ∷ []) (after_result v rest)

abbrev after_count : Server → Socket → Socket
after_count v rest = put_back v.types (after_types v rest)

abbrev after_version : Server → Socket → Socket
after_version v rest = put_back (length v.types ∷ []) (after_count v rest)

abbrev pub script : Server → Socket → Socket
script v rest = put_back v.version (after_version v rest)

take-here : (xs rest : List ℕ) (n : ℕ) → length xs ≡ n → take n (xs ++ rest) ≡ xs
take-here xs rest n e = ap (λ k. take k (xs ++ rest)) (sym e) ∙ take-append xs rest

drop-here : (xs rest : List ℕ) (n : ℕ) → length xs ≡ n → drop n (xs ++ rest) ≡ rest
drop-here xs rest n e = ap (λ k. drop k (xs ++ rest)) (sym e) ∙ drop-append xs rest

server_init-parts :
    (bytes tail : List ℕ) (width height size : ℕ) (c : Client)
    → nat_beq (length (take 4 bytes)) 4 ≡ true
    → of_be (take 2 bytes) ≡ width
    → of_be (take 2 (drop 2 bytes)) ≡ height
    → take 4 (drop 20 bytes) ≡ tail
    → nat_beq (length tail) 4 ≡ true
    → of_be tail ≡ size
    → server_init bytes c ≡ (ok size, record c { width = width; height = height })
unfolding server_init unpack
server_init-parts bytes tail width height size c first wide high behind four sized =
    simp (first, wide, high, behind, four, sized) refl

module _ (v : Server) (h : IsServer v) where
  abbrev tail : List ℕ
  tail = be_bytes 4 (length v.name)

  behind_size : drop 2 (drop 2 (init_data v)) ≡ v.format ++ tail
  behind_size =
      ap (drop 2) (
        drop-here (be_bytes 2 v.width) (be_bytes 2 v.height ++ (v.format ++ tail)) 2
          (length-be_bytes 2 v.width))
      ∙ drop-here (be_bytes 2 v.height) (v.format ++ tail) 2 (length-be_bytes 2 v.height)

  length-init_data : length (init_data v) ≡ 24
  length-init_data = omega (
    arith,
    length-append (be_bytes 2 v.width) (be_bytes 2 v.height ++ (v.format ++ tail)),
    length-append (be_bytes 2 v.height) (v.format ++ tail),
    length-append v.format tail,
    length-be_bytes 2 v.width,
    length-be_bytes 2 v.height,
    length-be_bytes 4 (length v.name),
    h.sixteen,
  )

  server_init-data :
      (c : Client)
      → server_init (init_data v) c
        ≡ (ok (length v.name), record c { width = v.width; height = v.height })
  server_init-data c =
      let four : length (take 4 (init_data v)) ≡ 4 =
        length-take 4 (init_data v) (omega (arith, length-init_data)) in
      server_init-parts (init_data v) tail v.width v.height (length v.name) c
        (ap (λ n. nat_beq n 4) four)
        (ap of_be (
            take-here (be_bytes 2 v.width) (be_bytes 2 v.height ++ (v.format ++ tail)) 2
              (length-be_bytes 2 v.width))
          ∙ of_be-be_bytes 2 v.width h.wide)
        (ap (λ l. of_be (take 2 l))
            (drop-here (be_bytes 2 v.width) (be_bytes 2 v.height ++ (v.format ++ tail)) 2
              (length-be_bytes 2 v.width))
          ∙ ap of_be
              (take-here (be_bytes 2 v.height) (v.format ++ tail) 2 (length-be_bytes 2 v.height))
          ∙ of_be-be_bytes 2 v.height h.high)
        (ap (take 4) (
            sym (drop-drop 16 4 (init_data v))
            ∙ ap (drop 16) (sym (drop-drop 2 2 (init_data v)) ∙ behind_size)
            ∙ drop-here v.format tail 16 h.sixteen)
          ∙ take_all tail 4 (omega (arith, length-be_bytes 4 (length v.name))))
        (ap (λ n. nat_beq n 4) (length-be_bytes 4 (length v.name)))
        (of_be-be_bytes 4 (length v.name) h.short_name)

-- What the client has sent at the end of the handshake.
abbrev pub greeting : List ℕ
greeting = rfb_version ++ ((sec_none ∷ []) ++ ((1 ∷ []) ++ (pixel_format ++ encodings)))

abbrev pub greeted : Server → Socket → Client → Client
greeted v rest c = record c {
  socket = some rest;
  connected = true;
  width = v.width;
  height = v.height;
  receiving = true;
  stop_event = false;
  sent = c.sent ++ greeting;
}

one_byte : (n : ℕ) → of_be (n ∷ []) ≡ n
unfolding of_be of_le
one_byte n = omega arith

four_zeros : of_be (0 ∷ 0 ∷ 0 ∷ 0 ∷ []) ≡ 0
unfolding of_be of_le
four_zeros = refl

-- The parts of the handshake in their order.
module _ (texts : Texts) (v : Server) (h : IsServer v) (rest : Socket) (c : Client) where
  versioned :
      (s : Socket)
      → (read 12 >>= check_version texts) (at (put_back v.version s) c) ≡ (ok tt, at s c)
  unfolding check_version
  versioned s = simp (read-piece v.version 12 s c h.twelve (omega arith), h.rfb) refl

  agreed :
      (s : Socket) (c : Client)
      → agree_security texts (length v.types) (at (put_back v.types s) c)
        ≡ (ok tt, at s (record c { sent = c.sent ++ sec_none ∷ [] }))
  unfolding agree_security choose_type send
  agreed s c =
      let offered : nat_beq (length v.types) 0 ≡ false = ground (arith, h.some_types) in
      simp (offered, read-piece v.types (length v.types) s c refl h.some_types, h.no_password) refl

  sized :
      (s : Socket) (c : Client)
      → (read 24 >>= server_init) (at (put_back (init_data v) s) c)
        ≡ (ok (length v.name), at s (record c { width = v.width; height = v.height }))
  sized s c =
      simp
        (
          read-piece (init_data v) 24 s c (length-init_data v h) (omega arith),
          server_init-data v h (at s c),
        )
        refl

  handshake-script : handshake texts (at (script v rest) c) ≡ (ok tt, greeted v rest c)
  unfolding handshake send check_result finish
  handshake-script =
      let c1 : Client = record c { sent = c.sent ++ rfb_version } in
      let c2 : Client = record c1 { sent = c1.sent ++ sec_none ∷ [] } in
      let c3 : Client = record c2 { sent = c2.sent ++ 1 ∷ [] } in
      let c4 : Client = record c3 { width = v.width; height = v.height } in
      simp
        (
          versioned (after_version v rest),
          one_byte (length v.types),
          four_zeros,
          agreed (after_types v rest) c1,
          sized (after_sizes v rest) c3,
          read-piece v.name (length v.name) rest c4 refl h.named,
        )
        (simp append_assoc refl)

-- The handshake with a server that wants no password, whose messages each arrive in a piece of their own:
-- `connect` returns, with the client connected at the server's width and height and its receiver started. It has
-- sent the version, the security type, the shared flag, the pixel format and the encodings, and what follows
-- the name of the server is still to be read.
pub connect_lem :
    (texts : Texts) (v : Server) (rest : Socket) (c : Client)
    → IsServer v
    → connect texts (ok (script v rest)) c ≡ (ok tt, greeted v rest c)
unfolding connect connected_or_not
connect_lem texts v rest c h = ap (connected_or_not texts) (handshake-script texts v h rest c)

handshake-invalid :
    (texts : Texts) (version : List ℕ) (rest : Socket) (c : Client)
    → length version ≡ 12
    → starts_rfb version ≡ false
    → handshake texts (at (put_back version rest) c)
      ≡ (err (vnc_error (texts.invalid_version version)), at rest c)
unfolding handshake check_version
handshake-invalid texts version rest c twelve other =
    simp (read-piece version 12 rest c twelve (omega arith), other) refl

-- A server of which the first piece, twelve bytes, does not begin with "RFB " is refused with the
-- error for it, and the socket stays open: only a `socket.error` closes it.
pub connect-invalid :
    (texts : Texts) (version : List ℕ) (rest : Socket) (c : Client)
    → length version ≡ 12
    → starts_rfb version ≡ false
    → connect texts (ok (put_back version rest)) c
      ≡ (err (vnc_error (texts.invalid_version version)), at rest c)
unfolding connect connected_or_not
connect-invalid texts version rest c twelve other =
    ap (connected_or_not texts) (handshake-invalid texts version rest c twelve other)

-- ===== src/Emulation/VncClient/Updates.antt =====
-- What the client keeps of a rectangle, and what it sends of a pointer event.
use linblock.Prelude.{
  ℕ, suc, ◌*◌, ◌^◌, Bool, false, if◌then◌else◌, ◌≡◌, ◌↔◌, refl, ap, ◌∙◌, true, ◌&&◌, Option, none,
  some, List, [], ◌∷◌, ◌++◌, arith, ℤ, pos, negsuc, length, ltb, is_some, Result, ok, err,
}
use linblock.Bytes.{be_bytes, pack_be}
use linblock.Socket.{Socket}
use linblock.Socket.Ready.{ready}
use linblock.Socket.Fill.{fill_lem, at_most_64k, at_most_64k-IsRequest}
use linblock.Emulation.VncClient.{
  Error, struct_error, Client, both, byte, send, send_packed, send_connected, send_pointer, shown,
  get_framebuffer, enc_raw,
}
use linblock.Emulation.VncClient.Receive.{
  Rectangle, data_size, update, filled, read_pixels, handle_rectangle,
}

read_pixels-ok :
    (r : Rectangle) (pixels rest : List ℕ) (s : Socket) (c : Client)
    → c.socket ≡ some s
    → ready s ≡ pixels ++ rest
    → length pixels ≡ data_size r
    → (s' : Socket) × (read_pixels c.socket r c
        ≡ (ok tt, update r pixels (record c { socket = some s' })))
      × (ready s' ≡ rest)
unfolding read_pixels filled
read_pixels-ok r pixels rest s c open' arrives size =
    let (s', got, after, _) =
      fill_lem at_most_64k (data_size r) (data_size r) [] pixels rest s at_most_64k-IsRequest
        arrives (omega (arith, size)) (omega (arith, size)) in
    (s', ap (λ o. read_pixels o r c) open' ∙ ap (λ a. filled r a c) got, after)

update-framebuffer :
    (r : Rectangle) (pixels : List ℕ) (c : Client) → (update r pixels c).framebuffer ≡ some pixels
unfolding update
update-framebuffer r pixels c = ground arith

update-size :
    (r : Rectangle) (pixels : List ℕ) (c : Client)
    → ((update r pixels c).width ≡ c.width) × ((update r pixels c).height ≡ c.height)
unfolding update
update-size r pixels c = ground arith

update-socket :
    (r : Rectangle) (pixels : List ℕ) (c : Client) → (update r pixels c).socket ≡ c.socket
unfolding update
update-socket r pixels c = ground arith

framebuffer_of :
    (c : Client) (pixels : List ℕ) (width height : ℕ)
    → c.framebuffer ≡ some pixels
    → c.width ≡ width
    → c.height ≡ height
    → get_framebuffer c ≡ some (record { width = width; height = height; pixels = pixels })
unfolding get_framebuffer shown
framebuffer_of c pixels width height e f g =
    ap (λ o. shown o c) e
    ∙ ap (λ n. some (record { width = n; height = c.height; pixels = pixels })) f
    ∙ ap (λ n. some (record { width = width; height = n; pixels = pixels })) g

-- A raw rectangle whose pixels arrive in whatever pieces becomes the whole framebuffer, wherever on the
-- screen it is, and what follows stays in the stream. `get_framebuffer` gives its pixels under the width and
-- height of the screen, and they are as many as the screen has only where the rectangle has as many.
pub handle_rectangle_lem :
    (r : Rectangle) (pixels rest : List ℕ) (s : Socket) (c : Client)
    → r.encoding ≡ enc_raw
    → c.socket ≡ some s
    → ready s ≡ pixels ++ rest
    → length pixels ≡ r.width * r.height * 4
    → ((handle_rectangle r c).0 ≡ ok tt)
      × (get_framebuffer (handle_rectangle r c).1
          ≡ some (record { width = c.width; height = c.height; pixels = pixels }))
      × ((length pixels ≡ c.width * c.height * 4) ↔ (r.width * r.height ≡ c.width * c.height))
      × ((s' : Socket) × ((handle_rectangle r c).1.socket ≡ some s') × (ready s' ≡ rest))
unfolding handle_rectangle
handle_rectangle_lem r pixels rest s c raw open' arrives size =
    let (s', got, left) = read_pixels-ok r pixels rest s c open' arrives size in
    let v : Client = record c { socket = some s' } in
    let is_raw : handle_rectangle r c ≡ read_pixels c.socket r c = simp raw refl in
    let e = is_raw ∙ got in
    let (wide, high) = update-size r pixels v in
    (
      ap (λ a. a.0) e,
      ap (λ a. get_framebuffer a.1) e
          ∙ framebuffer_of (update r pixels v) pixels c.width c.height
              (update-framebuffer r pixels v) wide high,
      (λ h. omega (arith, size, h), λ h. size ∙ ap (λ n. n * 4) h),
      (s', ap (λ a. a.1.socket) e ∙ update-socket r pixels v, left),
    )

-- Whether a number fits a field with so many values.
abbrev pub in_field : ℕ → ℤ → Bool
in_field bound (pos n) = ltb n bound
in_field bound (negsuc n) = false

abbrev pub magnitude : ℤ → ℕ
magnitude (pos n) = n
magnitude (negsuc n) = suc n

pack_be_lem :
    (w : ℕ) (x : ℤ)
    → pack_be w x ≡ (if in_field (256 ^ w) x then some (be_bytes w (magnitude x)) else none)
unfolding pack_be
pack_be_lem w (pos n) = refl
pack_be_lem w (negsuc n) = refl

pointer_message : Option (List ℕ) → Option (List ℕ) → Option (List ℕ) → Option (List ℕ)
pointer_message buttons x y = both (byte 5) (both buttons (both x y))

send_pointer-packed :
    (x y buttons : ℤ) (c : Client)
    → (c.connected && is_some c.socket) ≡ true
    → send_pointer x y buttons c
      ≡ send_packed (pointer_message (pack_be 1 buttons) (pack_be 2 x) (pack_be 2 y)) c
unfolding send_pointer send_connected pointer_message
send_pointer-packed x y buttons c live = simp live refl

packed_message :
    (fits fits' fits'' : Bool) (k m n : List ℕ) (c : Client)
    → send_packed
        (pointer_message
          (if fits then some k else none)
          (if fits' then some m else none)
          (if fits'' then some n else none))
        c
      ≡ (if fits && (fits' && fits'')
          then (ok tt, record c { sent = c.sent ++ 5 ∷ (k ++ (m ++ n)) })
          else (err struct_error, c))
unfolding send_packed send pointer_message both
packed_message true true true k m n c = refl
packed_message true true false k m n c = refl
packed_message true false fits k m n c = refl
packed_message false fits fits' k m n c = refl

-- Of a connected client, a pointer event is sent in six bytes if the buttons fit one byte and the
-- coordinates two each, and otherwise `struct.error` is raised and nothing is sent.
pub send_pointer_bounds :
    (x y buttons : ℤ) (c : Client)
    → (c.connected && is_some c.socket) ≡ true
    → send_pointer x y buttons c ≡ (
        if in_field 256 buttons && (in_field 65536 x && in_field 65536 y)
        then (
          ok tt,
          record c {
            sent =
                c.sent
                ++ 5
                  ∷ (be_bytes 1 (magnitude buttons)
                      ++ (be_bytes 2 (magnitude x) ++ be_bytes 2 (magnitude y)));
          },
        )
        else (err struct_error, c))
send_pointer_bounds x y buttons c live =
    let put : Option (List ℕ)
        → Option (List ℕ)
        → Option (List ℕ)
        → Result Error (Unit {0}) × Client =
      λ k m n. send_packed (pointer_message k m n) c in
    let packed_buttons =
      if in_field (256 ^ 1) buttons then some (be_bytes 1 (magnitude buttons)) else none in
    let packed_x = if in_field (256 ^ 2) x then some (be_bytes 2 (magnitude x)) else none in
    send_pointer-packed x y buttons c live
    ∙ ap (λ o. put o (pack_be 2 x) (pack_be 2 y)) (pack_be_lem 1 buttons)
    ∙ ap (λ o. put packed_buttons o (pack_be 2 y)) (pack_be_lem 2 x)
    ∙ ap (λ o. put packed_buttons packed_x o) (pack_be_lem 2 y)
    ∙ packed_message (in_field 256 buttons) (in_field 65536 x) (in_field 65536 y)
        (be_bytes 1 (magnitude buttons)) (be_bytes 2 (magnitude x)) (be_bytes 2 (magnitude y)) c

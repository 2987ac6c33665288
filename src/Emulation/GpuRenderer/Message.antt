-- ===== src/Emulation/GpuRenderer/Message.antt =====
-- What the renderer process and its worker send each other: a type or a status in one byte, the
-- length in four, and the data (`"<BI"`). `_recv_response` of the one and `_recv_message` of the
-- other are the same loop, which take the header with one `recv`.
use linblock.Prelude.{
  ℕ, suc, ◌≤◌, ◌<◌, ◌^◌, ◌≡◌, ap, sym, ◌∙◌, false, Option, none, some, List, [], ◌∷◌, ◌++◌, arith,
  length, take, drop, take-append, take-append_le, drop-append_le, append_assoc, append-nil, ltb,
  Bool-cases, inl, inr, if◌then◌else◌, Result, ok, err,
}
use linblock.Bytes.{le_bytes, of_le, length-le_bytes, field_here, field_behind}
use linblock.Socket.{piece, stall, failure, Socket, SocketError, recv, put_back}
use linblock.Socket.Weight.{weight, weight-recv_lt}
use linblock.Socket.Ready.{ready, ready-put_back}
use linblock.Socket.Fill.{
  FillError, closed, failed, fill, fill_lem, weight-fill, at_most_64k, at_most_64k-IsRequest,
}

-- Message types and statuses.
abbrev pub msg_init : ℕ
msg_init = 1

abbrev pub msg_process_commands : ℕ
msg_process_commands = 2

abbrev pub msg_resize : ℕ
msg_resize = 4

abbrev pub msg_rotate : ℕ
msg_rotate = 5

abbrev pub msg_shutdown : ℕ
msg_shutdown = 0xff

abbrev pub rsp_ok : ℕ
rsp_ok = 0

abbrev pub rsp_error : ℕ
rsp_error = 1

abbrev pub encode : ℕ → List ℕ → List ℕ
encode type d = type ∷ (le_bytes 4 (length d) ++ d)

-- struct.pack("<BI", type, len(data)) + data, for a type that fits its byte; none is `struct.error`.
unfoldable pub pack : ℕ → List ℕ → Option (List ℕ)
pack type d = if ltb (length d) (256 ^ 4) then some (encode type d) else none

-- The first byte and the length of a header.
abbrev pub first : List ℕ → ℕ
first [] = 0
first (b ∷ bs) = b

abbrev pub length_of : List ℕ → ℕ
length_of header = of_le (take 4 (drop 1 header))

unfoldable pub with_type :
    ℕ → Result FillError (List ℕ) × Socket → Result FillError (ℕ × List ℕ) × Socket
with_type type (err e, s) = (err e, s)
with_type type (ok d, s) = (ok (type, d), s)

-- The loop after the header; a `recv` for each missing byte is enough.
unfoldable pub recv_data : ℕ → ℕ → Socket → Result FillError (ℕ × List ℕ) × Socket
unfolding with_type
recv_data type size s = with_type type (fill at_most_64k size size [] s)

-- A short header is taken for a closed connection.
unfoldable pub after_header :
    Result SocketError (List ℕ) × Socket → Result FillError (ℕ × List ℕ) × Socket
unfolding recv_data
after_header (err e, s) = (err (failed e), s)
after_header (ok header, s) =
    let rest = recv_data (first header) (length_of header) s in
    if ltb (length header) 5 then (err closed, s) else rest

unfoldable pub recv_message : Socket → Result FillError (ℕ × List ℕ) × Socket
unfolding after_header recv
recv_message s = after_header (recv 5 s)

-- How many bytes the next piece holds.
abbrev pub next_piece : Socket → ℕ
next_piece (piece b bs ∷ s) = suc (length bs)
next_piece _ = 0

recv_header :
    (s : Socket)
    → 5 ≤ next_piece s
    → (s' : Socket) × (recv 5 s ≡ (ok (take 5 (ready s)), s')) × (ready s' ≡ drop 5 (ready s))
unfolding recv ready
recv_header [] h = absurd (omega arith)
recv_header (stall ∷ s) h = absurd (omega arith)
recv_header (failure ∷ s) h = absurd (omega arith)
recv_header (piece b bs ∷ s) h = (
  put_back (drop 5 (b ∷ bs)) s,
  ap (λ l. (ok l, put_back (drop 5 (b ∷ bs)) s)) (sym (take-append_le 5 (b ∷ bs) (ready s) h)),
  ready-put_back (drop 5 (b ∷ bs)) s ∙ sym (drop-append_le 5 (b ∷ bs) (ready s) h),
)

module _ (type : ℕ) (d rest : List ℕ) where
  abbrev header : List ℕ
  header = type ∷ le_bytes 4 (length d)

  take-header : take 5 (encode type d ++ rest) ≡ header
  take-header =
      ap (λ l. type ∷ take 4 l) (append_assoc (le_bytes 4 (length d)) d rest)
      ∙ ap (λ l. type ∷ l)
          (ap (λ k. take k (le_bytes 4 (length d) ++ (d ++ rest)))
              (sym (length-le_bytes 4 (length d)))
            ∙ take-append (le_bytes 4 (length d)) (d ++ rest))

  drop-header : drop 5 (encode type d ++ rest) ≡ d ++ rest
  drop-header =
      ap (drop 4) (append_assoc (le_bytes 4 (length d)) d rest)
      ∙ field_behind 4 (length d) (d ++ rest)

  length_of-header : length d < 256 ^ 4 → length_of header ≡ length d
  length_of-header fits =
      ap (λ l. of_le (take 4 l)) (sym (append-nil (le_bytes 4 (length d))))
      ∙ field_here 4 (length d) fits []

-- The loop asks for as many bytes as the header says.
recv_data-ok :
    (type n size : ℕ) (d : List ℕ) (s s' : Socket)
    → size ≡ n
    → fill at_most_64k n n [] s ≡ (ok d, s')
    → recv_data type size s ≡ (ok (type, d), s')
unfolding recv_data
recv_data-ok type n size d s s' e filled =
    ap (λ k. with_type type (fill at_most_64k k k [] s)) e ∙ ap (with_type type) filled

after_header-ok :
    (type : ℕ) (header d : List ℕ) (s s' : Socket)
    → ltb (length header) 5 ≡ false
    → recv_data (first header) (length_of header) s ≡ (ok (type, d), s')
    → after_header (ok header, s) ≡ (ok (type, d), s')
unfolding after_header
after_header-ok type header d s s' whole e = simp (whole, e)

length-header : (type : ℕ) (d rest : List ℕ) → ltb (length (header type d rest)) 5 ≡ false
length-header type d rest = ap (λ n. ltb (suc n) 5) (length-le_bytes 4 (length d))

-- A message whose length fits is received as it was sent, however its bytes are cut, where the next
-- piece holds a header; what follows it is left.
pub recv_message-encode :
    (type : ℕ) (d rest : List ℕ) (s : Socket)
    → length d < 256 ^ 4
    → 5 ≤ next_piece s
    → ready s ≡ encode type d ++ rest
    → (s' : Socket) × (recv_message s ≡ (ok (type, d), s')) × (ready s' ≡ rest)
unfolding recv_message
recv_message-encode type d rest s fits whole e =
    let (t, got, left) = recv_header s whole in
    let got' : recv 5 s ≡ (ok (header type d rest), t) =
      got ∙ ap (λ l. (ok l, t)) (ap (take 5) e ∙ take-header type d rest) in
    let size = length_of-header type d rest fits in
    let (s', filled, after, _) =
      fill_lem at_most_64k (length d) (length d) [] d rest t at_most_64k-IsRequest
        (left ∙ ap (drop 5) e ∙ drop-header type d rest) (omega arith) (omega arith) in
    (
      s',
      ap after_header got'
          ∙ after_header-ok type (header type d rest) d t s' (length-header type d rest)
              (recv_data-ok type (length d) (length_of (header type d rest)) d t s' size filled),
      after,
    )

weight-with_type :
    (type : ℕ) (filled : Result FillError (List ℕ) × Socket) (n : ℕ)
    → weight filled.1 ≤ n
    → weight (with_type type filled).1 ≤ n
unfolding with_type
weight-with_type type (err e, s) n h = h
weight-with_type type (ok d, s) n h = h

weight-after_header :
    (answer : Result SocketError (List ℕ) × Socket)
    → weight (after_header answer).1 ≤ weight answer.1
unfolding after_header recv_data
weight-after_header (err e, s) = omega arith
weight-after_header (ok header, s) = elim (Bool-cases (ltb (length header) 5)) [
  | inl short ↦ simp short (omega arith)
  | inr whole ↦
      let size = length_of header in
      simp whole (
        weight-with_type (first header) (fill at_most_64k size size [] s) (weight s)
          (weight-fill at_most_64k size size (weight s) [] s (omega arith)))
]

-- Receiving a message takes something of what is to come, where anything is.
pub weight-recv_message : (s : Socket) → 0 < weight s → weight (recv_message s).1 < weight s
unfolding recv_message
weight-recv_message s h =
    omega (arith, weight-recv_lt 5 s (omega arith) h, weight-after_header (recv 5 s))

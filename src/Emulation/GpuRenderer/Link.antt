-- ===== src/Emulation/GpuRenderer/Link.antt =====
-- The process and its worker together: what the one sends is what the other handles, and the answer
-- goes back.
use linblock.Prelude.{
  ℕ, ◌^◌, ◌≤◌, ◌<◌, ◌≡◌, refl, ap, sym, ◌∙◌, true, false, ◌&&◌, not, some, List, [], ◌++◌, arith,
  length, length-append, append-nil, ltb, lt→ltb, is_some, ok,
}
use linblock.Bytes.{le_bytes, length-le_bytes}
use linblock.Socket.{Socket}
use linblock.Socket.Ready.{ready}
use linblock.Emulation.GpuRenderer.Header.{frame_header, Fits}
use linblock.Emulation.GpuRenderer.Message.{
  msg_resize, rsp_ok, encode, pack, next_piece, recv_message, recv_message-encode,
}
use linblock.Emulation.GpuRenderer.ShmDisplay.{ShmDisplay}
use linblock.Emulation.GpuRenderer.Worker as Renderer
use linblock.Emulation.GpuRenderer.Worker.{Worker, Mapping.mapped, Descriptor.opened, Setup.granted}
use linblock.Emulation.GpuRenderer.Worker.Handlers.{serve}
use linblock.Emulation.GpuRenderer.Worker.Resizing.{size_bytes, handle_resize-granted, Opens}
use linblock.Emulation.GpuRenderer.Process.{
  Process, Host, running, same_state, send_packed, send_message, received, read_from, recv_response,
  accept, request, set_size, resize,
}

length-size_bytes : (width height : ℕ) → length (size_bytes width height) ≡ 8
length-size_bytes width height =
    length-append (le_bytes 4 width) (le_bytes 4 height)
    ∙ omega (arith, length-le_bytes 4 width, length-le_bytes 4 height)

size_bytes-fit : (width height : ℕ) → length (size_bytes width height) < 256 ^ 4
size_bytes-fit width height = omega (arith, length-size_bytes width height)

-- The message is sent where the size of its data fits.
send_message-ok :
    (host : Host) (msg_type : ℕ) (d : List ℕ) (s : Socket) (p : Process)
    → p.socket ≡ some s
    → host.sends ≡ true
    → length d < 256 ^ 4
    → send_message host msg_type d p ≡ (ok tt, record p { sent = p.sent ++ encode msg_type d })
unfolding send_message send_packed pack
send_message-ok host msg_type d s p connected sends fits =
    let small : ltb (length d) (256 ^ 4) ≡ true = lt→ltb (length d) (256 ^ 4) fits in
    let there : is_some p.socket ≡ true = ap is_some connected in simp (there, small, sends) refl

-- The socket has nothing left to read, and the answer of the worker arrives.
recv_response-ok :
    (host : Host) (p : Process)
    → p.socket ≡ some []
    → 5 ≤ next_piece host.reply
    → ready host.reply ≡ encode rsp_ok []
    → (s : Socket) × (recv_response host p ≡ (ok (rsp_ok, []), record p { socket = some s }))
unfolding recv_response read_from received
recv_response-ok host p connected whole arrives =
    let (s, got, _) =
      recv_message-encode rsp_ok [] [] host.reply (omega arith) whole
        (arrives ∙ sym (append-nil (encode rsp_ok []))) in
    (s, ap (λ o. read_from o host p) connected ∙ ap (received p) got)

resize-ok :
    (host : Host) (width height : ℕ) (p : Process)
    → p.state ≡ running
    → p.socket ≡ some []
    → host.sends ≡ true
    → width < 256 ^ 4
    → height < 256 ^ 4
    → 5 ≤ next_piece host.reply
    → ready host.reply ≡ encode rsp_ok []
    → (s : Socket) × (resize host width height p ≡ (
      ok tt,
      record p {
        config = record p.config { width = width; height = height };
        socket = some s;
        sent = p.sent ++ encode msg_resize (size_bytes width height);
      },
    ))
unfolding resize request accept set_size
resize-ok host width height p runs connected sends fits fits' whole arrives =
    let v : Process = record p { sent = p.sent ++ encode msg_resize (size_bytes width height) } in
    let first =
      send_message-ok host msg_resize (size_bytes width height) [] p connected sends
        (size_bytes-fit width height) in
    let (s, second) = recv_response-ok host v connected whole arrives in
    let live : same_state p.state running ≡ true = ap (λ s. same_state s running) runs in
    let a = lt→ltb width (256 ^ 4) fits in
    let b = lt→ltb height (256 ^ 4) fits' in (s, simp (live, a, b, first, second) refl)

-- A resize through both: the process is running and connected, with nothing left to read, its send goes through, and the worker
-- has an open map and is granted the new one. What the process sends arrives at the worker, and what the worker
-- answers at the process, each with its header in one piece. The worker then receives the
-- message that was sent, the process's call returns, and the sizes that the two keep and that a display finds in
-- the shared memory are the same.
pub resize_lem :
    (host : Host) (renderer : Renderer.Host) (width height region : ℕ) (p : Process) (w : Worker)
    (at_worker : Socket) (d : ShmDisplay)
    → p.state ≡ running
    → p.socket ≡ some []
    → host.sends ≡ true
    → Fits (frame_header width height 0 0)
    → w.mapping ≡ mapped region
    → w.descriptor ≡ opened
    → (is_some w.shm.name && not renderer.unlinks) ≡ false
    → renderer.setup ≡ granted
    → 5 ≤ next_piece at_worker
    → ready at_worker ≡ encode msg_resize (size_bytes width height)
    → 5 ≤ next_piece host.reply
    → ready host.reply ≡ encode rsp_ok []
    → ((rest : Socket) × (recv_message at_worker
          ≡ (ok (msg_resize, size_bytes width height), rest)))
      × ((resize host width height p).0 ≡ ok tt)
      × ((resize host width height p).1.sent ≡ p.sent ++ ready at_worker)
      × ((serve renderer msg_resize (size_bytes width height) w).sent ≡ w.sent ++ ready host.reply)
      × ((resize host width height p).1.config.width
          ≡ (serve renderer msg_resize (size_bytes width height) w).width)
      × ((resize host width height p).1.config.height
          ≡ (serve renderer msg_resize (size_bytes width height) w).height)
      × Opens d (serve renderer msg_resize (size_bytes width height) w).shm width height
unfolding serve
resize_lem host renderer width height region p w at_worker d runs connected sends f m o gone setup
      whole arrives whole' arrives' =
    let (t, got, _) =
      recv_message-encode msg_resize (size_bytes width height) [] at_worker
        (size_bytes-fit width height) whole
        (arrives ∙ sym (append-nil (encode msg_resize (size_bytes width height)))) in
    let (s, called) =
      resize-ok host width height p runs connected sends f.width f.height whole' arrives' in
    let (answer, wide, high, opens) =
      handle_resize-granted renderer width height w region d m o gone setup f in
    (
      (t, got),
      ap (λ r. r.0) called,
      ap (λ r. r.1.sent) called ∙ ap (λ l. p.sent ++ l) (sym arrives),
      answer ∙ ap (λ l. w.sent ++ l) (sym arrives'),
      ap (λ r. r.1.config.width) called ∙ sym wide,
      ap (λ r. r.1.config.height) called ∙ sym high,
      opens,
    )

-- ===== src/Socket/Fill.antt =====
-- The loop `while len(data) < size: chunk = recv(...); data += chunk`, which the program has in four
-- places. `request` gives how many bytes a round asks for, of those that are missing. Every round
-- adds a byte, so as many rounds as bytes are missing are enough.
use Prim.Native.Nat.{min}
use linblock.Prelude.{
  ℕ, zero, suc, true, false, ◌+◌, ◌-◌, ◌≤◌, ◌<◌, ◌≡◌, refl, ap, sym, ◌∙◌, List, [], ◌∷◌, ◌++◌,
  arith, length, length-append, append-nil, append_assoc, ltb, if◌then◌else◌, Bool-cases, inl, inr,
  lt→ltb, ltb→lt, Bool, length-take_le, Result, ok, err,
}
use linblock.Socket.{Socket, SocketError, piece, stall, failure, recv}
use linblock.Socket.Weight.{weight, weight-recv}
use linblock.Socket.Ready.{ready, beyond, recv_ready, split_prefix}

pub data FillError : Type 0 where
  closed : FillError
  failed : SocketError → FillError

abbrev Filled : Type 0
Filled = Result FillError (List ℕ) × Socket

-- A round of the loop, from what `recv` answered.
fill_round : (List ℕ → Socket → Filled) → Result SocketError (List ℕ) × Socket → Filled
fill_round continue (err e, s) = (err (failed e), s)
fill_round continue (ok [], s) = (err closed, s)
fill_round continue (ok (b ∷ chunk), s) = continue (b ∷ chunk) s

unfoldable pub fill : (ℕ → ℕ) → ℕ → ℕ → List ℕ → Socket → Filled
unfolding fill_round recv
fill request zero size data' s = if ltb (length data') size then (err closed, s) else (ok data', s)
fill request (suc fuel) size data' s =
    let round =
      fill_round (λ chunk s'. fill request fuel size (data' ++ chunk) s')
        (recv (request (size - length data')) s) in
    if ltb (length data') size then round else (ok data', s)

-- A round asks for some of the missing bytes, and for no more.
pub record IsRequest (request : ℕ → ℕ) : Type 0 where
  pub some_bytes : (n : ℕ) → 0 < n → 0 < request n
  pub within : (n : ℕ) → request n ≤ n

abbrev pub missing : ℕ → ℕ
missing n = n

abbrev pub at_most_64k : ℕ → ℕ
at_most_64k n = min n 65536

pub missing-IsRequest : IsRequest missing
missing-IsRequest = record { some_bytes = λ n h. h; within = λ n. omega arith }

pub at_most_64k-IsRequest : IsRequest at_most_64k
at_most_64k-IsRequest = record { some_bytes = λ n h. omega arith; within = λ n. omega arith }

fill_step :
    (request : ℕ → ℕ) (fuel size : ℕ) (data' chunk : List ℕ) (s s' : Socket)
    → length data' < size
    → recv (request (size - length data')) s ≡ (ok chunk, s')
    → 0 < length chunk
    → fill request (suc fuel) size data' s ≡ fill request fuel size (data' ++ chunk) s'
fill_step request fuel size data' [] s s' more answer some_bytes = absurd (omega arith)
fill_step request fuel size data' (b ∷ chunk) s s' more answer some_bytes =
    unfold fill in rw (lt→ltb (length data') size more) (rw answer refl)

-- However the bytes arrive, the loop gathers those that are ready and leaves the ones behind them.
pub fill_lem :
    (request : ℕ → ℕ) (fuel size : ℕ) (data' xs rest : List ℕ) (s : Socket)
    → IsRequest request
    → ready s ≡ xs ++ rest
    → length data' + length xs ≡ size
    → length xs ≤ fuel
    → (s' : Socket) × (fill request fuel size data' s ≡ (ok (data' ++ xs), s'))
      × (ready s' ≡ rest)
      × (beyond s' ≡ beyond s)
fill_lem request zero size data' [] rest s r e l h =
    (s, unfold fill in rw append-nil (ground arith), e, refl)
fill_lem request zero size data' (x ∷ xs) rest s r e l h = absurd (omega arith)
fill_lem request (suc fuel) size data' [] rest s r e l h =
    (s, unfold fill in rw append-nil (ground arith), e, refl)
fill_lem request (suc fuel) size data' (x ∷ xs) rest s r e l h =
    let k = size - length data' in
    let asked : 0 < request k = r.some_bytes k (omega arith) in
    let there : 0 < length (ready s) = rw e (omega arith) in
    let (chunk, s', received) = recv_ready (request k) s asked there in
    let short : length chunk ≤ length (x ∷ xs) = omega (arith, received.within, r.within k) in
    let (xs', whole, left) =
      split_prefix chunk (ready s') (x ∷ xs) rest (sym received.split ∙ e) short in
    let longer = length-append data' chunk in
    let parts : length (x ∷ xs) ≡ length chunk + length xs' =
      ap length whole ∙ length-append chunk xs' in
    let (s'', filled, readied, same) =
      fill_lem request fuel size (data' ++ chunk) xs' rest s' r left (omega (arith, longer, parts))
        (omega (arith, parts, received.some_bytes)) in
    (
      s'',
      fill_step request fuel size data' chunk s s' (omega arith) received.answer received.some_bytes
          ∙ filled
          ∙ ap (λ l. (ok l, s'')) (append_assoc data' chunk xs' ∙ ap (λ l. data' ++ l) (sym whole)),
      readied,
      same ∙ received.same_beyond,
    )

recv_within :
    (n : ℕ) (chunk : List ℕ) (s s' : Socket) → recv n s ≡ (ok chunk, s') → length chunk ≤ n
unfolding recv
recv_within n chunk [] s' e = ground arith
recv_within n chunk (piece b bs ∷ s) s' e = ground (arith, length-take_le n (b ∷ bs))
recv_within n chunk (stall ∷ s) s' e = absurd (ground arith)
recv_within n chunk (failure ∷ s) s' e = absurd (ground arith)

module _ (size : ℕ) (data' d : List ℕ) (continue : List ℕ → Socket → Filled) where
  -- A round keeps to the size, if the rounds after it do.
  length-fill_round :
      (answer : Result SocketError (List ℕ) × Socket) (s' : Socket)
      → ((b : ℕ) (chunk : List ℕ)
          → answer.0 ≡ ok (b ∷ chunk)
          → continue (b ∷ chunk) answer.1 ≡ (ok d, s')
          → length d ≡ size)
      → fill_round continue answer ≡ (ok d, s')
      → length d ≡ size
  unfolding fill_round
  length-fill_round (err e, s) s' next h = absurd (ground arith)
  length-fill_round (ok [], s) s' next h = absurd (ground arith)
  length-fill_round (ok (b ∷ chunk), s) s' next h = next b chunk refl h

-- What the loop returns has the size that was asked for.
pub length-fill :
    (request : ℕ → ℕ) (fuel size : ℕ) (data' d : List ℕ) (s s' : Socket)
    → IsRequest request
    → length data' ≤ size
    → fill request fuel size data' s ≡ (ok d, s')
    → length d ≡ size
length-fill request zero size data' d s s' r h e = unfold fill in ground arith
length-fill request (suc fuel) size data' d s s' r h e =
    elim (Bool-cases (ltb (length data') size)) [
      | inl more ↦
          let k = size - length data' in
          length-fill_round size data' d (λ chunk t. fill request fuel size (data' ++ chunk) t)
            (recv (request k) s) s'
            (λ b chunk answer.
              length-fill request fuel size (data' ++ b ∷ chunk) d (recv (request k) s).1 s' r (
                omega (
                  arith,
                  length-append data' (b ∷ chunk),
                  r.within k,
                  recv_within (request k) (b ∷ chunk) s (recv (request k) s).1
                      (ap (λ a. (a, (recv (request k) s).1)) answer),
                  ltb→lt (length data') size more,
                )))
            (unfold fill in rw more at e)
      | inr done ↦ unfold fill in ground arith
    ]

weight-fill_round :
    (continue : List ℕ → Socket → Filled) (answer : Result SocketError (List ℕ) × Socket) (n : ℕ)
    → ((chunk : List ℕ) (s : Socket) → weight s ≤ n → weight (continue chunk s).1 ≤ n)
    → weight answer.1 ≤ n
    → weight (fill_round continue answer).1 ≤ n
unfolding fill_round
weight-fill_round continue (err e, s) n keeps h = h
weight-fill_round continue (ok [], s) n keeps h = h
weight-fill_round continue (ok (b ∷ chunk), s) n keeps h = keeps (b ∷ chunk) s h

weight-if :
    (b : Bool) (x y : Filled) (n : ℕ)
    → weight x.1 ≤ n
    → weight y.1 ≤ n
    → weight (if b then x else y).1 ≤ n
weight-if true x y n h k = h
weight-if false x y n h k = k

-- The loop reads, and puts nothing back that it has not read.
pub weight-fill :
    (request : ℕ → ℕ) (fuel size n : ℕ) (data' : List ℕ) (s : Socket)
    → weight s ≤ n
    → weight (fill request fuel size data' s).1 ≤ n
unfolding fill
weight-fill request zero size n data' s h =
    weight-if (ltb (length data') size) (err closed, s) (ok data', s) n h h
weight-fill request (suc fuel) size n data' s h =
    let k = request (size - length data') in
    weight-if (ltb (length data') size)
      (fill_round (λ chunk s'. fill request fuel size (data' ++ chunk) s') (recv k s)) (ok data', s)
      n
      (weight-fill_round (λ chunk s'. fill request fuel size (data' ++ chunk) s') (recv k s) n
        (λ chunk s'. weight-fill request fuel size n (data' ++ chunk) s')
        (omega (arith, weight-recv k s)))
      h

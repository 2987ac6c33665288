-- ===== src/Socket/Ready.antt =====
-- The bytes that arrive before the first stall, failure or close.
use linblock.Prelude.{
  ℕ, zero, suc, ◌≤◌, ◌<◌, ◌≡◌, refl, ap, sym, ◌∙◌, List, [], ◌∷◌, ◌++◌, arith, length, take, drop,
  take-drop, length-take_le, append_assoc, ok,
}
use linblock.Socket.{piece, stall, failure, Socket, put_back, recv}

unfoldable pub ready : Socket → List ℕ
ready [] = []
ready (piece b bs ∷ s) = b ∷ bs ++ ready s
ready (stall ∷ s) = []
ready (failure ∷ s) = []

-- What follows them.
pub beyond : Socket → Socket
beyond [] = []
beyond (piece b bs ∷ s) = beyond s
beyond (stall ∷ s) = stall ∷ s
beyond (failure ∷ s) = failure ∷ s

pub ready-put_back : (bs : List ℕ) (s : Socket) → ready (put_back bs s) ≡ bs ++ ready s
unfolding ready put_back
ready-put_back [] s = refl
ready-put_back (b ∷ bs) s = refl

beyond-put_back : (bs : List ℕ) (s : Socket) → beyond (put_back bs s) ≡ beyond s
unfolding beyond put_back
beyond-put_back [] s = refl
beyond-put_back (b ∷ bs) s = refl

-- One piece of what is ready was received.
pub record IsReceived (n : ℕ) (s : Socket) (chunk : List ℕ) (s' : Socket) : Type 0 where
  pub answer : recv n s ≡ (ok chunk, s')
  pub some_bytes : 0 < length chunk
  pub within : length chunk ≤ n
  pub split : ready s ≡ chunk ++ ready s'
  pub same_beyond : beyond s' ≡ beyond s

pub recv_ready :
    (n : ℕ) (s : Socket)
    → 0 < n
    → 0 < length (ready s)
    → (chunk : List ℕ) × (s' : Socket) × IsReceived n s chunk s'
unfolding ready
recv_ready n [] pos h = absurd (omega arith)
recv_ready n (stall ∷ s) pos h = absurd (omega arith)
recv_ready n (failure ∷ s) pos h = absurd (omega arith)
recv_ready zero (piece b bs ∷ s) pos h = absurd (omega arith)
recv_ready (suc n) (piece b bs ∷ s) pos h = (
  b ∷ take n bs,
  put_back (drop n bs) s,
  record {
    answer = unfold recv in refl;
    some_bytes = omega arith;
    within = omega (arith, length-take_le n bs);
    split =
        ap (λ l. b ∷ l)
          (ap (λ l. l ++ ready s) (sym (take-drop n bs))
            ∙ append_assoc (take n bs) (drop n bs) (ready s)
            ∙ ap (λ l. take n bs ++ l) (sym (ready-put_back (drop n bs) s)));
    same_beyond = unfold beyond in beyond-put_back (drop n bs) s;
  },
)

-- A prefix of a list that is split in two lies in the first part.
pub split_prefix :
    (chunk rest' xs rest : List ℕ)
    → chunk ++ rest' ≡ xs ++ rest
    → length chunk ≤ length xs
    → (xs' : List ℕ) × (xs ≡ chunk ++ xs') × (rest' ≡ xs' ++ rest)
split_prefix [] rest' xs rest e h = (xs, refl, e)
split_prefix (b ∷ chunk) rest' [] rest e h = absurd (omega arith)
split_prefix (b ∷ chunk) rest' (x ∷ xs) rest e h =
    let (xs', e', f) = split_prefix chunk rest' xs rest (cc e) (omega arith) in (xs', cc (e, e'), f)

-- ===== src/Socket/Weight.antt =====
-- How much is still to come: a bound of the reads that a socket answers before it is at its end.
use linblock.Prelude.{
  ℕ, suc, ◌+◌, ◌≤◌, ◌<◌, ◌≡◌, refl, List, [], ◌∷◌, arith, length, drop, length-drop,
}
use linblock.Socket.{Socket, piece, stall, failure, put_back, recv}

unfoldable pub weight : Socket → ℕ
weight [] = 0
weight (piece b bs ∷ s) = suc (length bs) + weight s
weight (stall ∷ s) = suc (weight s)
weight (failure ∷ s) = suc (weight s)

weight-put_back : (bs : List ℕ) (s : Socket) → weight (put_back bs s) ≡ length bs + weight s
unfolding weight put_back
weight-put_back [] s = omega arith
weight-put_back (b ∷ bs) s = refl

pub weight-recv : (n : ℕ) (s : Socket) → weight (recv n s).1 ≤ weight s
unfolding weight recv
weight-recv n [] = omega arith
weight-recv n (piece b bs ∷ s) =
    omega (arith, weight-put_back (drop n (b ∷ bs)) s, length-drop n (b ∷ bs))
weight-recv n (stall ∷ s) = omega arith
weight-recv n (failure ∷ s) = omega arith

-- Before the end a read takes something.
pub weight-recv_lt : (n : ℕ) (s : Socket) → 0 < n → 0 < weight s → weight (recv n s).1 < weight s
unfolding weight recv
weight-recv_lt n [] pos h = absurd (omega arith)
weight-recv_lt n (piece b bs ∷ s) pos h =
    omega (arith, weight-put_back (drop n (b ∷ bs)) s, length-drop n (b ∷ bs))
weight-recv_lt n (stall ∷ s) pos h = omega arith
weight-recv_lt n (failure ∷ s) pos h = omega arith

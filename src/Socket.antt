-- ===== src/Socket.antt =====
-- A stream socket with a timeout, as the program uses it: what the peer sends arrives in pieces,
-- and `recv(n)` takes at most `n` bytes of the next one.
pub mod Ready
pub mod Weight
pub mod Fill
use linblock.Prelude.{
  ℕ, suc, ◌≤◌, List, [], ◌∷◌, length, take, drop, leb, if◌then◌else◌, Result, ok, err,
}

-- A piece holds at least one byte. A stall is a wait that the timeout ends; a failure is an
-- `OSError`.
pub data Arrival : Type 0 where
  piece : (first : ℕ) → (others : List ℕ) → Arrival
  stall : Arrival
  failure : Arrival

pub data SocketError : Type 0 where
  timeout os_error : SocketError

-- What will arrive. At the end the peer has closed the connection.
abbrev pub Socket : Type 0
Socket = List Arrival

-- `rest` in front of the pieces that are still to come.
unfoldable pub put_back : List ℕ → Socket → Socket
put_back [] s = s
put_back (b ∷ bs) s = piece b bs ∷ s

-- `recv(n)`: an empty answer means that the peer has closed.
unfoldable pub recv : ℕ → Socket → Result SocketError (List ℕ) × Socket
unfolding put_back
recv n [] = (ok [], [])
recv n (piece b bs ∷ s) = (ok (take n (b ∷ bs)), put_back (drop n (b ∷ bs)) s)
recv n (stall ∷ s) = (err timeout, s)
recv n (failure ∷ s) = (err os_error, s)

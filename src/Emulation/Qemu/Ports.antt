-- ===== src/Emulation/Qemu/Ports.antt =====
-- `_find_available_port`, over what `_is_port_available` answers.
use linblock.Prelude.{
  ℕ, zero, suc, ◌+◌, ◌≤◌, ◌<◌, ◌≡◌, Bool, true, false, Option, none, some, arith, if◌then◌else◌, ap,
  sym, ◌∙◌, Bool-cases, inl, inr,
}
use native.Mathlib.Decide.{ℕ_discrete}

-- The loop, by the attempts that are left; `none` is its RuntimeError.
find_port : (ℕ → Bool) → ℕ → ℕ → Option ℕ
find_port free zero port = none
find_port free (suc attempts) port =
    let rest = find_port free attempts (port + 1) in if free port then some port else rest

unfoldable pub find_available_port : (ℕ → Bool) → ℕ → Option ℕ
unfolding find_port
find_available_port free start_port = find_port free 100 start_port

-- The first free port of the range, if there is one.
abbrev pub IsFirstFree : (ℕ → Bool) → ℕ → ℕ → Option ℕ → Type 0
IsFirstFree free start attempts none =
    (port : ℕ) → start ≤ port → port < start + attempts → free port ≡ false
IsFirstFree free start attempts (some found) =
    (start ≤ found)
    × (found < start + attempts)
    × (free found ≡ true)
    × ((port : ℕ) → start ≤ port → port < found → free port ≡ false)

-- A port that is not free is `start`, or lies behind it.
not_free-from :
    (free : ℕ → Bool) (start port : ℕ)
    → free start ≡ false
    → start ≤ port
    → (start + 1 ≤ port → free port ≡ false)
    → free port ≡ false
not_free-from free start port used lo behind = elim (ℕ_discrete start port) [
  | yes same ↦ ap free (sym same) ∙ used
  | no other ↦ behind (omega arith)
]

IsFirstFree-behind :
    (free : ℕ → Bool) (start attempts : ℕ) (o : Option ℕ)
    → free start ≡ false
    → IsFirstFree free (start + 1) attempts o
    → IsFirstFree free start (suc attempts) o
IsFirstFree-behind free start attempts none used h =
    λ port lo hi. not_free-from free start port used lo (λ lo'. h port lo' (omega arith))
IsFirstFree-behind free start attempts (some found) used h = (
  omega arith,
  omega arith,
  h.2,
  λ port lo hi. not_free-from free start port used lo (λ lo'. h.3 port lo' hi),
)

find_port-IsFirstFree :
    (free : ℕ → Bool) (attempts start : ℕ)
    → IsFirstFree free start attempts (find_port free attempts start)
unfolding find_port
find_port-IsFirstFree free zero start = λ port lo hi. absurd (omega arith)
find_port-IsFirstFree free (suc attempts) start = elim (Bool-cases (free start)) [
  | inl open_port ↦
      rw open_port (omega arith, omega arith, open_port, λ port lo hi. absurd (omega arith))
  | inr used ↦ rw used (
      IsFirstFree-behind free start attempts (find_port free attempts (start + 1)) used
        (find_port-IsFirstFree free attempts (start + 1)))
]

-- The port that is found is the first free one of the hundred from the start on, and none is found
-- only if none of them is free.
pub find_available_port-IsFirstFree :
    (free : ℕ → Bool) (start : ℕ) → IsFirstFree free start 100 (find_available_port free start)
unfolding find_available_port
find_available_port-IsFirstFree free start = find_port-IsFirstFree free 100 start

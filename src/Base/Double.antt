-- ===== src/Base/Double.antt =====
-- Natural numbers as a double holds them: the nearest one that has 53 significant bits, and of two
-- that are as near the one whose last bit is 0.
use Prim.Native.Nat.{ℕ, zero, suc, ◌*◌, ◌/◌, ◌%◌, ◌^◌, ◌<◌}
use mathlib.Core.Path.{◌≡◌}
use mathlib.Core.Bool.{true}
use native.Mathlib.Omega.{arith}
use my_shtty_pi_herdr_deck.Base.Tests.{if◌then◌else◌, ltb, eqb}

-- The distance of neighbours at `n`, a power of two from `g` on.
abbrev pub gap : ℕ → ℕ → ℕ → ℕ
gap zero g n = g
gap (suc fuel) g n = let wider = gap fuel (2 * g) n in if ltb n (g * 2 ^ 53) then g else wider

-- The nearest multiple of `g`.
abbrev pub round_to : ℕ → ℕ → ℕ
round_to g n =
    if ltb (2 * (n % g)) g
    then n / g * g
    else if ltb g (2 * (n % g))
    then suc (n / g) * g
    else if eqb (n / g % 2) 0
    then n / g * g
    else suc (n / g) * g

-- This serves up to 2 ^ 117, and a sum of the sizes in an array, which has less than 2 ^ 32 entries
-- of less than 2 ^ 53, is below 2 ^ 86.
unfoldable pub to_double : ℕ → ℕ
to_double n = round_to (gap 64 1 n) n

round_to-one : (n : ℕ) → round_to 1 n ≡ n
round_to-one n = ground arith

pub to_double-exact : (n : ℕ) → n < 2 ^ 53 → to_double n ≡ n
unfolding to_double
to_double-exact n h =
    let small : ltb n (1 * 2 ^ 53) ≡ true = ground (arith, h) in rw small (round_to-one n)

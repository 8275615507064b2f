-- ===== src/Prelude/Decimal.antt =====
-- `str(n)` of a number.
use Prim.Native.String.{String, ◌++◌, slice}
use Prim.Native.Nat.{ℕ, zero, suc, ◌+◌, ◌/◌, ◌%◌}
use mathlib.Core.Path.{◌≡◌, refl}
use scraper_v_hezzian.Prelude.Tests.{ltb, if◌then◌else◌}

digit : ℕ → String
digit n = slice "0123456789" n (n + 1)

-- A number has no more digits than its fuel, which is its value.
digits : ℕ → ℕ → String
unfolding digit
digits zero n = digit n
digits (suc fuel) n =
    let front = digits fuel (n / 10) in if ltb n 10 then digit n else front ++ digit (n % 10)

unfoldable pub decimal : ℕ → String
unfolding digits
decimal n = digits n n

two_digits : decimal 25 ≡ "25"
unfolding decimal
two_digits = refl

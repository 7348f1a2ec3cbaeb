-- ===== src/Prelude/Decimal.antt =====
-- A number as JavaScript writes it in a string.
use Prim.Native.Nat.{ℕ, zero, suc, ◌+◌, ◌/◌, ◌%◌}
use mathlib.Core.List.{[], ◌∷◌, ◌++◌}
use noblechat.Prelude.Tests.{ltb, if◌then◌else◌}
use noblechat.Prelude.Equal.{JsString}

-- A number in decimal digits
unfoldable pub digits_of : ℕ → ℕ → JsString
digits_of zero n = []
digits_of (suc fuel) n =
    let rest = digits_of fuel (n / 10) in
    if ltb n 10 then (48 + n) ∷ [] else rest ++ (48 + n % 10) ∷ []

abbrev pub decimal : ℕ → JsString
decimal n = digits_of (n + 1) n

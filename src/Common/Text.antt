-- ===== src/Common/Text.antt =====
-- Decimal print of an integer, as `%d` of `fmt.Sprintf` gives it.
use agent_collab.Common.Tests.{ltb, if◌then◌else◌}
use agent_collab.Common.Int.{ℤ, pos, negsuc}
use Prim.Native.Nat.{ℕ, zero, suc, ◌/◌, ◌%◌}
use Prim.Native.String.{String, ◌++◌}
use mathlib.Core.List.{List, [], ◌∷◌}

digits : List String
digits = "0" ∷ "1" ∷ "2" ∷ "3" ∷ "4" ∷ "5" ∷ "6" ∷ "7" ∷ "8" ∷ "9" ∷ []

nth_text : List String → ℕ → String
nth_text [] i = ""
nth_text (x ∷ xs) zero = x
nth_text (x ∷ xs) (suc i) = nth_text xs i

-- With `n` rounds for `n`, the fuel never runs out before the digits do.
show_from : ℕ → ℕ → String
unfolding digits nth_text
show_from zero n = nth_text digits (n % 10)
show_from (suc f) n =
    let front = show_from f (n / 10) in
    if ltb n 10 then nth_text digits n else front ++ nth_text digits (n % 10)

unfoldable pub show_ℕ : ℕ → String
unfolding show_from
show_ℕ n = show_from n n

unfoldable pub show_ℤ : ℤ → String
unfolding show_ℕ
show_ℤ (pos n) = show_ℕ n
show_ℤ (negsuc n) = "-" ++ show_ℕ (suc n)

-- ===== src/Common/Table.antt =====
-- A Go map with numbers as keys, as an association list.
use Prim.Native.Nat.{ℕ}
use mathlib.Core.Path.{◌≡◌, refl}
use mathlib.Core.Option.{Option, none, some}
use mathlib.Core.List.{List, [], ◌∷◌}
use native.Mathlib.Omega.{arith}
use agent_collab.Common.Tests.{if◌then◌else◌, ◌==◌}

abbrev pub Table {ℓ} : Type ℓ → Type ℓ
Table V = List (ℕ × V)

module _ {ℓ} {V : Type ℓ} where
  unfoldable pub find : ℕ → Table V → Option V
  find n [] = none
  find n ((m, x) ∷ rest) = if m == n then some x else find n rest

  unfoldable pub put : ℕ → V → Table V → Table V
  put n x [] = (n, x) ∷ []
  put n x ((m, y) ∷ rest) = if m == n then (n, x) ∷ rest else (m, y) ∷ put n x rest

  unfoldable pub erase : ℕ → Table V → Table V
  erase n [] = []
  erase n ((m, y) ∷ rest) = if m == n then erase n rest else (m, y) ∷ erase n rest

  pub find-put :
      (n k : ℕ) (x : V) (t : Table V) → find k (put n x t) ≡ (if n == k then some x else find k t)
  unfolding find put
  find-put n k x [] = refl
  find-put n k x ((m, y) ∷ rest) = ground (arith, find-put n k x rest)

  pub find-erase :
      (n k : ℕ) (t : Table V) → find k (erase n t) ≡ (if n == k then none else find k t)
  unfolding find erase
  find-erase n k [] = ground arith
  find-erase n k ((m, y) ∷ rest) = ground (arith, find-erase n k rest)

-- ===== src/Common/Dict.antt =====
-- A Go map with text keys, as an association list. Its order stands for the order in which one
-- `range` over the map happens to visit the entries.
use Prim.Native.String.{String}
use mathlib.Core.Path.{◌≡◌, refl}
use mathlib.Core.Logic.{◌⊎◌}
use mathlib.Core.Bool.{Bool, true, false}
use mathlib.Core.Option.{Option, none, some}
use mathlib.Core.List.{List, [], ◌∷◌}
use native.Mathlib.Omega.{arith}
use text.Mathlib.Text.{◌==◌ as str_eq}
use text.Mathlib.TextEquality.{eq_iff}
use agent_collab.Common.Tests.{if◌then◌else◌}
use agent_collab.Common.Lists.{In}

abbrev pub Dict {ℓ} : Type ℓ → Type ℓ
Dict V = List (String × V)

module _ {ℓ} {V : Type ℓ} where
  unfoldable pub lookup : String → Dict V → Option V
  lookup key [] = none
  lookup key ((k, x) ∷ rest) = if str_eq k key then some x else lookup key rest

  unfoldable pub insert : String → V → Dict V → Dict V
  insert key x [] = (key, x) ∷ []
  insert key x ((k, y) ∷ rest) =
      if str_eq k key then (key, x) ∷ rest else (k, y) ∷ insert key x rest

  unfoldable pub delete : String → Dict V → Dict V
  delete k [] = []
  delete k ((j, w) ∷ m) = if str_eq j k then delete k m else (j, w) ∷ delete k m

  abbrev pub values : Dict V → List V
  values [] = []
  values ((j, w) ∷ m) = w ∷ values m

  abbrev pub keys : Dict V → List String
  keys [] = []
  keys ((j, w) ∷ m) = j ∷ keys m

  -- A key is bound.
  unfoldable pub has : String → Dict V → Bool
  has k m = elim (lookup k m) [ none ↦ false | some _ ↦ true ]

  -- No key is bound twice, as in every Go map.
  abbrev pub IsDict : Dict V → Type ℓ
  IsDict [] = Unit
  IsDict ((j, w) ∷ m) = (lookup j m ≡ none) × IsDict m

  pub lookup-insert :
      (key other : String) (x : V) (d : Dict V)
      → lookup other (insert key x d) ≡ (if str_eq key other then some x else lookup other d)
  unfolding lookup insert
  lookup-insert key other x [] = refl
  lookup-insert key other x ((k, y) ∷ rest) =
      ground (arith, eq_iff k key, eq_iff k other, eq_iff key other, lookup-insert key other x rest)

  pub lookup-delete :
      (k j : String) (m : Dict V)
      → lookup j (delete k m) ≡ (if str_eq k j then none else lookup j m)
  unfolding lookup delete
  lookup-delete k j [] = ground arith
  lookup-delete k j ((i, w) ∷ m) =
      ground (arith, eq_iff k j, eq_iff i k, eq_iff i j, lookup-delete k j m)

module _ {V : Type 0} where
  pub lookup-In-values : (k : String) (v : V) (m : Dict V) → lookup k m ≡ some v → In v (values m)
  unfolding lookup
  lookup-In-values k v [] e = absurd (ground arith)
  lookup-In-values k v ((j, w) ∷ m) e = ground (arith, lookup-In-values k v m)

  pub lookup-In : (k : String) (v : V) (m : Dict V) → lookup k m ≡ some v → In (k, v) m
  unfolding lookup
  lookup-In k v [] e = absurd (ground arith)
  lookup-In k v ((j, w) ∷ m) e = ground (arith, eq_iff j k, lookup-In k v m)

  pub In-lookup : (k : String) (v : V) (m : Dict V) → IsDict m → In (k, v) m → lookup k m ≡ some v
  unfolding lookup
  In-lookup k v [] d e = elim e [ ]
  In-lookup k v ((j, w) ∷ m) d e = ground (arith, eq_iff j k, In-lookup k v m d.1)

  pub insert-IsDict : (k : String) (v : V) (m : Dict V) → IsDict m → IsDict (insert k v m)
  unfolding lookup insert
  insert-IsDict k v [] d = (refl, tt)
  insert-IsDict k v ((j, w) ∷ m) d =
      ground (arith, eq_iff j k, eq_iff k j, lookup-insert k j v m, insert-IsDict k v m d.1)

  pub delete-IsDict : (k : String) (m : Dict V) → IsDict m → IsDict (delete k m)
  unfolding lookup delete
  delete-IsDict k [] d = tt
  delete-IsDict k ((j, w) ∷ m) d =
      ground (arith, eq_iff k j, lookup-delete k j m, delete-IsDict k m d.1)

  pub In-insert :
      (k j : String) (v w : V) (m : Dict V)
      → In (j, w) (insert k v m)
      → ((j ≡ k) × (w ≡ v)) ⊎ In (j, w) m
  unfolding insert
  In-insert k j v w [] h = ground arith
  In-insert k j v w ((i, u) ∷ m) h = ground (arith, In-insert k j v w m)

  pub In-delete : (k j : String) (w : V) (m : Dict V) → In (j, w) (delete k m) → In (j, w) m
  unfolding delete
  In-delete k j w [] h = h
  In-delete k j w ((i, u) ∷ m) h = ground (arith, In-delete k j w m)

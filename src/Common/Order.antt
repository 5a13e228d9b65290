-- ===== src/Common/Order.antt =====
-- The order of texts, as Go's `<` on strings.
use Prim.Native.Nat.{ℕ, Ordering, compare as compare_ℕ}
use Prim.Native.Char.{code}
use Prim.Native.String.compare
use Prim.Native.String.{String, [], ◌∷◌, compare, then}
use mathlib.Core.Path.{◌≡◌, refl, ◌∙◌, ap, subst}
use mathlib.Core.Bool.{Bool, true, false}
use native.Mathlib.Omega.{arith}
use text.Mathlib.Text.{is_lt}
use text.Mathlib.TextEquality.{path_by_compare}

unfoldable pub text_lt : String → String → Bool
text_lt s t = is_lt (compare s t)

flips :
    (m n : ℕ) (p q : Ordering)
    → (is_lt p ≡ true → is_lt q ≡ false)
    → is_lt (then (compare_ℕ m n) p) ≡ true
    → is_lt (then (compare_ℕ n m) q) ≡ false
flips m n p q back h = ground (arith, back, h)

pub text_lt_asym : (s t : String) → text_lt s t ≡ true → text_lt t s ≡ false
unfolding text_lt
text_lt_asym [] [] h = refl
text_lt_asym [] (d ∷ t) h = rw (compare.cons-nil d t) refl
text_lt_asym (c ∷ s) [] h = absurd (ground (arith, h, compare.cons-nil c s))
text_lt_asym (c ∷ s) (d ∷ t) h = rw (compare.cons-cons d c t s) (
    flips (code c) (code d) (compare s t) (compare t s) (text_lt_asym s t)
      (subst (λ o. is_lt o ≡ true) (compare.cons-cons c d s t) h))

settles :
    (m n : ℕ) (p q : Ordering)
    → (is_lt p ≡ false → is_lt q ≡ false → p ≡ Ordering.eq)
    → is_lt (then (compare_ℕ m n) p) ≡ false
    → is_lt (then (compare_ℕ n m) q) ≡ false
    → then (compare_ℕ m n) p ≡ Ordering.eq
settles m n p q equal h k = ground (arith, equal, h, k)

not_less : (s t : String) → text_lt s t ≡ false → text_lt t s ≡ false → compare s t ≡ Ordering.eq
unfolding text_lt
not_less [] [] h k = refl
not_less [] (d ∷ t) h k = absurd (ground (arith, h, compare.nil-cons d t))
not_less (c ∷ s) [] h k = absurd (ground (arith, k, compare.nil-cons c s))
not_less (c ∷ s) (d ∷ t) h k =
    compare.cons-cons c d s t
    ∙ settles (code c) (code d) (compare s t) (compare t s) (not_less s t)
        (subst (λ o. is_lt o ≡ false) (compare.cons-cons c d s t) h)
        (subst (λ o. is_lt o ≡ false) (compare.cons-cons d c t s) k)

-- Texts of which neither is less are equal.
pub text_lt_total : (s t : String) → text_lt s t ≡ false → text_lt t s ≡ false → s ≡ t
text_lt_total s t h k = path_by_compare s t (not_less s t h k)

pub text_lt_same : (s t : String) → s ≡ t → text_lt s t ≡ false
text_lt_same s t e =
    ground (arith, text_lt_asym s t, ap (λ k. text_lt s k) e, ap (λ k. text_lt k s) e)

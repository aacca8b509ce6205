-- ===== src/Common/Order.antt =====
-- The order of texts (Go's `<` on strings): total, and transitive.
use Prim.Native.Nat.{ℕ, compare as compare_ℕ, Ordering}
use Prim.Native.Char.{code}
use Prim.Native.String.{◌∷◌, [], then, compare}
use Prim.Native.String.compare
use text.Mathlib.TextEquality.{path_by_compare}
use text.Mathlib.TextPositions.{compare_refl}
use mathlib.Core.Path.{◌≡◌}
use mathlib.Core.Bool.{Bool, true, false}
use native.Mathlib.Omega.{arith}
use Prim.Native.String.{String}

-- `s < t`
abbrev pub str_ltb : String → String → Bool
str_ltb s t = elim (compare s t) [ Ordering.lt ↦ true | _ ↦ false ]

then_trans :
    (a b c : ℕ) (x y z : Ordering)
    → then (compare_ℕ a b) x ≡ Ordering.lt
    → then (compare_ℕ b c) y ≡ Ordering.lt
    → (x ≡ Ordering.lt → y ≡ Ordering.lt → z ≡ Ordering.lt)
    → then (compare_ℕ a c) z ≡ Ordering.lt
then_trans a b c x y z h k f = ground arith

lt_trans :
    (s t u : String)
    → compare s t ≡ Ordering.lt
    → compare t u ≡ Ordering.lt
    → compare s u ≡ Ordering.lt
lt_trans [] [] [] h k = h
lt_trans [] (d ∷ t) [] h k = absurd (cc (rw compare.cons-nil at k))
lt_trans [] [] (e ∷ u) h k = k
lt_trans [] (d ∷ t) (e ∷ u) h k = compare.nil-cons e u
lt_trans (c ∷ s) [] u h k = absurd (cc (rw compare.cons-nil at h))
lt_trans (c ∷ s) (d ∷ t) [] h k = absurd (cc (rw compare.cons-nil at k))
lt_trans (c ∷ s) (d ∷ t) (e ∷ u) h k = rw compare.cons-cons (
    then_trans (code c) (code d) (code e) (compare s t) (compare t u) (compare s u)
      (rw compare.cons-cons at h) (rw compare.cons-cons at k) (lt_trans s t u))

then_swap :
    (a b : ℕ) (x y : Ordering)
    → then (compare_ℕ a b) x ≡ Ordering.gt
    → (x ≡ Ordering.gt → y ≡ Ordering.lt)
    → then (compare_ℕ b a) y ≡ Ordering.lt
then_swap a b x y h f = ground arith

gt_swap : (s t : String) → compare s t ≡ Ordering.gt → compare t s ≡ Ordering.lt
gt_swap [] [] h = absurd (cc (rw compare.nil-nil at h))
gt_swap [] (d ∷ t) h = absurd (cc (rw compare.nil-cons at h))
gt_swap (c ∷ s) [] h = compare.nil-cons c s
gt_swap (c ∷ s) (d ∷ t) h = rw compare.cons-cons (
    then_swap (code c) (code d) (compare s t) (compare t s) (rw compare.cons-cons at h)
      (gt_swap s t))

pub str_ltb_trans : (s t u : String) → str_ltb s t ≡ true → str_ltb t u ≡ true → str_ltb s u ≡ true
str_ltb_trans s t u h k = ground (arith, lt_trans s t u)

-- Of two texts neither of which is smaller, both are one.
pub str_ltb_antisym : (s t : String) → str_ltb s t ≡ false → str_ltb t s ≡ false → s ≡ t
str_ltb_antisym s t h k = ground (arith, gt_swap s t, path_by_compare s t)

pub str_ltb_irrefl : (s : String) → str_ltb s s ≡ false
str_ltb_irrefl s = ground (arith, compare_refl s)

-- `t ≤ s` and `u ≤ t` give `u ≤ s`, in terms of the test.
pub str_geb_trans :
    (s t u : String) → str_ltb s t ≡ false → str_ltb t u ≡ false → str_ltb s u ≡ false
str_geb_trans s t u h k = ground (arith, lt_trans s u t, gt_swap t u, path_by_compare t u)

-- ===== src/Common/Maps.antt =====
-- Go's `map[string]V` as an association list. The order of the entries stands for the order in
-- which a `range` loop meets them, which Go leaves open; every statement holds for each order.
use Prim.Native.String.{String}
use mathlib.Core.Path.{◌≡◌, refl}
use mathlib.Core.Logic.{◌≢◌}
use mathlib.Core.Bool.{false}
use mathlib.Core.Option.{Option, none, some}
use mathlib.Core.List.{List, [], ◌∷◌}
use native.Mathlib.Omega.{arith}
use text.Mathlib.Text.{◌==◌}
use text.Mathlib.TextEquality.{eq_iff}
use manglekit.Common.Tests.{if◌then◌else◌}

abbrev pub Map {ℓ} : Type ℓ → Type ℓ
Map V = List (String × V)

module _ {ℓ} {V : Type ℓ} where
  -- `v, ok := m[key]`
  unfoldable pub lookup : String → Map V → Option V
  lookup key [] = none
  lookup key ((k, v) ∷ m) = if k == key then some v else lookup key m

  -- `delete(m, key)`
  unfoldable pub remove : String → Map V → Map V
  remove key [] = []
  remove key ((k, v) ∷ m) = let rest = remove key m in if k == key then rest else (k, v) ∷ rest

  -- `m[key] = v`
  unfoldable pub insert : String → V → Map V → Map V
  insert key v [] = (key, v) ∷ []
  insert key v ((k, old) ∷ m) = if k == key then (k, v) ∷ m else (k, old) ∷ insert key v m

  pub lookup-insert :
      (key other : String) (v : V) (m : Map V)
      → lookup other (insert key v m) ≡ (if key == other then some v else lookup other m)
  unfolding lookup insert
  lookup-insert key other v [] = refl
  lookup-insert key other v ((k, old) ∷ m) =
      ground (arith, lookup-insert key other v m, eq_iff k key, eq_iff k other, eq_iff key other)

  pub lookup-remove :
      (key other : String) (m : Map V)
      → lookup other (remove key m) ≡ (if key == other then none else lookup other m)
  unfolding lookup remove
  lookup-remove key other [] = ground arith
  lookup-remove key other ((k, old) ∷ m) =
      ground (arith, lookup-remove key other m, eq_iff k key, eq_iff k other, eq_iff key other)

pub str_eq_false : (s t : String) → s ≢ t → (s == t) ≡ false
str_eq_false s t h = ground (arith, eq_iff s t)

pub str_ne : (s t : String) → (s == t) ≡ false → s ≢ t
str_ne s t h e = cc (h, (eq_iff s t).1 e)

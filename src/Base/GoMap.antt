-- ===== src/Base/GoMap.antt =====
-- A Go map with strings for keys, as an association list with one entry for each key. The program
-- ranges over a map in an order that the language leaves open: `RangeOrder` is that order.
pub mod Laws
pub mod Entries
pub mod Unique
use Prim.Native.Nat.{ℕ}
use mathlib.Core.Bool.{Bool, true, false}
use mathlib.Core.Option.{Option, none, some}
use mathlib.Core.List.{List, [], ◌∷◌, map, Perm}
use mathlib.Core.List.Perm
use frag_kv.Base.Tests.{if◌then◌else◌}
use frag_kv.Base.Text.{Str, str_eq}

abbrev pub GoMap {ℓ} : Type ℓ → Type ℓ
GoMap V = List (Str × V)

module _ {ℓ} {V : Type ℓ} where
  -- v, ok := m[k]
  unfoldable pub lookup : Str → GoMap V → Option V
  unfolding str_eq
  lookup k [] = none
  lookup k ((j, v) ∷ m) = if str_eq j k then some v else lookup k m

  -- m[k] = v
  unfoldable pub insert : Str → V → GoMap V → GoMap V
  unfolding str_eq
  insert k v [] = (k, v) ∷ []
  insert k v ((j, w) ∷ m) = if str_eq j k then (k, v) ∷ m else (j, w) ∷ insert k v m

  -- delete(m, k)
  unfoldable pub erase : Str → GoMap V → GoMap V
  unfolding str_eq
  erase k [] = []
  erase k ((j, w) ∷ m) = let rest = erase k m in if str_eq j k then rest else (j, w) ∷ rest

  -- *m[k] = f(*m[k]), where k is present
  unfoldable pub modify : Str → (V → V) → GoMap V → GoMap V
  unfolding str_eq
  modify k f [] = []
  modify k f ((j, w) ∷ m) = (if str_eq j k then (j, f w) else (j, w)) ∷ modify k f m

  -- *v = f(*v), for every value
  unfoldable pub map_values : (V → V) → GoMap V → GoMap V
  map_values f [] = []
  map_values f ((j, w) ∷ m) = (j, f w) ∷ map_values f m

  unfoldable pub keys : GoMap V → List Str
  keys m = map (λ e. e.0) m

  unfoldable pub values : GoMap V → List V
  values m = map (λ e. e.1) m

-- The order in which a range statement visits the entries of a map: some permutation.
pub record RangeOrder : Type 1 where
  pub range : (V : Type 0) → GoMap V → GoMap V
  pub range_perm : (V : Type 0) (m : GoMap V) → Perm (range V m) m

-- The order of the list itself.
abbrev pub listed : RangeOrder
listed = record { range = λ V m. m; range_perm = λ V m. Perm.refl m }

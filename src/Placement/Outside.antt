-- ===== src/Placement/Outside.antt =====
-- What internal/placement/placement.go takes from Go: float64, crypto/sha256 and sort.Slice.
use mathlib.Core.Path.{◌≡◌}
use mathlib.Core.Bool.{Bool, true, false}
use mathlib.Core.List.{List, Mem, Perm, Pairwise}
use Prim.Native.Nat.{ℕ}
use frag_kv.Base.{Str}
use frag_kv.Base.Int.{ℤ}

-- float64 with the operations that the scores use.
pub record Floats : Type 1 where
  pub Float : Type 0
  pub zero : Float
  pub half : Float
  pub one : Float
  pub of_int : ℤ → Float
  pub of_uint : ℕ → Float
  pub add : Float → Float → Float
  pub mul : Float → Float → Float
  pub div : Float → Float → Float
  pub lt : Float → Float → Bool

-- A comparison that sort.Slice can sort these elements by: a strict weak order on them.
pub record IsOrder {A : Type 0} (less : A → A → Bool) (xs : List A) : Type 0 where
  pub asymmetric : (a b : A) → Mem a xs → Mem b xs → less a b ≡ true → less b a ≡ false
  pub negatively_transitive :
      (a b c : A)
      → Mem a xs
      → Mem b xs
      → Mem c xs
      → less a b ≡ false
      → less b c ≡ false
      → less a c ≡ false

-- sort.Slice(xs, less): a permutation of the elements that `less` finds in order. Elements that tie
-- may come in any order.
pub record SortSlice : Type 1 where
  pub sort : (A : Type 0) → (A → A → Bool) → List A → List A
  pub sort_perm : (A : Type 0) (less : A → A → Bool) (xs : List A) → Perm (sort A less xs) xs
  pub sort_ordered :
      (A : Type 0) (less : A → A → Bool) (xs : List A)
      → IsOrder less xs
      → Pairwise (λ a b. less b a ≡ false) (sort A less xs)

-- sha256.Sum256
abbrev pub Sum256 : Type 0
Sum256 = Str → Str

-- ===== src/Placement.antt =====
-- internal/placement/placement.go: the strategies that choose nodes for a fragment.
pub mod Outside
pub mod Hashing
pub mod Scored
pub mod Ring
pub mod Insertion
pub mod Tests
use frag_kv.Base.{Str, ℕ, List}
use frag_kv.Base.Int.{ℤ}
use Outside.{Floats}

-- A storage node; a weight of zero means that none was set.
pub record Node (fl : Floats) : Type 0 where
  pub id : Str
  pub free_bytes : ℤ
  pub total_bytes : ℤ
  pub weight : fl.Float

-- The interface Placer: a fragment ID, the nodes, how many.
abbrev pub Placer : Floats → Type 0
Placer fl = Str → List (Node fl) → ℕ → List (Node fl)

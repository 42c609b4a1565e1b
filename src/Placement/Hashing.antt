-- ===== src/Placement/Hashing.antt =====
-- `hash32`, `hash64` and `nodeByID` of internal/placement/placement.go.
use frag_kv.Base.{Str, ℕ, ◌+◌, ◌*◌, List, [], ◌∷◌, take}
use frag_kv.Base.GoMap.{GoMap, insert}
use frag_kv.Placement.Outside.{Floats, Sum256}
use frag_kv.Placement.{Node}

-- binary.BigEndian of the first bytes, behind `n`.
unfoldable pub big_endian : ℕ → Str → ℕ
big_endian n [] = n
big_endian n (c ∷ s) = big_endian (n * 256 + c) s

unfoldable pub hash32 : Sum256 → Str → ℕ
unfolding big_endian
hash32 sum s = big_endian 0 (take 4 (sum s))

unfoldable pub hash64 : Sum256 → Str → ℕ
unfolding big_endian
hash64 sum s = big_endian 0 (take 8 (sum s))

unfoldable pub add_nodes : (fl : Floats) → GoMap (Node fl) → List (Node fl) → GoMap (Node fl)
add_nodes fl m [] = m
add_nodes fl m (n ∷ ns) = add_nodes fl (insert n.id n m) ns

unfoldable pub node_by_id : (fl : Floats) → List (Node fl) → GoMap (Node fl)
unfolding add_nodes
node_by_id fl ns = add_nodes fl [] ns

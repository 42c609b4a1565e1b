-- ===== src/Placement/Ring.antt =====
-- `ConsistentHash` of internal/placement/placement.go: a walk round the ring of virtual nodes.
pub mod Search
pub mod Walk
use frag_kv.Base.{
  Str, ℕ, zero, suc, ◌++◌, ◌+◌, ◌%◌, ◌/◌, List, [], ◌∷◌, length, min, Bool, true, false,
  if◌then◌else◌, ltb, leb, str_eq, get_elem?, none, some,
}
use frag_kv.Base.Decimal.{itoa}
use frag_kv.Base.GoMap.{GoMap, lookup}
use frag_kv.Placement.Outside.{Floats, SortSlice, Sum256}
use frag_kv.Placement.{Node}
use frag_kv.Placement.Hashing.{hash32, node_by_id}

-- ringEntry
pub record RingEntry : Type 0 where
  pub hash : ℕ
  pub node_id : Str

-- The number of virtual nodes: `VNodes`, or 150 if it is not set.
unfoldable pub virtual_nodes : ℕ → ℕ
virtual_nodes zero = 150
virtual_nodes (suc v) = suc v

module _ (sum : Sum256) where
  -- The entries of one node, from its virtual node `i` on.
  unfoldable pub entries_of : Str → ℕ → ℕ → List RingEntry
  entries_of nid zero i = []
  entries_of nid (suc left) i =
      record { hash = hash32 sum (nid ++ b'#' ∷ itoa i); node_id = nid }
      ∷ entries_of nid left (i + 1)

  unfoldable pub all_entries : (fl : Floats) → ℕ → List (Node fl) → List RingEntry
  unfolding entries_of
  all_entries fl vn [] = []
  all_entries fl vn (nd ∷ nds) = entries_of nd.id vn 0 ++ all_entries fl vn nds

-- ring[i].hash < ring[j].hash
abbrev pub before : RingEntry → RingEntry → Bool
before a b = ltb a.hash b.hash

unfoldable pub hash_at : List RingEntry → ℕ → ℕ
hash_at ring i = elim (get_elem? ring i) [ none ↦ 0 | some e ↦ e.hash ]

-- sort.Search over [i, j): the binary search of package sort, on fuel above j - i.
unfoldable pub search_from : List RingEntry → ℕ → ℕ → ℕ → ℕ → ℕ
unfolding hash_at
search_from ring fh zero i j = i
search_from ring fh (suc fuel) i j =
    let h = (i + j) / 2 in
    let right = search_from ring fh fuel (h + 1) j in
    let left = search_from ring fh fuel i h in
    let next = if leb fh (hash_at ring h) then left else right in if ltb i j then next else i

unfoldable pub contains : List Str → Str → Bool
contains [] a = false
contains (x ∷ xs) a = if str_eq x a then true else contains xs a

-- The loop over `i`: `seen` holds the IDs chosen so far, the last one first.
unfoldable pub walk : List RingEntry → ℕ → ℕ → ℕ → ℕ → List Str → List Str
unfolding contains
walk ring start n zero i seen = seen
walk ring start n (suc fuel) i seen = elim (ltb (length seen) n) [
  | false ↦ seen
  | true ↦ elim (get_elem? ring ((start + i) % length ring)) [
    | none ↦ seen
    | some e ↦
        (let seen' = if contains seen e.node_id then seen else e.node_id ∷ seen in
          elim (leb (length ring) i) [
            | true ↦ seen'
            | false ↦ walk ring start n fuel (i + 1) seen'
          ])
  ]
]

-- The nodes of the IDs, in the order in which they were chosen.
unfoldable pub nodes_of :
    (fl : Floats) → GoMap (Node fl) → List Str → List (Node fl) → List (Node fl)
nodes_of fl m [] acc = acc
nodes_of fl m (nid ∷ nids) acc = elim (lookup nid m) [
  | none ↦ nodes_of fl m nids acc
  | some nd ↦ nodes_of fl m nids (nd ∷ acc)
]

-- ConsistentHash.Place. The loop ends by its test or its break within one round more than the ring
-- has entries.
unfoldable pub consistent_hash :
    (fl : Floats) → SortSlice → Sum256 → ℕ → Str → List (Node fl) → ℕ → List (Node fl)
unfolding virtual_nodes
consistent_hash fl sorter sum vnodes fragment_id nodes n =
    let n' = min n (length nodes) in
    let ring = sorter.sort RingEntry before (all_entries sum fl (virtual_nodes vnodes) nodes) in
    let start = search_from ring (hash32 sum fragment_id) (length ring + 1) 0 (length ring) in
    nodes_of fl (node_by_id fl nodes) (walk ring start n' (length ring + 1) 0 []) []

-- ===== src/Placement/Ring/Walk.antt =====
-- The walk of `ConsistentHash.Place` in internal/placement/placement.go: which nodes it chooses.
use frag_kv.Base.{
  Str, ℕ, zero, suc, ◌+◌, ◌%◌, ◌≤◌, ◌<◌, ◌≡◌, refl, sym, ap, ◌∙◌, subst, List, [], ◌∷◌, map, some,
  false, arith, length, min, ltb, leb, Bool-cases, Option-cases, inl, inr, get_elem?, All, str_eq,
  str_eq_iff, if◌then◌else◌,
}
use mathlib.Core.Option.{some-injective}
use frag_kv.Base.GoMap.{GoMap, lookup, insert}
use frag_kv.Base.GoMap.Laws.{lookup-insert, lookup-nil}
use frag_kv.Placement.{Node}
use frag_kv.Placement.Outside.{Floats, SortSlice, Sum256}
use frag_kv.Placement.Hashing.{hash32, add_nodes, node_by_id}
use frag_kv.Placement.Ring.{
  RingEntry, before, contains, walk, nodes_of, consistent_hash, all_entries, virtual_nodes,
  search_from,
}

-- No ID stands twice in the list.
abbrev pub Distinct : List Str → Type 0
Distinct [] = Unit
Distinct (x ∷ xs) = (contains xs x ≡ false) × Distinct xs

module _ (ring : List RingEntry) (start n : ℕ) where
  grown : Str → List Str → List Str
  grown x seen = if contains seen x then seen else x ∷ seen

  grown-Distinct :
      (x : Str) (seen : List Str)
      → Distinct seen
      → length seen < n
      → Distinct (grown x seen) × (length (grown x seen) ≤ n)
  unfolding grown
  grown-Distinct x seen d few = elim (Bool-cases (contains seen x)) [
    | inl known ↦ rw known (d, omega arith)
    | inr fresh ↦ rw fresh ((fresh, d), few)
  ]

  walk-Distinct :
      (fuel i : ℕ) (seen : List Str)
      → Distinct seen
      → length seen ≤ n
      → Distinct (walk ring start n fuel i seen) × (length (walk ring start n fuel i seen) ≤ n)
  unfolding walk grown
  walk-Distinct zero i seen d few = (d, few)
  walk-Distinct (suc fuel) i seen d few = elim (Bool-cases (ltb (length seen) n)) [
    | inr full ↦ rw (walk, full) (d, few)
    | inl room ↦ elim (Option-cases (get_elem? ring ((start + i) % length ring))) [
      | inl outside ↦ rw (walk, room, outside) (d, few)
      | inr (e, found) ↦
          let next = grown-Distinct e.node_id seen d (ground arith) in
          elim (Bool-cases (leb (length ring) i)) [
            | inl last ↦ rw (walk, room, found, last) next
            | inr more ↦ rw (walk, room, found, more) (walk-Distinct fuel (i + 1) _ next.0 next.1)
          ]
    ]
  ]

-- Every node of the map stands under its ID.
AreNamed : (fl : Floats) → GoMap (Node fl) → Type 0
AreNamed fl m = (k : Str) (nd : Node fl) → lookup k m ≡ some nd → nd.id ≡ k

add_nodes-AreNamed :
    (fl : Floats) (m : GoMap (Node fl)) (ns : List (Node fl))
    → AreNamed fl m
    → AreNamed fl (add_nodes fl m ns)
unfolding add_nodes AreNamed
add_nodes-AreNamed fl m [] named = named
add_nodes-AreNamed fl m (n ∷ ns) named = add_nodes-AreNamed fl (insert n.id n m) ns (λ k nd h.
    elim (Bool-cases (str_eq n.id k)) [
      | inl same ↦
          let is_n : n ≡ nd =
            some-injective _ _ (rw same at (sym (lookup-insert n.id k n m) ∙ h)) in
          ap (λ x. x.id) (sym is_n) ∙ (str_eq_iff n.id k).0 same
      | inr other ↦ named k nd (rw other at (sym (lookup-insert n.id k n m) ∙ h))
    ])

node_by_id-AreNamed : (fl : Floats) (ns : List (Node fl)) → AreNamed fl (node_by_id fl ns)
unfolding node_by_id AreNamed
node_by_id-AreNamed fl ns =
    add_nodes-AreNamed fl [] ns (λ k nd h. absurd (cc (h, lookup-nil {V = Node fl} k)))

-- None of the IDs is in the list.
abbrev Apart : List Str → List Str → Type 0
Apart chosen ids = All (λ a. contains ids a ≡ false) chosen

Apart-nil : (chosen : List Str) → Apart chosen []
unfolding contains
Apart-nil [] = tt
Apart-nil (x ∷ chosen) = (refl, Apart-nil chosen)

Apart-cons :
    (x : Str) (chosen ids : List Str)
    → contains chosen x ≡ false
    → Apart chosen ids
    → Apart chosen (x ∷ ids)
unfolding contains
Apart-cons x [] ids fresh apart = tt
Apart-cons x (y ∷ chosen) ids fresh (here, apart) =
    (ground (arith, str_eq_iff x y, str_eq_iff y x), Apart-cons x chosen ids (ground arith) apart)

module _ (fl : Floats) (m : GoMap (Node fl)) (named : AreNamed fl m) where
  nodes_of-Distinct :
      (chosen : List Str) (acc : List (Node fl))
      → Distinct chosen
      → Distinct (map (λ nd. nd.id) acc)
      → Apart chosen (map (λ nd. nd.id) acc)
      → Distinct (map (λ nd. nd.id) (nodes_of fl m chosen acc))
        × (length (nodes_of fl m chosen acc) ≤ length chosen + length acc)
  unfolding nodes_of AreNamed
  nodes_of-Distinct [] acc d da apart = (da, omega arith)
  nodes_of-Distinct (x ∷ chosen) acc (fresh, d) da (here, apart) =
      elim (Option-cases (lookup x m)) [
        | inl missing ↦
            let later = nodes_of-Distinct chosen acc d da apart in
            rw (nodes_of, missing) (later.0, omega (arith, later.1))
        | inr (nd, found) ↦
            let is_x = named x nd found in
            let later =
              nodes_of-Distinct chosen (nd ∷ acc) d
                (subst (λ i. contains (map (λ nd. nd.id) acc) i ≡ false) (sym is_x) here, da)
                (subst (λ i. Apart chosen (i ∷ map (λ nd. nd.id) acc)) (sym is_x)
                  (Apart-cons x chosen _ fresh apart)) in
            rw (nodes_of, found) (later.0, omega (arith, later.1))
      ]

-- Whatever the hashes and the number of virtual nodes, and with any ties on the ring, consistent hashing
-- places a fragment on nodes with different IDs, on at most as many as are asked for and as there are.
pub consistent_hash_bounds :
    (fl : Floats) (sorter : SortSlice) (sum : Sum256) (vnodes : ℕ) (fragment_id : Str)
    (nodes : List (Node fl)) (n : ℕ)
    → Distinct (map (λ nd. nd.id) (consistent_hash fl sorter sum vnodes fragment_id nodes n))
      × (length (consistent_hash fl sorter sum vnodes fragment_id nodes n) ≤ min n (length nodes))
unfolding consistent_hash
consistent_hash_bounds fl sorter sum vnodes fragment_id nodes n =
    let ring = sorter.sort RingEntry before (all_entries sum fl (virtual_nodes vnodes) nodes) in
    let start = search_from ring (hash32 sum fragment_id) (length ring + 1) 0 (length ring) in
    let (distinct, few) =
      walk-Distinct ring start (min n (length nodes)) (length ring + 1) 0 [] tt (omega arith) in
    let chosen = walk ring start (min n (length nodes)) (length ring + 1) 0 [] in
    let placed =
      nodes_of-Distinct fl (node_by_id fl nodes) (node_by_id-AreNamed fl nodes) chosen [] distinct
        tt (Apart-nil chosen) in
    (placed.0, omega (arith, placed.1, few))

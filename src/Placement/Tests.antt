-- ===== src/Placement/Tests.antt =====
-- Runs of the strategies of internal/placement/placement.go, with natural numbers for floats and the
-- text itself for its SHA-256.
use frag_kv.Base.{
  Str, ℕ, ◌+◌, ◌*◌, ◌/◌, ◌≡◌, ◌≤◌, refl, min, length, List, [], ◌∷◌, Bool, true, false, arith, ltb,
  Perm, codes, map,
}
use frag_kv.Base.Int.{ℤ, pos, negsuc}
use frag_kv.Placement.{Node}
use frag_kv.Placement.Outside.{Floats, Sum256}
use frag_kv.Placement.Insertion.{by_insertion}
use frag_kv.Placement.Scored.{rendezvous, random_part}
use frag_kv.Placement.Scored.Top.{AreComparable, IsTop, left_out, rendezvous-IsTop}
use frag_kv.Placement.Ring.{RingEntry, before, all_entries, search_from, consistent_hash}
use frag_kv.Placement.Ring.Search.{Divides, search_from-sorted}
use frag_kv.Placement.Ring.Walk.{Distinct, consistent_hash_bounds}
use frag_kv.Placement.Hashing.{hash32}

abbrev magnitude : ℤ → ℕ
magnitude (pos n) = n
magnitude (negsuc n) = 0

abbrev pub whole_numbers : Floats
whole_numbers = record {
  Float = ℕ;
  zero = 0;
  half = 0;
  one = 1;
  of_int = magnitude;
  of_uint = λ n. n;
  add = λ m n. m + n;
  mul = λ m n. m * n;
  div = λ m n. m;
  lt = ltb;
}

abbrev pub plain_sum : Sum256
plain_sum s = s

abbrev node_named : ℕ → ℕ → Node whole_numbers
node_named c free = record { id = c ∷ []; free_bytes = pos free; total_bytes = pos 9; weight = 0 }

abbrev three_nodes : List (Node whole_numbers)
three_nodes = node_named 3 5 ∷ node_named 9 2 ∷ node_named 5 7 ∷ []

ltb_comparable :
    (score : Node whole_numbers → ℕ) (nodes : List (Node whole_numbers))
    → AreComparable whole_numbers score nodes
ltb_comparable score nodes = record {
  asymmetric = λ a b _ _ h. ground arith;
  negatively_transitive = λ a b c _ _ _ hab hbc. ground arith;
}

rendezvous-IsTop_example :
    IsTop whole_numbers
      (random_part whole_numbers plain_sum (codes "k/0"))
      three_nodes
      2
      (rendezvous whole_numbers by_insertion plain_sum (codes "k/0") three_nodes 2)
      (left_out whole_numbers by_insertion
        (random_part whole_numbers plain_sum (codes "k/0"))
        three_nodes
        2)
rendezvous-IsTop_example =
    rendezvous-IsTop whole_numbers by_insertion plain_sum (codes "k/0") three_nodes 2
      (ltb_comparable (random_part whole_numbers plain_sum (codes "k/0")) three_nodes)

-- Rendezvous takes the greatest hashes, here those of the nodes 9 and 5.
rendezvous_runs :
    map (λ nd. nd.id) (rendezvous whole_numbers by_insertion plain_sum (codes "k") three_nodes 2)
    ≡ (9 ∷ []) ∷ (5 ∷ []) ∷ []
unfolding rendezvous by_insertion random_part frag_kv.Placement.Hashing.hash64
rendezvous_runs = refl

consistent_hash_runs :
    map
      (λ nd. nd.id)
      (consistent_hash whole_numbers by_insertion plain_sum 2 (codes "k") three_nodes 5)
    ≡ (3 ∷ []) ∷ (5 ∷ []) ∷ (9 ∷ []) ∷ []
unfolding consistent_hash by_insertion frag_kv.Placement.Ring.nodes_of frag_kv.Placement.Ring.walk
    frag_kv.Placement.Ring.all_entries frag_kv.Placement.Hashing.hash32 frag_kv.Base.Decimal.itoa
    frag_kv.Placement.Ring.search_from frag_kv.Base.str_eq frag_kv.Base.GoMap.lookup
    frag_kv.Placement.Hashing.node_by_id frag_kv.Base.GoMap.insert
consistent_hash_runs = refl

search_from-sorted_example :
    Divides
      (by_insertion.sort RingEntry before (all_entries plain_sum whole_numbers 2 three_nodes))
      (hash32 plain_sum (codes "k/0"))
      (search_from
        (by_insertion.sort RingEntry before (all_entries plain_sum whole_numbers 2 three_nodes))
        (hash32 plain_sum (codes "k/0"))
        (length
            (by_insertion.sort RingEntry before (all_entries plain_sum whole_numbers 2 three_nodes))
          + 1)
        0
        (length
          (by_insertion.sort RingEntry before (all_entries plain_sum whole_numbers 2 three_nodes))))
search_from-sorted_example =
    search_from-sorted by_insertion (all_entries plain_sum whole_numbers 2 three_nodes)
      (hash32 plain_sum (codes "k/0"))

consistent_hash_bounds_example :
    Distinct (
      map
        (λ nd. nd.id)
        (consistent_hash whole_numbers by_insertion plain_sum 2 (codes "k/0") three_nodes 2))
    × (length (consistent_hash whole_numbers by_insertion plain_sum 2 (codes "k/0") three_nodes 2)
        ≤ min 2 (length three_nodes))
consistent_hash_bounds_example =
    consistent_hash_bounds whole_numbers by_insertion plain_sum 2 (codes "k/0") three_nodes 2

-- ===== src/Placement/Ring/Search.antt =====
-- The search of `ConsistentHash.Place` in internal/placement/placement.go on a sorted ring.
use mathlib.Core.List.{Pairwise, Mem, mem-cons_self, mem-cons_of_mem}
use frag_kv.Base.{
  ℕ, zero, suc, ◌+◌, ◌/◌, ◌≤◌, ◌<◌, ◌≡◌, refl, List, [], ◌∷◌, false, arith, length, ltb, leb,
  leb→le, Bool-cases, inl, inr, get_elem?, some,
}
use frag_kv.Placement.Outside.{SortSlice, IsOrder}
use frag_kv.Placement.Ring.{RingEntry, before, hash_at, search_from}

-- The hashes do not decrease along the ring.
abbrev pub IsSorted : List RingEntry → Type 0
IsSorted ring = (a b : ℕ) → a ≤ b → b < length ring → hash_at ring a ≤ hash_at ring b

module _ (ring : List RingEntry) (fh : ℕ) where
  -- The position divides the ring: the hashes before it are below the fragment's, the others are not.
  pub record Divides (r : ℕ) : Type 0 where
    pub within : r ≤ length ring
    pub below : (k : ℕ) → k < r → hash_at ring k < fh
    pub above : (k : ℕ) → r ≤ k → k < length ring → fh ≤ hash_at ring k

  search_from-Divides :
      (fuel i j : ℕ)
      → IsSorted ring
      → i ≤ j
      → j ≤ length ring
      → j < i + fuel
      → ((k : ℕ) → k < i → hash_at ring k < fh)
      → ((k : ℕ) → j ≤ k → k < length ring → fh ≤ hash_at ring k)
      → Divides (search_from ring fh fuel i j)
  unfolding search_from
  search_from-Divides zero i j sorted le fits fuel below above = absurd (omega arith)
  search_from-Divides (suc fuel) i j sorted le fits enough below above =
      elim (Bool-cases (ltb i j)) [
        | inr stop ↦
            let same : i ≡ j = ground arith in
            rw (search_from, stop)
              (record {
                within = omega arith;
                below = below;
                above = λ k h l. above k (omega arith) l;
              })
        | inl go ↦
            let h = (i + j) / 2 in
            let lt : i < j = ground arith in
            elim (Bool-cases (leb fh (hash_at ring h))) [
              | inl at_or_above ↦
                  rw (search_from, go, at_or_above)
                    (search_from-Divides fuel i h sorted (omega arith) (omega arith) (omega arith)
                      below
                      (λ k le' lk.
                        omega (arith, sorted h k le' lk, leb→le fh (hash_at ring h) at_or_above)))
              | inr under ↦
                  rw (search_from, go, under)
                    (search_from-Divides fuel (h + 1) j sorted (omega arith) fits (omega arith)
                      (λ k lk. ground (arith, sorted k h (omega arith) (omega arith), under)) above)
            ]
      ]

mem_at :
    (ring : List RingEntry) (k : ℕ)
    → k < length ring
    → (e : RingEntry) × (get_elem? ring k ≡ some e) × Mem e ring
mem_at [] k h = absurd (omega arith)
mem_at (e ∷ ring) zero h = (e, refl, mem-cons_self)
mem_at (e ∷ ring) (suc k) h =
    let (f, at, mem) = mem_at ring k (omega arith) in (f, at, mem-cons_of_mem e mem)

ordered-IsSorted :
    (ring : List RingEntry) → Pairwise (λ a b. before b a ≡ false) ring → IsSorted ring
unfolding hash_at
ordered-IsSorted [] p a b le lt = absurd (omega arith)
ordered-IsSorted (e ∷ ring) (Pairwise.cons first p) zero zero le lt = omega arith
ordered-IsSorted (e ∷ ring) (Pairwise.cons first p) zero (suc b) le lt =
    let (f, at, mem) = mem_at ring b (omega arith) in rw (hash_at, at) (ground (arith, first f mem))
ordered-IsSorted (e ∷ ring) (Pairwise.cons first p) (suc a) zero le lt = absurd (omega arith)
ordered-IsSorted (e ∷ ring) (Pairwise.cons first p) (suc a) (suc b) le lt =
    ordered-IsSorted ring p a b (omega arith) (omega arith)

-- The comparison of hashes can be sorted by.
before-IsOrder : (ring : List RingEntry) → IsOrder before ring
before-IsOrder ring = record {
  asymmetric = λ a b _ _ h. ground arith;
  negatively_transitive = λ a b c _ _ _ h k. ground arith;
}

-- On a ring that sort.Slice has put in order of the hashes, whatever it does with ties, the binary search
-- ends, and its result divides the ring: all hashes before it are below the fragment's hash, and none
-- from it on is. It is the length of the ring where all are below.
pub search_from-sorted :
    (sorter : SortSlice) (entries : List RingEntry) (fh : ℕ)
    → Divides (sorter.sort RingEntry before entries) fh (
        search_from
          (sorter.sort RingEntry before entries)
          fh
          (length (sorter.sort RingEntry before entries) + 1)
          0
          (length (sorter.sort RingEntry before entries)))
search_from-sorted sorter entries fh =
    let ring = sorter.sort RingEntry before entries in
    let sorted =
      ordered-IsSorted ring
        (sorter.sort_ordered RingEntry before entries (before-IsOrder entries)) in
    search_from-Divides ring fh (length ring + 1) 0 (length ring) sorted (omega arith) (omega arith)
      (omega arith) (λ k h. absurd (omega arith)) (λ k h l. absurd (omega arith))

-- ===== src/Placement/Scored.antt =====
-- `Rendezvous` and `Weighted` of internal/placement/placement.go: the nodes with the best scores.
pub mod Top
use frag_kv.Base.{
  Str, ℕ, ◌++◌, ◌+◌, List, [], ◌∷◌, map, codes, take, length, min, Bool, true, false, if◌then◌else◌,
}
use frag_kv.Base.Int.{ℤ, pos, ◌+ℤ◌, ltb_ℤ}
use frag_kv.Placement.Outside.{Floats, SortSlice, Sum256}
use frag_kv.Placement.{Node}
use frag_kv.Placement.Hashing.{hash64}

-- math.MaxUint64
abbrev pub max_uint64 : ℕ
max_uint64 = 18446744073709551615

module _ (fl : Floats) where
  pub record Scored : Type 0 where
    pub score : fl.Float
    pub node : Node fl

  -- scores[i].score > scores[j].score
  abbrev pub better : Scored → Scored → Bool
  better a b = fl.lt b.score a.score

  -- The scores sorted from the best on, and the nodes of the first n, where n is at most their number.
  unfoldable pub top : SortSlice → (Node fl → fl.Float) → List (Node fl) → ℕ → List (Node fl)
  top sorter score nodes n =
      let n' = min n (length nodes) in
      let scores = map (λ nd. record { score = score nd; node = nd }) nodes in
      map (λ s. s.node) (take n' (sorter.sort Scored better scores))

  -- The hash of a node and a fragment, as a float in [0, 1].
  unfoldable pub random_part : Sum256 → Str → Node fl → fl.Float
  random_part sum fragment_id nd =
      fl.div (fl.of_uint (hash64 sum (nd.id ++ codes "|" ++ fragment_id))) (fl.of_uint max_uint64)

  -- Rendezvous.Place
  unfoldable pub rendezvous : SortSlice → Sum256 → Str → List (Node fl) → ℕ → List (Node fl)
  unfolding top
  rendezvous sorter sum fragment_id nodes n = top sorter (random_part sum fragment_id) nodes n

  unfoldable pub total_free : ℤ → List (Node fl) → ℤ
  total_free total [] = total
  total_free total (nd ∷ nds) = total_free (total +ℤ nd.free_bytes) nds

  unfoldable pub weight_factor : ℤ → ℕ → Node fl → fl.Float
  weight_factor total count nd =
      if fl.lt fl.zero nd.weight
      then nd.weight
      else if ltb_ℤ (pos 0) total
      then fl.div (fl.of_int nd.free_bytes) (fl.of_int total)
      else fl.div fl.one (fl.of_int (pos count))

  -- Weighted.Place
  unfoldable pub weighted_score : Sum256 → Str → List (Node fl) → Node fl → fl.Float
  unfolding weight_factor random_part
  weighted_score sum fragment_id nodes nd =
      fl.mul (weight_factor (total_free (pos 0) nodes) (length nodes) nd)
        (fl.add fl.half (fl.mul fl.half (random_part sum fragment_id nd)))

  unfoldable pub weighted : SortSlice → Sum256 → Str → List (Node fl) → ℕ → List (Node fl)
  unfolding top
  weighted sorter sum fragment_id nodes n =
      top sorter (weighted_score sum fragment_id nodes) nodes n

-- ===== src/Placement/Scored/Top.antt =====
-- What `Rendezvous` and `Weighted` of internal/placement/placement.go choose.
use mathlib.Core.Bool.{Bool-set}
use mathlib.Core.List.{
  Mem, Pairwise, Pairwise-append, map-append, map-map, map-id, mem-map, mem-append_left,
  mem-append_right,
}
use mathlib.Core.List.Perm
use mathlib.Core.Logic.{∥∥₁_elim, ∥∥₁_map}
use mathlib.Core.Path.{subst₂, subst₃}
use frag_kv.Base.{
  Str, ℕ, ◌≡◌, sym, ap, ◌∙◌, subst, ◌++◌, List, map, take, drop, length, length-map, length-take,
  min, length-perm, map-perm, All_of_mem, true, false, arith, Perm, All, take-append-drop,
}
use frag_kv.Placement.Outside.{Floats, SortSlice, Sum256, IsOrder}
use frag_kv.Placement.{Node}
use frag_kv.Placement.Scored.{
  Scored, better, top, rendezvous, weighted, random_part, weighted_score,
}

module _ (fl : Floats) where
  -- The scores of some nodes can be sorted: none of them is NaN.
  pub record AreComparable (score : Node fl → fl.Float) (nodes : List (Node fl)) : Type 0 where
    pub asymmetric :
        (a b : Node fl)
        → Mem a nodes
        → Mem b nodes
        → fl.lt (score a) (score b) ≡ true
        → fl.lt (score b) (score a) ≡ false
    pub negatively_transitive :
        (a b c : Node fl)
        → Mem a nodes
        → Mem b nodes
        → Mem c nodes
        → fl.lt (score a) (score b) ≡ false
        → fl.lt (score b) (score c) ≡ false
        → fl.lt (score a) (score c) ≡ false

  -- A choice of the best: with those left out it makes up the nodes, it has as many of them as were
  -- asked for or as there are, and none left out has a better score than one chosen.
  pub record IsTop (score : Node fl → fl.Float) (nodes : List (Node fl)) (n : ℕ)
      (chosen rest : List (Node fl)) : Type 0 where
    pub divides : Perm (chosen ++ rest) nodes
    pub counts : length chosen ≡ min n (length nodes)
    pub best : All (λ a. All (λ b. fl.lt (score a) (score b) ≡ false) rest) chosen

  module _ (sorter : SortSlice) (score : Node fl → fl.Float) (nodes : List (Node fl)) where
    abbrev with_score : Node fl → Scored fl
    with_score nd = record { score = score nd; node = nd }

    abbrev sorted : List (Scored fl)
    sorted = sorter.sort (Scored fl) (better fl) (map with_score nodes)

    -- A sorted element is a node of the input with its score.
    sorted_origin :
        (s : Scored fl) → Mem s sorted → ∥ ((nd : Node fl) × Mem nd nodes × (with_score nd ≡ s)) ∥₁
    sorted_origin s m = mem-map.0 ((Perm.mem_iff (sorter.sort_perm _ _ _)).0 m)

    score_of : (s : Scored fl) → Mem s sorted → ∥ (s.score ≡ score s.node) ∥₁
    score_of s m = ∥∥₁_map (sorted_origin s m) (λ (nd, _, e).
        sym (ap (λ (t : Scored fl). t.score) e) ∙ ap (λ (t : Scored fl). score t.node) e)

    scores_IsOrder : AreComparable score nodes → IsOrder (better fl) (map with_score nodes)
    scores_IsOrder c = record {
      asymmetric = λ s t ms mt hst. ∥∥₁_elim (mem-map.0 ms) (Bool-set _ _) λ (x, mx, ex).
          ∥∥₁_elim (mem-map.0 mt) (Bool-set _ _) λ (y, my, ey).
            subst₂ (λ (a b : Scored fl). better fl a b ≡ true → better fl b a ≡ false) ex ey
              (c.asymmetric y x my mx) hst;
      negatively_transitive = λ s t u ms mt mu hst htu.
          ∥∥₁_elim (mem-map.0 ms) (Bool-set _ _) λ (x, mx, ex).
            ∥∥₁_elim (mem-map.0 mt) (Bool-set _ _) λ (y, my, ey).
              ∥∥₁_elim (mem-map.0 mu) (Bool-set _ _) λ (z, mz, ez).
                subst₃
                  (λ (a b d : Scored fl).
                    better fl a b ≡ false → better fl b d ≡ false → better fl a d ≡ false)
                  ex ey ez (λ hxy hyz. c.negatively_transitive z y x mz my mx hyz hxy) hst htu;
    }

    abbrev asked : ℕ → ℕ
    asked n = min n (length nodes)

    -- The sorted elements divide into those taken and those left.
    divided : (n : ℕ) → take (asked n) sorted ++ drop (asked n) sorted ≡ sorted
    divided n = take-append-drop (asked n) sorted

    map_nodes : map (λ (s : Scored fl). s.node) (map with_score nodes) ≡ nodes
    map_nodes = map-map (λ (s : Scored fl). s.node) with_score nodes ∙ map-id nodes

    taken_before_left :
        (n : ℕ) (s t : Scored fl)
        → AreComparable score nodes
        → Mem s (take (asked n) sorted)
        → Mem t (drop (asked n) sorted)
        → fl.lt s.score t.score ≡ false
    taken_before_left n s t c ms mt =
        let ordered = sorter.sort_ordered _ (better fl) _ (scores_IsOrder c) in
        let split = subst (Pairwise (λ a b. better fl b a ≡ false)) (sym (divided n)) ordered in
        ((Pairwise-append (λ a b. Bool-set _ _)).0 split).2 s ms t mt

    node_before_left :
        (n : ℕ) (s t : Scored fl)
        → AreComparable score nodes
        → Mem s (take (asked n) sorted)
        → Mem t (drop (asked n) sorted)
        → fl.lt (score s.node) (score t.node) ≡ false
    node_before_left n s t c ms mt =
        let s_sorted = subst (Mem s) (divided n) (mem-append_left _ ms) in
        let t_sorted = subst (Mem t) (divided n) (mem-append_right _ mt) in
        ∥∥₁_elim (score_of s s_sorted) (Bool-set _ _) λ es.
          ∥∥₁_elim (score_of t t_sorted) (Bool-set _ _)
            λ et. rw (← es, ← et) (taken_before_left n s t c ms mt)

    -- The nodes that are not chosen.
    pub left_out : ℕ → List (Node fl)
    left_out n = map (λ s. s.node) (drop (min n (length nodes)) sorted)

    -- `top` chooses the best.
    pub top-IsTop :
        (n : ℕ)
        → AreComparable score nodes
        → IsTop score nodes n (top fl sorter score nodes n) (left_out n)
    unfolding top left_out
    top-IsTop n c = record {
      divides =
          subst (λ xs. Perm xs nodes)
            (map-append (λ (s : Scored fl). s.node) (take (asked n) sorted) (drop (asked n) sorted))
            (rw (divided n) (
              subst (Perm (map (λ (s : Scored fl). s.node) sorted)) map_nodes (
                map-perm (λ (s : Scored fl). s.node)
                  (sorter.sort_perm _ (better fl) (map with_score nodes)))));
      counts =
          length-map (λ (s : Scored fl). s.node) (take (asked n) sorted)
          ∙ length-take (asked n) sorted
          ∙ omega (
            arith,
            length-perm (sorter.sort_perm _ (better fl) (map with_score nodes)),
            length-map with_score nodes,
          );
      best = All_of_mem (top fl sorter score nodes n) λ a ma. All_of_mem (left_out n) λ b mb.
          ∥∥₁_elim (mem-map.0 ma) (Bool-set _ _) λ (s, ms, es).
            ∥∥₁_elim (mem-map.0 mb) (Bool-set _ _)
              λ (t, mt, et). rw (← es, ← et) (node_before_left n s t c ms mt);
    }

module _ (fl : Floats) (sorter : SortSlice) (sum : Sum256) (f : Str) (nodes : List (Node fl))
    (n : ℕ) where
  -- `Rendezvous` chooses the nodes with the greatest hashes with the fragment: n of them, or all if
  -- there are fewer, each node as often as it is listed, if none of the hashes is NaN as a float.
  pub rendezvous-IsTop :
      AreComparable fl (random_part fl sum f) nodes
      → IsTop fl
          (random_part fl sum f)
          nodes
          n
          (rendezvous fl sorter sum f nodes n)
          (left_out fl sorter (random_part fl sum f) nodes n)
  unfolding rendezvous
  rendezvous-IsTop c = top-IsTop fl sorter (random_part fl sum f) nodes n c

  -- `Weighted` chooses the nodes with the greatest weighted scores: n of them, or all if there are
  -- fewer, each node as often as it is listed, if none of the scores is NaN.
  pub weighted-IsTop :
      AreComparable fl (weighted_score fl sum f nodes) nodes
      → IsTop fl
          (weighted_score fl sum f nodes)
          nodes
          n
          (weighted fl sorter sum f nodes n)
          (left_out fl sorter (weighted_score fl sum f nodes) nodes n)
  unfolding weighted
  weighted-IsTop c = top-IsTop fl sorter (weighted_score fl sum f nodes) nodes n c

-- ===== src/Metadata/Workers/Live.antt =====
-- `liveMap` of internal/metadata/workers.go: the nodes that are up, under their IDs.
use mathlib.Core.Bool.{Bool-set}
use mathlib.Core.List.{Mem, mem-cons, not-mem-nil}
use mathlib.Core.List.Perm
use mathlib.Core.Logic.Or
use frag_kv.Base.{
  Str, ◌≡◌, sym, List, [], ◌∷◌, some, true, false, arith, All, All_of_mem, map-perm, Perm,
  str_eq_iff, Bool-cases, inl, inr,
}
use frag_kv.Base.GoMap.{GoMap, RangeOrder, lookup, insert, keys}
use frag_kv.Base.GoMap.Laws.{lookup-nil, lookup-insert}
use frag_kv.Metadata.Types.{NodeInfo, is_up}
use frag_kv.Metadata.Workers.{live_map, add_live, is_some, contains, without}

-- A map whose values are nodes that are up, under their IDs.
pub record IsLive (m : GoMap NodeInfo) : Type 0 where
  pub at : (id : Str) (n : NodeInfo) → lookup id m ≡ some n → (n.id ≡ id) × (is_up n.status ≡ true)

insert-IsLive :
    (m : GoMap NodeInfo) (n : NodeInfo)
    → is_up n.status ≡ true
    → IsLive m
    → IsLive (insert n.id n m)
insert-IsLive m n up h = record {
  at = λ id x p. ground (arith, lookup-insert n.id id n m, str_eq_iff n.id id, h.at id x);
}

add_live-IsLive : (m : GoMap NodeInfo) (ns : List NodeInfo) → IsLive m → IsLive (add_live m ns)
unfolding add_live
add_live-IsLive m [] h = h
add_live-IsLive m (n ∷ ns) h = elim (Bool-cases (is_up n.status)) [
  | inl yes_up ↦ rw yes_up (add_live-IsLive (insert n.id n m) ns (insert-IsLive m n yes_up h))
  | inr not_up ↦ rw not_up (add_live-IsLive m ns h)
]

pub live_map-IsLive : (ns : List NodeInfo) → IsLive (live_map ns)
unfolding live_map
live_map-IsLive ns =
    add_live-IsLive [] ns (record { at = λ id n p. absurd (cc (p, lookup-nil {V = NodeInfo} id)) })

-- A key of a map is found in it.
key_found : {V : Type 0} (k : Str) (m : GoMap V) → Mem k (keys m) → is_some (lookup k m) ≡ true
unfolding keys lookup
key_found k [] h = absurd (not-mem-nil h)
key_found k ((j, v) ∷ m) h =
    Or.elim (Bool-set _ _) (mem-cons.0 h) (λ e. rw ((str_eq_iff j k).1 (sym e)))
      (λ later. ground (arith, key_found k m later))

ranged_key_found :
    (order : RangeOrder) (m : GoMap NodeInfo)
    → All (λ k. is_some (lookup k m) ≡ true) (keys (order.range NodeInfo m))
ranged_key_found order m =
    All_of_mem _ λ k h. key_found k m ((Perm.mem_iff (keys_perm order m)).0 h)
  where
    keys_perm : (o : RangeOrder) (n : GoMap NodeInfo) → Perm (keys (o.range NodeInfo n)) (keys n)
    keys_perm o n = unfold keys in map-perm (λ e. e.0) (o.range_perm NodeInfo n)

-- A live node that holds no replica.
abbrev pub IsCandidate : List Str → GoMap NodeInfo → Str → Type 0
IsCandidate replicas live c = (contains replicas c ≡ false) × (is_some (lookup c live) ≡ true)

without-IsCandidate :
    (replicas : List Str) (live : GoMap NodeInfo) (ids : List Str)
    → All (λ c. is_some (lookup c live) ≡ true) ids
    → All (IsCandidate replicas live) (without replicas ids)
unfolding without
without-IsCandidate replicas live [] h = tt
without-IsCandidate replicas live (id ∷ ids) (here, later) =
    elim (Bool-cases (contains replicas id)) [
      | inl old ↦ rw old (without-IsCandidate replicas live ids later)
      | inr fresh ↦ rw fresh ((fresh, here), without-IsCandidate replicas live ids later)
    ]

-- The candidates of recovery, in whatever order the map is ranged over.
pub candidates-IsCandidate :
    (order : RangeOrder) (replicas : List Str) (live : GoMap NodeInfo)
    → All (IsCandidate replicas live) (without replicas (keys (order.range NodeInfo live)))
candidates-IsCandidate order replicas live =
    without-IsCandidate replicas live _ (ranged_key_found order live)

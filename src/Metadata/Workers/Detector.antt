-- ===== src/Metadata/Workers/Detector.antt =====
-- The failure detector of internal/metadata/workers.go: one tick on a leader.
use mathlib.Core.Option
use frag_kv.Base.{
  suc, ◌+◌, ap₂, arith, ltb, Str, ℕ, ◌≡◌, refl, ap, ◌∙◌, List, [], ◌∷◌, Option, none, some, Bool,
  true, false, ◌&&◌, ◌||◌, str_eq, if◌then◌else◌, Bool-cases, inl, inr,
}
use frag_kv.Base.Codec.{Codec}
use frag_kv.Base.GoMap.{RangeOrder}
use frag_kv.Base.Int.{ℤ, pos, negsuc, ltb_ℤ, sub_ℕ}
use frag_kv.Metadata.Setup.{Config, Raft}
use frag_kv.Metadata.Types.{
  NodeInfo, NodeStatus, Catalog, Command, unset, up, down, draining, other, is_up,
}
use frag_kv.Metadata.Fsm.{get_node, list_nodes}
use frag_kv.Metadata.Store.Updates.{leading, node_life, set_status_down}
use frag_kv.Metadata.Workers.{is_stale, mark_stale, detect, failure_detector_tick}

-- A node that is up and was last heard of longer ago than the threshold.
abbrev pub is_alive : NodeStatus → Bool
is_alive unset = false
is_alive up = true
is_alive down = false
is_alive draining = false
is_alive (other s) = false

abbrev pub silent : ℕ → ℤ → ℕ → Bool
silent now (pos d) seen = ltb (seen + d) now
silent now (negsuc d) seen = ltb seen (now + suc d)

abbrev pub overdue : ℕ → ℤ → NodeInfo → Bool
overdue now threshold n = is_alive n.status && silent now threshold n.last_seen

alive_up : (t : NodeStatus) → is_up t ≡ is_alive t
unfolding is_up
alive_up unset = refl
alive_up up = refl
alive_up down = refl
alive_up draining = refl
alive_up (other s) = refl

silent_longer :
    (now : ℕ) (threshold : ℤ) (seen : ℕ)
    → ltb_ℤ threshold (sub_ℕ now seen) ≡ silent now threshold seen
silent_longer now (pos d) seen = ground arith
silent_longer now (negsuc d) seen = ground arith

stale_overdue :
    (now : ℕ) (threshold : ℤ) (n : NodeInfo) → is_stale now threshold n ≡ overdue now threshold n
unfolding is_stale
stale_overdue now threshold n =
    ap₂ ◌&&◌ (alive_up n.status) (silent_longer now threshold n.last_seen)

-- There is an overdue node with the ID `j` among these.
abbrev pub overdue_in : (Str → ℕ) → ℤ → Str → List NodeInfo → Bool
overdue_in clock threshold j [] = false
overdue_in clock threshold j (n ∷ ns) =
    overdue (clock n.id) threshold n && str_eq n.id j || overdue_in clock threshold j ns

abbrev pub down_if : Bool → Option NodeInfo → Option NodeInfo
down_if false o = o
down_if true none = none
down_if true (some n) = some (record n { status = down })

down_if_twice : (a b : Bool) (o : Option NodeInfo) → down_if a (down_if b o) ≡ down_if (b || a) o
down_if_twice false false o = refl
down_if_twice true false o = refl
down_if_twice false true o = refl
down_if_twice true true none = refl
down_if_twice true true (some n) = refl

if_down_if :
    (b : Bool) (o : Option NodeInfo) → (if b then Option.map set_status_down o else o) ≡ down_if b o
if_down_if false o = refl
if_down_if true none = refl
if_down_if true (some n) = refl

module _ (json : Codec Command) (threshold : ℤ) where
  marked_node :
      (now : ℕ) (n : NodeInfo) (s : Catalog) (j : Str)
      → get_node j (mark_stale json leading now threshold n s)
        ≡ down_if (overdue now threshold n && str_eq n.id j) (get_node j s)
  unfolding mark_stale
  marked_node now n s j =
      let same = stale_overdue now threshold n in
      elim (Bool-cases (overdue now threshold n)) [
        | inl late ↦
            rw (mark_stale, same, late)
              ((node_life json s n now (pos 0) (pos 0) j).2
                ∙ if_down_if (str_eq n.id j) (get_node j s))
        | inr fresh ↦ rw (mark_stale, same, fresh) refl
      ]

  get_node-detect :
      (clock : Str → ℕ) (ns : List NodeInfo) (s : Catalog) (j : Str)
      → get_node j (detect json (λ _. leading) clock threshold ns s)
        ≡ down_if (overdue_in clock threshold j ns) (get_node j s)
  unfolding detect
  get_node-detect clock [] s j = refl
  get_node-detect clock (n ∷ ns) s j =
      get_node-detect clock ns _ j
      ∙ ap (down_if (overdue_in clock threshold j ns)) (marked_node (clock n.id) n s j)
      ∙ down_if_twice (overdue_in clock threshold j ns)
          (overdue (clock n.id) threshold n && str_eq n.id j) (get_node j s)

-- One tick of the failure detector that nothing comes between, on a leader whose marks Raft applies, sets
-- down exactly the nodes whose ID is that of a listed node that is up and was last heard of longer than
-- the threshold before the clock is looked at for it, in whatever order it visits them, and changes
-- nothing else of them; every other node is as it was. On a node that does not lead a tick changes
-- nothing.
pub failure_detector_tick_exact :
    (json : Codec Command) (order : RangeOrder) (cfg : Config) (clock : Str → ℕ) (s : Catalog)
    → ((j : Str)
        → get_node j (failure_detector_tick json order cfg true (λ _. leading) clock s)
          ≡ down_if (overdue_in clock cfg.dead_threshold j (list_nodes order s)) (get_node j s))
      × ((raft : Str → Raft) → failure_detector_tick json order cfg false raft clock s ≡ s)
unfolding failure_detector_tick
failure_detector_tick_exact json order cfg clock s =
    (get_node-detect json cfg.dead_threshold clock (list_nodes order s) s, λ raft. refl)

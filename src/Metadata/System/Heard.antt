-- ===== src/Metadata/System/Heard.antt =====
-- What the metadata service of internal/metadata knows of one storage node: that it is registered, up,
-- and was heard of at some time or later.
use mathlib.Core.Bool.{Bool-set}
use mathlib.Core.List.{Mem, mem-cons, not-mem-nil}
use mathlib.Core.List.Perm
use mathlib.Core.Logic.Or
use frag_kv.Base.{
  Str, ℕ, ◌≤◌, ◌≡◌, ◌≢◌, refl, sym, ◌∙◌, subst, [], ◌∷◌, some, false, ◌&&◌, arith, map-perm, Perm,
  str_eq, str_eq_iff, Bool-cases, inl, inr,
}
use frag_kv.Base.Codec.{Codec}
use frag_kv.Base.GoMap.{GoMap, RangeOrder, values}
use frag_kv.Base.GoMap.Entries.{AllEntries, AllEntries-insert, AllEntries-modify, AllEntries-lookup}
use frag_kv.Base.Int.{ℤ, sub_ℕ, ltb_ℤ}
use frag_kv.Metadata.Types.{
  NodeInfo, Catalog, Command, up, is_up, bare, commit_key, delete_key, register_node, heartbeat,
  mark_node_down,
}
use frag_kv.Metadata.Fsm.{apply_command, apply_log, get_node, list_nodes, set_down, refresh}
use frag_kv.Metadata.Fsm.Lookups.{node_stays_apply}
use frag_kv.Metadata.Store.{bare_node}
use frag_kv.Metadata.Workers.{is_stale}
use frag_kv.Metadata.System.Kept.{Relation, Allows, AllowsEntries, AllowsMark, AllowsMoves}

pub decoded :
    (json : Codec Command) (cmd : Command) (s : Catalog)
    → (apply_log json (json.marshal cmd) s).0 ≡ apply_command cmd s
unfolding apply_log
decoded json cmd s = rw (apply_log, json.unmarshal-marshal cmd) refl

-- A node under its own ID.
abbrev pub IsNamed : Str → NodeInfo → Type 0
IsNamed k n = n.id ≡ k

module _ (id : Str) where
  -- A node under its own ID; if it is the one in question, it is up and was heard of at `heard` or later.
  abbrev pub IsFresh : ℕ → Str → NodeInfo → Type 0
  IsFresh heard k n = IsNamed k n × (k ≡ id → (n.status ≡ up) × (heard ≤ n.last_seen))

  pub record IsHeard (heard : ℕ) (s : Catalog) : Type 0 where
    pub registered : (n : NodeInfo) × (get_node id s ≡ some n)
    pub fresh : AllEntries (IsFresh heard) s.nodes

  pub IsHeard-up :
      (heard : ℕ) (s : Catalog)
      → IsHeard heard s
      → (n : NodeInfo) × (get_node id s ≡ some n) × (n.status ≡ up) × (heard ≤ n.last_seen)
  unfolding get_node
  IsHeard-up heard s h =
      let (n, found) = h.registered in
      let (live, recent) = (AllEntries-lookup (IsFresh heard) id n s.nodes h.fresh found).1 refl in
      (n, found, live, recent)

  -- A heartbeat of the node is heard of.
  pub beat-IsHeard :
      (now : ℕ) (n : NodeInfo) (s : Catalog)
      → n.id ≡ id
      → n.last_seen ≡ now
      → (m : NodeInfo) × (get_node id s ≡ some m)
      → AllEntries IsNamed s.nodes
      → IsHeard now (apply_command (record (bare heartbeat) { node = some n }) s)
  unfolding apply_command
  beat-IsHeard now n s ours at_now (m, found) named = record {
    registered = node_stays_apply (record (bare heartbeat) { node = some n }) s id m found;
    fresh =
        AllEntries-modify IsNamed (IsFresh now) n.id (refresh n) s.nodes
          (λ v good. (good, λ e. (refl, omega (arith, at_now))))
          (λ j v other good. (good, λ e. absurd (other (e ∙ sym ours)))) named;
  }

  module _ (now : ℕ) (threshold : ℤ) (heard : ℕ)
      (in_time : ltb_ℤ threshold (sub_ℕ now heard) ≡ false) where
    fresh_not_stale :
        (k : Str) (n : NodeInfo)
        → IsFresh heard k n
        → (is_stale now threshold n && str_eq n.id id) ≡ false
    unfolding is_stale is_up
    fresh_not_stale k n (named, live) = elim (Bool-cases (str_eq n.id id)) [
      | inr other ↦ ground (arith, other)
      | inl same ↦
          let (is_live, recent) = live (sym named ∙ (str_eq_iff n.id id).0 same) in
          ground (arith, in_time, recent)
    ]

    value_not_stale :
        (m : GoMap NodeInfo) (n : NodeInfo)
        → AllEntries (IsFresh heard) m
        → Mem n (values m)
        → (is_stale now threshold n && str_eq n.id id) ≡ false
    unfolding values
    value_not_stale [] n h member = absurd (not-mem-nil member)
    value_not_stale ((k, v) ∷ m) n (here, later) member =
        Or.elim (Bool-set _ _) (mem-cons.0 member)
          (λ e.
            subst (λ x. (is_stale now threshold x && str_eq x.id id) ≡ false) (sym e)
              (fresh_not_stale k v here))
          (λ rest. value_not_stale m n later rest)

    listed_not_stale :
        (order : RangeOrder) (s : Catalog) (n : NodeInfo)
        → AllEntries (IsFresh heard) s.nodes
        → Mem n (list_nodes order s)
        → (is_stale now threshold n && str_eq n.id id) ≡ false
    unfolding list_nodes
    listed_not_stale order s n h member =
        value_not_stale s.nodes n h ((Perm.mem_iff (values_perm order s.nodes)).0 member)
      where
        values_perm :
            (o : RangeOrder) (m : GoMap NodeInfo) → Perm (values (o.range NodeInfo m)) (values m)
        values_perm o m = unfold values in map-perm (λ e. e.1) (o.range_perm NodeInfo m)

  -- What was known of the node is known after it.
  abbrev pub staying : ℕ → Relation
  staying heard = record {
    Rel = λ s t. IsHeard heard s → IsHeard heard t;
    same = λ s h. h;
    after = λ s t u first later h. later (first h);
  }

  module _ (json : Codec Command) (heard : ℕ) where
    by_command :
        (cmd : Command)
        → ((s : Catalog)
            → AllEntries (IsFresh heard) s.nodes
            → AllEntries (IsFresh heard) (apply_command cmd s).nodes)
        → Allows json (staying heard) cmd
    by_command cmd keeps s h =
        let (n, found) = h.registered in
        subst (IsHeard heard) (sym (decoded json cmd s))
          (record { registered = node_stays_apply cmd s id n found; fresh = keeps s h.fresh })

    -- A heartbeat, of this node at `heard` or later.
    pub Allows-beat :
        (n : NodeInfo)
        → (n.id ≡ id → heard ≤ n.last_seen)
        → Allows json (staying heard) (record (bare heartbeat) { node = some n })
    unfolding apply_command
    Allows-beat n later = by_command _ λ s h.
        AllEntries-modify (IsFresh heard) (IsFresh heard) n.id (refresh n) s.nodes
          (λ v good. (good.0, λ e. (refl, later e))) (λ j v other good. good) h

    -- The mark of another node.
    pub Allows-mark :
        (k : Str)
        → k ≢ id
        → Allows json (staying heard) (record (bare mark_node_down) { node = some (bare_node k) })
    unfolding apply_command
    Allows-mark k other = by_command _ λ s h.
        AllEntries-modify (IsFresh heard) (IsFresh heard) k set_down s.nodes
          (λ v good. (good.0, λ e. absurd (other e))) (λ j v apart good. good) h

    -- A registration, of this node if it is up at `heard` or later.
    pub Allows-registration :
        (n : NodeInfo)
        → (n.id ≡ id → (n.status ≡ up) × (heard ≤ n.last_seen))
        → Allows json (staying heard) (record (bare register_node) { node = some n })
    unfolding apply_command
    Allows-registration n live =
        by_command _ λ s h. AllEntries-insert (IsFresh heard) n.id n s.nodes (refl, live) h

    -- The commands on keys.
    pub Allows-entries : (key : Str) → AllowsEntries json (staying heard) key
    unfolding apply_command
    Allows-entries key e named = by_command _ λ s h. h

    pub Allows-commit :
        (key : Str) → Allows json (staying heard) (record (bare commit_key) { key = key })
    unfolding apply_command
    Allows-commit key = by_command _ λ s h. h

    pub Allows-delete :
        (key : Str) → Allows json (staying heard) (record (bare delete_key) { key = key })
    unfolding apply_command
    Allows-delete key = by_command _ λ s h. h

    pub Allows-moves : AllowsMoves json (staying heard)
    unfolding apply_command
    Allows-moves fragment_id ids = by_command _ λ s h. h

    -- The mark of a node that was listed when the node was last heard of at `before`, at a time within
    -- the threshold of that.
    pub Allows-seen :
        (order : RangeOrder) (now : ℕ) (threshold : ℤ) (before : ℕ) (s : Catalog) (n : NodeInfo)
        → ltb_ℤ threshold (sub_ℕ now before) ≡ false
        → IsHeard before s
        → Mem n (list_nodes order s)
        → AllowsMark json (staying heard) now threshold n
    Allows-seen order now threshold before s n in_time h member stale =
        let fresh = listed_not_stale now threshold before in_time order s n h.fresh member in
        Allows-mark n.id (λ e. absurd (cc (fresh, stale, (str_eq_iff n.id id).1 e)))

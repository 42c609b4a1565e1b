-- ===== src/Metadata/Fsm/Lookups.antt =====
-- What `Apply` of internal/metadata/fsm.go does to each key and each node.
use mathlib.Core.Option
use frag_kv.Base.{
  Str, ◌≡◌, refl, ◌∙◌, List, [], ◌∷◌, map, Option, none, some, true, str_eq, if◌then◌else◌, arith,
  Option-cases, inl, inr,
}
use frag_kv.Base.Codec.{Codec}
use frag_kv.Base.GoMap.Laws.{lookup-insert, lookup-erase, lookup-modify, lookup-map_values}
use frag_kv.Fragment.{Info}
use frag_kv.Metadata.Types.{
  NodeInfo, KeyEntry, Catalog, CmdType, Command, put_key, commit_key, delete_key, register_node,
  heartbeat, mark_node_down, update_fragment, unknown, up, down,
}
use frag_kv.Metadata.Fsm.{
  commit_entry, refresh, set_down, move_fragments, move_fragment, apply_command, apply_log, replay,
  get_key, get_node,
}

-- What a command makes of the entry of key `k`, from the entry that it had.
abbrev pub put_at : Str → Option KeyEntry → Option KeyEntry → Option KeyEntry
put_at k none old = old
put_at k (some e) old = if str_eq e.key k then some e else old

-- The entry with its mark, and the entry whose fragments with this ID have other nodes.
abbrev pub with_mark : KeyEntry → KeyEntry
with_mark e = record e { committed = true }

abbrev pub with_nodes : Str → List Str → KeyEntry → KeyEntry
with_nodes fragment_id node_ids e = record e {
  fragments =
      map (λ (f : Info). if str_eq f.id fragment_id then record f { node_ids = node_ids } else f)
        e.fragments;
}

abbrev pub key_after : CmdType → Command → Str → Option KeyEntry → Option KeyEntry
key_after put_key cmd k old = put_at k cmd.entry old
key_after commit_key cmd k old = if str_eq cmd.key k then Option.map with_mark old else old
key_after delete_key cmd k old = if str_eq cmd.key k then none else old
key_after update_fragment cmd k old = Option.map (with_nodes cmd.fragment_id cmd.node_ids) old
key_after _ cmd k old = old

-- The same of the node `i`.
abbrev pub register_at : Str → Option NodeInfo → Option NodeInfo → Option NodeInfo
register_at i none old = old
register_at i (some n) old = if str_eq n.id i then some n else old

abbrev pub change_at :
    (NodeInfo → NodeInfo → NodeInfo) → Str → Option NodeInfo → Option NodeInfo → Option NodeInfo
change_at f i none old = old
change_at f i (some n) old = if str_eq n.id i then Option.map (f n) old else old

-- The node as it was seen, and the node taken down.
abbrev pub seen_as : NodeInfo → NodeInfo → NodeInfo
seen_as seen n = record n {
  last_seen = seen.last_seen;
  used_bytes = seen.used_bytes;
  total_bytes = seen.total_bytes;
  status = up;
}

abbrev pub taken_down : NodeInfo → NodeInfo → NodeInfo
taken_down sent n = record n { status = down }

abbrev pub node_after : CmdType → Command → Str → Option NodeInfo → Option NodeInfo
node_after register_node cmd i old = register_at i cmd.node old
node_after heartbeat cmd i old = change_at seen_as i cmd.node old
node_after mark_node_down cmd i old = change_at taken_down i cmd.node old
node_after _ cmd i old = old

module _ (cmd : Command) (s : Catalog) where
  key_by_type :
      (t : CmdType) (o : Option KeyEntry) (n : Option NodeInfo) (k : Str)
      → get_key k (apply_command (record cmd { type = t; entry = o; node = n }) s)
        ≡ key_after t (record cmd { type = t; entry = o; node = n }) k (get_key k s)
  unfolding apply_command get_key move_fragments move_fragment
  key_by_type put_key none n k = refl
  key_by_type put_key (some e) n k = lookup-insert e.key k e s.keys
  key_by_type commit_key o n k = lookup-modify cmd.key k commit_entry s.keys
  key_by_type delete_key o n k = lookup-erase cmd.key k s.keys
  key_by_type register_node o none k = refl
  key_by_type register_node o (some n) k = refl
  key_by_type heartbeat o none k = refl
  key_by_type heartbeat o (some n) k = refl
  key_by_type mark_node_down o none k = refl
  key_by_type mark_node_down o (some n) k = refl
  key_by_type update_fragment o n k =
      lookup-map_values k (move_fragments cmd.fragment_id cmd.node_ids) s.keys
  key_by_type (unknown t) o n k = refl

  node_by_type :
      (t : CmdType) (o : Option KeyEntry) (n : Option NodeInfo) (i : Str)
      → get_node i (apply_command (record cmd { type = t; entry = o; node = n }) s)
        ≡ node_after t (record cmd { type = t; entry = o; node = n }) i (get_node i s)
  unfolding apply_command get_node
  node_by_type put_key none n i = refl
  node_by_type put_key (some e) n i = refl
  node_by_type commit_key o n i = refl
  node_by_type delete_key o n i = refl
  node_by_type register_node o none i = refl
  node_by_type register_node o (some n) i = lookup-insert n.id i n s.nodes
  node_by_type heartbeat o none i = refl
  node_by_type heartbeat o (some n) i = lookup-modify n.id i (refresh n) s.nodes
  node_by_type mark_node_down o none i = refl
  node_by_type mark_node_down o (some n) i = lookup-modify n.id i set_down s.nodes
  node_by_type update_fragment o n i = refl
  node_by_type (unknown t) o n i = refl

  -- Every command acts on each key and on each node for itself: what is read of a key after it depends
  -- on the command and on what was read of that key before, as `key_after` lists it by the type of the
  -- command, and so for nodes by `node_after`.
  pub apply_pointwise :
      ((k : Str) → get_key k (apply_command cmd s) ≡ key_after cmd.type cmd k (get_key k s))
      × ((i : Str) → get_node i (apply_command cmd s) ≡ node_after cmd.type cmd i (get_node i s))
  apply_pointwise =
      (key_by_type cmd.type cmd.entry cmd.node, node_by_type cmd.type cmd.entry cmd.node)

register_at-some :
    (i : Str) (o : Option NodeInfo) (n : NodeInfo)
    → (m : NodeInfo) × (register_at i o (some n) ≡ some m)
register_at-some i none n = (n, refl)
register_at-some i (some x) n = (if str_eq x.id i then x else n, ground arith)

change_at-some :
    (f : NodeInfo → NodeInfo → NodeInfo) (i : Str) (o : Option NodeInfo) (n : NodeInfo)
    → (m : NodeInfo) × (change_at f i o (some n) ≡ some m)
change_at-some f i none n = (n, refl)
change_at-some f i (some x) n = (if str_eq x.id i then f x n else n, ground arith)

node_after-some :
    (cmd : Command) (t : CmdType) (i : Str) (n : NodeInfo)
    → (m : NodeInfo) × (node_after t cmd i (some n) ≡ some m)
node_after-some cmd register_node i n = register_at-some i cmd.node n
node_after-some cmd heartbeat i n = change_at-some seen_as i cmd.node n
node_after-some cmd mark_node_down i n = change_at-some taken_down i cmd.node n
node_after-some cmd _ i n = (n, refl)

-- A node that was read before a command is read after it, whatever the command.
pub node_stays_apply :
    (cmd : Command) (s : Catalog) (i : Str) (n : NodeInfo)
    → get_node i s ≡ some n
    → (m : NodeInfo) × (get_node i (apply_command cmd s) ≡ some m)
node_stays_apply cmd s i n h =
    let (m, e) = node_after-some cmd cmd.type i n in (m, (apply_pointwise cmd s).1 i ∙ rw h e)

-- A node that is registered stays so: no log, whatever its entries, removes a node.
pub node_never_removed :
    (json : Codec Command) (log : List Str) (s : Catalog) (i : Str) (n : NodeInfo)
    → get_node i s ≡ some n
    → (m : NodeInfo) × (get_node i (replay json log s) ≡ some m)
unfolding replay
node_never_removed json [] s i n h = (n, h)
node_never_removed json (entry ∷ log) s i n h = elim (Option-cases (json.unmarshal entry)) [
  | inl bad ↦ node_never_removed json log _ i n (rw (bad, apply_log) h)
  | inr (cmd, good) ↦
      let (m, e) = node_stays_apply cmd s i n h in
      node_never_removed json log _ i m (rw (good, apply_log) e)
]

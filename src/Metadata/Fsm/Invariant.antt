-- ===== src/Metadata/Fsm/Invariant.antt =====
-- The maps of the state are keyed by the names in their values.
use frag_kv.Base.{
  Str, ◌≡◌, refl, sym, ◌∙◌, List, [], ◌∷◌, Option, none, some, str_eq_iff, arith, Option-cases, inl,
  inr,
}
use frag_kv.Base.Codec.{Codec}
use frag_kv.Base.GoMap.Laws.{lookup-nil}
use frag_kv.Metadata.Types.{
  NodeInfo, KeyEntry, Catalog, CmdType, Command, put_key, commit_key, delete_key, register_node,
  heartbeat, mark_node_down, update_fragment, new_state,
}
use frag_kv.Metadata.Fsm.{
  refresh, set_down, move_fragments, apply_command, apply_log, replay, get_key, get_node,
}
use frag_kv.Metadata.Fsm.Lookups.{
  apply_pointwise, key_after, node_after, put_at, register_at, change_at,
}

pub record IsKeyed (s : Catalog) : Type 0 where
  pub keys_named : (k : Str) (e : KeyEntry) → get_key k s ≡ some e → e.key ≡ k
  pub nodes_named : (i : Str) (n : NodeInfo) → get_node i s ≡ some n → n.id ≡ i

put_at_named :
    (k : Str) (o old : Option KeyEntry)
    → ((e : KeyEntry) → old ≡ some e → e.key ≡ k)
    → (e : KeyEntry) → put_at k o old ≡ some e
    → e.key ≡ k
put_at_named k none old named e h = named e h
put_at_named k (some x) old named e h = ground (arith, str_eq_iff x.key k, named e)

register_at_named :
    (i : Str) (o old : Option NodeInfo)
    → ((n : NodeInfo) → old ≡ some n → n.id ≡ i)
    → (n : NodeInfo) → register_at i o old ≡ some n
    → n.id ≡ i
register_at_named i none old named n h = named n h
register_at_named i (some x) old named n h = ground (arith, str_eq_iff x.id i, named n)

change_at_named :
    (f : NodeInfo → NodeInfo → NodeInfo)
    → ((x n : NodeInfo) → (f x n).id ≡ n.id)
    → (i : Str) (o old : Option NodeInfo) → ((n : NodeInfo) → old ≡ some n → n.id ≡ i)
    → (n : NodeInfo) → change_at f i o old ≡ some n
    → n.id ≡ i
change_at_named f keeps i none old named n h = named n h
change_at_named f keeps i (some x) none named n h = ground arith
change_at_named f keeps i (some x) (some m) named n h =
    ground (arith, keeps x m, named m refl, named n)

key_after_named :
    (cmd : Command) (t : CmdType) (k : Str) (old : Option KeyEntry)
    → ((e : KeyEntry) → old ≡ some e → e.key ≡ k)
    → (e : KeyEntry) → key_after t cmd k old ≡ some e
    → e.key ≡ k
unfolding move_fragments
key_after_named cmd put_key k old named e h = put_at_named k cmd.entry old named e h
key_after_named cmd commit_key k none named e h = ground arith
key_after_named cmd commit_key k (some o) named e h = ground (arith, named o refl)
key_after_named cmd delete_key k old named e h = ground (arith, named e)
key_after_named cmd update_fragment k none named e h = cc
key_after_named cmd update_fragment k (some o) named e h = ground (arith, named o refl)
key_after_named cmd _ k old named e h = named e h

node_after_named :
    (cmd : Command) (t : CmdType) (i : Str) (old : Option NodeInfo)
    → ((n : NodeInfo) → old ≡ some n → n.id ≡ i)
    → (n : NodeInfo) → node_after t cmd i old ≡ some n
    → n.id ≡ i
node_after_named cmd register_node i old named = register_at_named i cmd.node old named
node_after_named cmd heartbeat i old named =
    change_at_named refresh (λ x n. refl) i cmd.node old named
node_after_named cmd mark_node_down i old named =
    change_at_named (λ _. set_down) (λ x n. refl) i cmd.node old named
node_after_named cmd _ i old named = named

-- One command keeps the maps keyed by the names in their values.
pub apply-IsKeyed : (cmd : Command) (s : Catalog) → IsKeyed s → IsKeyed (apply_command cmd s)
apply-IsKeyed cmd s h =
    let (at_key, at_node) = apply_pointwise cmd s in
    record {
      keys_named = λ k e p.
          key_after_named cmd cmd.type k (get_key k s) (h.keys_named k) e (sym (at_key k) ∙ p);
      nodes_named = λ i n p.
          node_after_named cmd cmd.type i (get_node i s) (h.nodes_named i) n (sym (at_node i) ∙ p);
    }

replay-IsKeyed_from :
    (json : Codec Command) (log : List Str) (s : Catalog) → IsKeyed s → IsKeyed (replay json log s)
unfolding replay
replay-IsKeyed_from json [] s h = h
replay-IsKeyed_from json (entry ∷ log) s h = elim (Option-cases (json.unmarshal entry)) [
  | inl bad ↦ replay-IsKeyed_from json log _ (rw (bad, apply_log) h)
  | inr (cmd, good) ↦ replay-IsKeyed_from json log _ (rw (good, apply_log) (apply-IsKeyed cmd s h))
]

-- After any log on the initial state, decodable or not, every key and every node is found under the name
-- that its value has.
pub replay-IsKeyed : (json : Codec Command) (log : List Str) → IsKeyed (replay json log new_state)
replay-IsKeyed json log = replay-IsKeyed_from json log new_state (
    unfold get_key get_node in
    record {
      keys_named = λ k e p. cc (p, lookup-nil {V = KeyEntry} k);
      nodes_named = λ i n p. cc (p, lookup-nil {V = NodeInfo} i);
    })

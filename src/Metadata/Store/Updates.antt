-- ===== src/Metadata/Store/Updates.antt =====
-- What the commands of internal/metadata/store.go do by way of Raft, on every outcome.
use frag_kv.Base.{
  Str, ℕ, ◌≡◌, ◌≢◌, refl, ap, ◌∙◌, none, some, true, arith, if◌then◌else◌, ◌==◌, str_eq,
}
use mathlib.Core.Option
use frag_kv.Base.Codec.{Codec}
use frag_kv.Base.Int.{ℤ}
use frag_kv.Fragment.{Fault}
use frag_kv.Metadata.Setup.{Raft, RaftOutcome, applied, failed, failed_applied}
use frag_kv.Metadata.Types.{
  NodeInfo, NodeStatus, unset, up, down, draining, other, Catalog, Command, commit_key, delete_key,
  bare,
}
use frag_kv.Metadata.Fsm.{commit_entry, apply_command, apply_log, get_key, get_node}
use frag_kv.Metadata.Fsm.Lookups.{apply_pointwise}
use frag_kv.Metadata.Store.{
  Error, apply, commit_key_op, delete_key_op, heartbeat_op, mark_node_down_op, register_node_op,
  get_key_op, err, not_found, default_status,
}

-- A leader whose commands are applied.
abbrev pub leading : Raft
leading = record { is_leader = true; outcome = applied }

module _ (json : Codec Command) (cmd : Command) (s : Catalog) where
  -- A leader's command that Raft takes is applied, and no error comes back.
  pub apply-leading : apply json leading cmd s ≡ (apply_command cmd s, none)
  unfolding apply apply_log
  apply-leading = ground (arith, json.unmarshal-marshal cmd)

  -- Without an error the command was applied.
  pub apply_done :
      (raft : Raft)
      → (apply json raft cmd s).1 ≡ none
      → (apply json raft cmd s).0 ≡ apply_command cmd s
  unfolding apply apply_log
  apply_done raft h = ground (arith, json.unmarshal-marshal cmd)

  -- A command that comes back with an error has not changed the state, unless Raft reported an error for
  -- a command that it applied all the same.
  pub apply_undone :
      (raft : Raft) (e : Error)
      → ((f : Fault) → raft.outcome ≢ failed_applied f)
      → (apply json raft cmd s).1 ≡ some e
      → (apply json raft cmd s).0 ≡ s
  unfolding apply apply_log
  apply_undone raft e h p = elim-outcome raft.outcome refl
    where
      elim-outcome : (o : RaftOutcome) → raft.outcome ≡ o → (apply json raft cmd s).0 ≡ s
      elim-outcome applied q = ground (arith, json.unmarshal-marshal cmd)
      elim-outcome (failed f) q = ground (arith, json.unmarshal-marshal cmd)
      elim-outcome (failed_applied f) q = absurd (h f q)

module _ (json : Codec Command) (k : Str) (s : Catalog) where
  -- A commit that succeeds marks the entry of its key, if there is one, and no other: a key without
  -- an entry stays without one, and the commit succeeds all the same.
  pub get_key-commit :
      (raft : Raft) (j : Str)
      → (commit_key_op json raft k s).1 ≡ none
      → get_key j (commit_key_op json raft k s).0
        ≡ (if str_eq k j then Option.map commit_entry (get_key j s) else get_key j s)
  unfolding commit_key_op
  get_key-commit raft j h =
      rw (apply_done json (record (bare commit_key) { key = k }) s raft h)
        ((apply_pointwise (record (bare commit_key) { key = k }) s).0 j)

  -- After a deletion that succeeds the key is not found and every other key is as it was.
  pub get_key-delete :
      (raft : Raft) (j : Str)
      → (delete_key_op json raft k s).1 ≡ none
      → get_key_op j (delete_key_op json raft k s).0
        ≡ (if str_eq k j then err not_found else get_key_op j s)
  unfolding delete_key_op get_key_op
  get_key-delete raft j h =
      rw
        (
          apply_done json (record (bare delete_key) { key = k }) s raft h,
          (apply_pointwise (record (bare delete_key) { key = k }) s).0 j,
        )
        (ground arith)

-- The node as `RegisterNode` completes it.
abbrev pub completed : ℕ → NodeInfo → NodeInfo
completed now n = record n {
  last_seen = if n.last_seen == 0 then now else n.last_seen;
  status = default_status n.status;
}

-- The node as a registration leaves it: with the status up where it has none, seen now where it was seen
-- at no time.
abbrev pub with_status : NodeStatus → NodeStatus
with_status unset = up
with_status up = up
with_status down = down
with_status draining = draining
with_status (other s) = other s

abbrev pub joined : ℕ → NodeInfo → NodeInfo
joined now n = record n {
  last_seen = if n.last_seen == 0 then now else n.last_seen;
  status = with_status n.status;
}

same_status : (t : NodeStatus) → default_status t ≡ with_status t
same_status unset = refl
same_status up = refl
same_status down = refl
same_status draining = refl
same_status (other s) = refl

pub completed-joined : (now : ℕ) (n : NodeInfo) → completed now n ≡ joined now n
completed-joined now n =
    ap (λ t. record n { last_seen = if n.last_seen == 0 then now else n.last_seen; status = t })
      (same_status n.status)

-- The node with the status down.
abbrev pub set_status_down : NodeInfo → NodeInfo
set_status_down n = record n { status = down }

abbrev pub beaten : ℕ → ℤ → ℤ → NodeInfo → NodeInfo
beaten now used total n = record n {
  last_seen = now;
  used_bytes = used;
  total_bytes = total;
  status = up;
}

-- The life of a node, as it is read behind the calls to a leader: a registration sets the node, up
-- if it has no status, a heartbeat makes it up whatever its status was, and a mark makes it down. A
-- heartbeat or a mark of a node that is not registered registers nothing, and no call changes what is
-- read of another node.
pub node_life :
    (json : Codec Command) (s : Catalog) (n : NodeInfo) (now : ℕ) (used total : ℤ) (j : Str)
    → (get_node j (register_node_op json leading now n s).0
        ≡ (if str_eq n.id j then some (joined now n) else get_node j s))
      × (get_node j (heartbeat_op json leading now n.id used total s).0 ≡ (
          if str_eq n.id j
          then Option.map (beaten now used total) (get_node j s)
          else get_node j s))
      × (get_node j (mark_node_down_op json leading n.id s).0
          ≡ (if str_eq n.id j then Option.map set_status_down (get_node j s) else get_node j s))
unfolding register_node_op heartbeat_op mark_node_down_op
node_life json s n now used total j = (
  rw (apply-leading json _ s) (
      (apply_pointwise _ s).1 j
      ∙ ap (λ m. if str_eq n.id j then some m else get_node j s) (completed-joined now n)),
  rw (apply-leading json _ s) ((apply_pointwise _ s).1 j),
  rw (apply-leading json _ s) ((apply_pointwise _ s).1 j),
)

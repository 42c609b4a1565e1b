-- ===== src/Metadata/Encoded.antt =====
-- Encodings of the commands and the states of internal/metadata, with which examples are run.
use frag_kv.Base.{Str, ℕ, zero, suc, [], ◌≡◌, refl}
use frag_kv.Base.Codec.{Codec}
use frag_kv.Base.Encode.{Encoding, nat, int, bool, str, option, list, pair, via, codec_of}
use frag_kv.Fragment.{Info}
use frag_kv.Metadata.Types.{
  NodeStatus, unset, up, down, draining, other, NodeInfo, KeyEntry, Catalog, CmdType, Command,
  put_key, commit_key, delete_key, register_node, heartbeat, mark_node_down, update_fragment,
  unknown,
}

abbrev pub info : Encoding Info
info =
    via (λ f. (f.id, (f.key, (f.index, (f.size, (f.node_ids, f.node_addrs))))))
      (λ t. record {
        id = t.0;
        key = t.1.0;
        index = t.1.1.0;
        size = t.1.1.1.0;
        node_ids = t.1.1.1.1.0;
        node_addrs = t.1.1.1.1.1;
      })
      (λ f. refl) (pair str (pair str (pair nat (pair int (pair (list str) (list str))))))

abbrev of_status : NodeStatus → ℕ × Str
of_status unset = (0, [])
of_status up = (1, [])
of_status down = (2, [])
of_status draining = (3, [])
of_status (other t) = (4, t)

abbrev to_status : ℕ × Str → NodeStatus
to_status (zero, t) = unset
to_status (suc zero, t) = up
to_status (suc (suc zero), t) = down
to_status (suc (suc (suc zero)), t) = draining
to_status (suc (suc (suc (suc n))), t) = other t

pub status_back : (t : NodeStatus) → to_status (of_status t) ≡ t
status_back unset = refl
status_back up = refl
status_back down = refl
status_back draining = refl
status_back (other t) = refl

abbrev pub node_info : Encoding NodeInfo
node_info =
    via (λ n. (n.id, (n.addr, (n.total_bytes, (n.used_bytes, (n.last_seen, n.status))))))
      (λ t. record {
        id = t.0;
        addr = t.1.0;
        total_bytes = t.1.1.0;
        used_bytes = t.1.1.1.0;
        last_seen = t.1.1.1.1.0;
        status = t.1.1.1.1.1;
      })
      (λ n. refl)
      (pair str (
        pair str
          (pair int (pair int (pair nat (via of_status to_status status_back (pair nat str)))))))

abbrev pub key_entry : Encoding KeyEntry
key_entry =
    via (λ e. (e.key, (e.total_size, (e.chunk_size, (e.fragments, (e.created_at, e.committed))))))
      (λ t. record {
        key = t.0;
        total_size = t.1.0;
        chunk_size = t.1.1.0;
        fragments = t.1.1.1.0;
        created_at = t.1.1.1.1.0;
        committed = t.1.1.1.1.1;
      })
      (λ e. refl) (pair str (pair int (pair int (pair (list info) (pair nat bool)))))

abbrev of_type : CmdType → ℕ × Str
of_type put_key = (0, [])
of_type commit_key = (1, [])
of_type delete_key = (2, [])
of_type register_node = (3, [])
of_type heartbeat = (4, [])
of_type mark_node_down = (5, [])
of_type update_fragment = (6, [])
of_type (unknown t) = (7, t)

abbrev to_type : ℕ × Str → CmdType
to_type (zero, t) = put_key
to_type (suc zero, t) = commit_key
to_type (suc (suc zero), t) = delete_key
to_type (suc (suc (suc zero)), t) = register_node
to_type (suc (suc (suc (suc zero))), t) = heartbeat
to_type (suc (suc (suc (suc (suc zero)))), t) = mark_node_down
to_type (suc (suc (suc (suc (suc (suc zero))))), t) = update_fragment
to_type (suc (suc (suc (suc (suc (suc (suc n)))))), t) = unknown t

pub type_back : (t : CmdType) → to_type (of_type t) ≡ t
type_back put_key = refl
type_back commit_key = refl
type_back delete_key = refl
type_back register_node = refl
type_back heartbeat = refl
type_back mark_node_down = refl
type_back update_fragment = refl
type_back (unknown t) = refl

unfoldable pub json_command : Codec Command
json_command = codec_of (
    via (λ c. (c.type, (c.entry, (c.key, (c.node, (c.fragment_id, c.node_ids))))))
      (λ t. record {
        type = t.0;
        entry = t.1.0;
        key = t.1.1.0;
        node = t.1.1.1.0;
        fragment_id = t.1.1.1.1.0;
        node_ids = t.1.1.1.1.1;
      })
      (λ c. refl)
      (pair (via of_type to_type type_back (pair nat str))
        (pair (option key_entry) (pair str (pair (option node_info) (pair str (list str)))))))

pub json_catalog : Codec Catalog
json_catalog = codec_of (
    via (λ s. (s.keys, s.nodes)) (λ t. record { keys = t.0; nodes = t.1 }) (λ s. refl)
      (pair (list (pair str key_entry)) (list (pair str node_info))))

-- ===== src/Metadata/Workers/Restores.antt =====
-- What recovery of internal/metadata/workers.go achieves for a fragment, where the copies work.
use frag_kv.Base.{Str, ℕ, ◌-◌, List, ◌++◌, length, take}
use frag_kv.Base.Codec.{Codec}
use frag_kv.Base.GoMap.{GoMap, RangeOrder, keys}
use frag_kv.Fragment.{Info}
use frag_kv.Metadata.Types.{NodeInfo}
use frag_kv.Metadata.Workers.{live_map, without}
use frag_kv.Metadata.Workers.Recovery.{live_of}

-- The live nodes without a replica of the fragment, in the order in which they are tried.
abbrev pub spare : RangeOrder → List NodeInfo → Info → List Str
spare order nodes frag = without (live_of nodes frag) (keys (order.range NodeInfo (live_map nodes)))

-- The list of nodes that recovery gives the fragment where copies work: its live replicas, then the
-- first spare nodes, as many as the replication factor asks for.
abbrev pub restored : RangeOrder → ℕ → List NodeInfo → Info → List Str
restored order factor nodes frag =
    live_of nodes frag ++ take (factor - length (live_of nodes frag)) (spare order nodes frag)

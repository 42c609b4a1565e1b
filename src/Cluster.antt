-- ===== src/Cluster.antt =====
-- The program as one system: cmd/metad/main.go's service and the storage nodes, as a client reaches
-- them over HTTP. The world is metad's catalog and the stores of the nodes by their addresses. What the
-- network and Raft do is left to `Network`: what becomes of each command, what a node hears from the
-- others when it passes a fragment on, and which nodes in fact took it. The path of a request reaches the
-- server as the client wrote it, as it does for the keys of Kvctl/Keys. The file systems and indexes of
-- the nodes do not fail, and every connection of the client is served.
pub mod Nodes
pub mod Requests
use frag_kv.Base.{Str, ℕ, List, [], ◌∷◌, Option, none, some, str_eq, if◌then◌else◌}
use frag_kv.Base.Codec.{Codec}
use frag_kv.Base.GoMap.{GoMap, RangeOrder, lookup, insert}
use frag_kv.Fragment.{Reader}
use frag_kv.Placement.{Placer}
use frag_kv.Placement.Outside.{Floats}
use frag_kv.Storage.{FragmentMeta, Store, healthy}
use frag_kv.Transport
use frag_kv.Transport.{Method, put_method, HttpClient, plain, handle_fragment}
use frag_kv.Metadata.Setup.{Config, Raft}
use frag_kv.Metadata.Types.{Catalog, Command}
use frag_kv.Metadata.Server
use frag_kv.Metadata.Server.{Bodies, handle_keys}
use frag_kv.Kvctl.{Services}

pub record World : Type 0 where
  pub catalog : Catalog
  pub stores : GoMap Store

pub record Network : Type 0 where
  pub raft : Server.Request → Raft
  pub peers : Str → HttpClient
  pub reached : Str → Transport.Request → List Str

-- What every process of the system is built from.
pub record Setup : Type 1 where
  pub floats : Floats
  pub commands : Codec Command
  pub metas : Codec FragmentMeta
  pub order : RangeOrder
  pub place : Placer floats
  pub config : Config
  pub bodies : Bodies
  pub source_of : Str → Option Str

-- An upload as a node passes it on, without the headers.
abbrev pub passed_on : Transport.Request → Transport.Request
passed_on r = record r { replica_addrs = []; write_quorum = [] }

module _ (setup : Setup) (net : Network) (now : ℕ) where
  -- One request at a node.
  abbrev pub handle : Str → Transport.Request → Store → Store × Transport.Response
  handle addr = handle_fragment setup.metas healthy (net.peers addr) now setup.source_of

  -- The stores after a request at an address; nothing happens where there is no node.
  unfoldable pub run_at : Str → Transport.Request → GoMap Store → GoMap Store
  run_at addr r stores = elim (lookup addr stores) [
    | none ↦ stores
    | some s ↦ insert addr (handle addr r s).0 stores
  ]

  unfoldable pub run_at_all : List Str → Transport.Request → GoMap Store → GoMap Store
  unfolding run_at
  run_at_all [] r stores = stores
  run_at_all (addr ∷ addrs) r stores = run_at_all addrs r (run_at addr r stores)

  -- The copies that a node makes of an upload.
  unfoldable pub copies : Str → Method → Transport.Request → GoMap Store → GoMap Store
  unfolding run_at_all
  copies addr put_method r stores = run_at_all (net.reached addr r) (passed_on r) stores
  copies addr method r stores = stores

  abbrev pub answered : Transport.Response → ℕ × Reader
  answered resp = (resp.status, plain resp.body)

  -- A request to a storage node. An empty address is no host.
  unfoldable pub to_node : Str → Transport.Request → GoMap Store → GoMap Store × Option (ℕ × Reader)
  unfolding copies
  to_node addr r stores = if str_eq addr [] then (stores, none) else elim (lookup addr stores) [
    | none ↦ (stores, none)
    | some s ↦
        (let (s', resp) = handle addr r s in
          (copies addr r.method r (insert addr s' stores), some (answered resp)))
  ]

  -- A request to metad.
  unfoldable pub to_metad : Server.Request → Catalog → Catalog × Server.Response
  to_metad r catalog =
      handle_keys setup.floats setup.commands setup.order setup.place setup.config (net.raft r) now
        setup.bodies r catalog

  -- The services that the client reaches.
  abbrev pub services : Services World
  services = record {
    metad = λ r w.
        let (catalog, resp) = to_metad r w.catalog in (record w { catalog = catalog }, some resp);
    storaged = λ addr r w.
        let (stores, answer) = to_node addr r w.stores in (record w { stores = stores }, answer);
  }

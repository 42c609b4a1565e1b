-- ===== src/Metadata/System/Tests.antt =====
-- A run of the metadata service of internal/metadata: an entry of the log, a tick of the failure
-- detector and a request.
use frag_kv.Base.{Str, true, none, some}
use frag_kv.Base.GoMap.{listed}
use frag_kv.Placement.Tests.{whole_numbers}
use frag_kv.Transport.{delete_method}
use frag_kv.Metadata.Encoded.{json_command}
use frag_kv.Metadata.Types.{Catalog, bare, register_node, new_state}
use frag_kv.Metadata.Fsm.{apply_log}
use frag_kv.Metadata.Fsm.Tests.{k, node_1}
use frag_kv.Metadata.Store.Tests.{small_chunks, rendezvous_placer}
use frag_kv.Metadata.Store.Updates.{leading}
use frag_kv.Metadata.Workers.{failure_detector_tick}
use frag_kv.Metadata.Server.{Bodies, handle_keys}
use frag_kv.Metadata.Server.Keys.{key_request}
use frag_kv.Metadata.System.{Step, Reaches, start, then_step}

abbrev no_bodies : Bodies
no_bodies = record { total_size = λ body. none; node_info = λ body. none; usage = λ body. none }

abbrev registration : Str
registration = json_command.marshal (record (bare register_node) { node = some node_1 })

abbrev one_node : Catalog
one_node = (apply_log json_command registration new_state).0

abbrev one_down : Catalog
one_down =
    failure_detector_tick json_command listed small_chunks true (λ _. leading) (λ _. 100) one_node

abbrev asked : Catalog
asked =
    (handle_keys whole_numbers json_command listed rendezvous_placer small_chunks leading 101
      no_bodies (key_request delete_method k) one_down).0

served : Reaches whole_numbers json_command listed rendezvous_placer small_chunks new_state asked
served =
    then_step
      (then_step (then_step start (Step.replicated registration new_state))
        (Step.detection true (λ _. leading) (λ _. 100) one_node))
      (Step.keys_request leading 101 no_bodies (key_request delete_method k) one_down)

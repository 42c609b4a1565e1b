-- ===== src/Metadata/Server/Tests.antt =====
-- Runs of internal/metadata/server.go on a leader with one key.
use frag_kv.Base.{◌≡◌, ◌≢◌, [], none, codes, arith, slash, Lacks, ap, str_eq, split_two}
use frag_kv.Base.GoMap.{listed}
use frag_kv.Placement.Tests.{whole_numbers}
use frag_kv.Transport.{delete_method}
use frag_kv.Metadata.Encoded.{json_command}
use frag_kv.Metadata.Types.{Catalog, bare, commit_key, delete_key}
use frag_kv.Metadata.Store.{commit_key_op, delete_key_op}
use frag_kv.Metadata.Fsm.Tests.{k, one_key}
use frag_kv.Metadata.Store.Tests.{small_chunks, rendezvous_placer}
use frag_kv.Metadata.Store.Updates.{leading, apply-leading}
use frag_kv.Metadata.Server.{Request, Response, Bodies, handle_keys, changed}
use frag_kv.Metadata.Server.Keys.{key_request, action_request}

abbrev no_bodies : Bodies
no_bodies = record { total_size = λ body. none; node_info = λ body. none; usage = λ body. none }

abbrev serve : Request → Catalog → Catalog × Response
serve =
    handle_keys whole_numbers json_command listed rendezvous_placer small_chunks leading 4 no_bodies

k_lacks_slash : Lacks slash k
k_lacks_slash = (omega arith, tt)

k_named : k ≢ []
k_named e = absurd (cc e)

deletes : (serve (key_request delete_method k) one_key).1.status ≡ 204
unfolding handle_keys str_eq split_two delete_key_op
deletes =
    ap (λ p. (changed 204 p).1.status)
      (apply-leading json_command (record (bare delete_key) { key = k }) one_key)

commits : (serve (action_request k (codes "commit") []) one_key).1.status ≡ 204
unfolding handle_keys str_eq split_two commit_key_op
commits =
    ap (λ p. (changed 204 p).1.status)
      (apply-leading json_command (record (bare commit_key) { key = k }) one_key)

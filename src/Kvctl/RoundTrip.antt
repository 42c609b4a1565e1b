-- ===== src/Kvctl/RoundTrip.antt =====
-- The put and the get of cmd/kvctl/main.go, end to end: through metad, Raft and the storage nodes.
use mathlib.Core.List.{flatten}
use frag_kv.Base.{
  Str, ℕ, ◌+◌, ◌≤◌, ◌<◌, ◌≡◌, ◌≢◌, refl, ap, ◌∙◌, List, [], Option, none, some, slash, Lacks, All,
  length,
}
use frag_kv.Base.Int.{ℤ, max_int64}
use frag_kv.Fragment.{Reader}
use frag_kv.Fragment.Collects.{flatten-input_chunks}
use frag_kv.Fragment.Splits.{input_chunks}
use frag_kv.Transport.{get_method}
use frag_kv.Metadata.Types.{KeyEntry}
use frag_kv.Metadata.Fsm.{get_key, commit_entry}
use frag_kv.Metadata.Server.{entry}
use frag_kv.Metadata.Server.Keys.{key_request, answer, get_answer}
use frag_kv.Kvctl.{Json, Schedule, Failure, ok}
use frag_kv.Kvctl.Commands.{get, get_entered, get_key_entry}
use frag_kv.Kvctl.Downloads.{IsStored, append, Aligned}
use frag_kv.Kvctl.Planned.{view, get_planned_stored}
use frag_kv.Kvctl.Puts.{put_bytes, put-IsReadable}
use frag_kv.Cluster.{Setup, Network, World, services, to_metad}

module _ (setup : Setup) (json : Json) (key : Str) (single : Lacks slash key) (named : key ≢ [])
    (reads_entry : (e : KeyEntry) → json.key_plan (entry e) ≡ some (view e)) where
  abbrev file_put : Network → ℕ → Schedule → ℤ → World → Reader → World × Option Failure
  file_put = put_bytes setup json key single named reads_entry

  module _ (net : Network) (now : ℕ) where
    -- The entry of a key, as a client reads it.
    pub entered :
        (w : World) (e : KeyEntry)
        → get_key key w.catalog ≡ some e
        → get_key_entry (services setup net now) json key w ≡ (w, ok (view e))
    unfolding get_key_entry to_metad
    entered w e present =
        let answers =
          get_answer setup.floats setup.commands setup.order setup.place setup.config
            (net.raft (key_request get_method key)) now setup.bodies key w.catalog single named
          ∙ ap (λ o. (w.catalog, answer o)) present in
        rw (get_key_entry, to_metad, answers, reads_entry e) refl

    -- A get behind which the fragments of the entry are stored writes their chunks.
    pub get_stored :
        (schedule : Schedule) (quorum : ℤ) (w : World) (e : KeyEntry) (chunks : List Str)
        → get_key key w.catalog ≡ some e
        → Aligned key 0 e.fragments chunks
        → All (IsStored setup key chunks w.stores) e.fragments
        → ((get (services setup net now) json schedule quorum append key none w []).1
            ≡ flatten chunks)
          × ((get (services setup net now) json schedule quorum append key none w []).2 ≡ none)
    unfolding get
    get_stored schedule quorum w e chunks present al stored =
        let runs =
          ap (λ p. get_entered (services setup net now) json schedule quorum append none p [])
            (entered w e present) in
        let (writes, succeeds) =
          get_planned_stored setup net now json schedule quorum key single (view e) chunks al w []
            stored in
        (ap (λ t. t.1) runs ∙ writes, ap (λ t. t.2) runs ∙ succeeds)

  -- For a key that is not empty and has no slash, a file of at least one byte that is read without an
  -- error, and a chunk size above zero that an int64 holds together with the length of the file: where a
  -- put of the file succeeds, a get of the key behind it succeeds and writes exactly the bytes of the
  -- file, whatever the order of the uploads and of the downloads, the write quorum, what Raft did, and
  -- how the network treated the copies for the replicas, in the put as in the get.
  get-put_file :
      (net net' : Network) (now now' : ℕ) (schedule schedule' : Schedule) (quorum : ℤ) (w : World)
      (r : Reader)
      → r.fault ≡ none
      → 0 < setup.config.chunk_size
      → 0 < length r.unread
      → length r.unread + setup.config.chunk_size ≤ max_int64
      → ((size : ℤ) → setup.bodies.total_size (json.total_size size) ≡ some size)
      → (file_put net now schedule quorum w r).1 ≡ none
      → ((get
            (services setup net' now')
            json
            schedule'
            quorum
            append
            key
            none
            (file_put net now schedule quorum w r).0
            []).1
          ≡ r.unread)
        × ((get
              (services setup net' now')
              json
              schedule'
              quorum
              append
              key
              none
              (file_put net now schedule quorum w r).0
              []).2
            ≡ none)
  get-put_file net net' now now' schedule schedule' quorum w r sound chunked some_bytes fits
        reads_size done =
      let is_put =
        put-IsReadable setup json key single named reads_entry net now schedule quorum w r sound
          chunked some_bytes fits reads_size done in
      let (writes, succeeds) =
        get_stored net' now' schedule' quorum (file_put net now schedule quorum w r).0
          (commit_entry is_put.plan) (input_chunks r is_put.plan.chunk_size) is_put.present
          is_put.aligned is_put.stored in
      (writes ∙ flatten-input_chunks r is_put.plan.chunk_size, succeeds)

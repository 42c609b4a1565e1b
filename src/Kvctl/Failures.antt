-- ===== src/Kvctl/Failures.antt =====
-- What a put of cmd/kvctl/main.go that fails leaves, and what a delete does, against the whole system.
use frag_kv.Base.{
  Str, ℕ, ◌+◌, ◌≤◌, ◌<◌, ◌≡◌, ◌≢◌, refl, sym, ap, ◌∙◌, [], Option, none, some, false, slash, Lacks,
  length, codes, ◌==◌, Bool-cases, inl, inr,
}
use frag_kv.Base.Int.{ℤ, max_int64}
use frag_kv.Fragment.{Reader, Fault}
use frag_kv.Fragment.Splits.{input_chunks}
use frag_kv.Transport.{get_method, delete_method}
use frag_kv.Metadata.Types.{KeyEntry}
use frag_kv.Metadata.Fsm.{get_key}
use frag_kv.Metadata.Server
use frag_kv.Metadata.Server.{entry}
use frag_kv.Metadata.Server.Keys.{key_request, action_request, answer, get_answer, deleted_entry}
use frag_kv.Kvctl.{Json, Schedule, Failure, ok, err, key_not_found, in_fragment, expect, failure_of}
use frag_kv.Kvctl.Commands.{commit, finish_put, get_key_entry, get, get_entered, delete}
use frag_kv.Kvctl.Uploads.{upload_all_catalog}
use frag_kv.Kvctl.Planned.{cut-Aligned, view, put_chunks_runs, uploaded, jobs}
use frag_kv.Kvctl.Puts.{put_bytes, put_begun, put_runs, expect_done, after_prepare}
use frag_kv.Cluster.{Setup, Network, World, services, to_metad}

failure_not_in_fragment :
    (status : ℕ) (resp : Server.Response) (f : Failure)
    → failure_of (expect status (λ p. ok tt) (some resp)) ≢ some (in_fragment f)
failure_not_in_fragment status resp f h = elim (Bool-cases (resp.status == status)) [
  | inl same ↦ cc (rw (expect, same) at h)
  | inr other ↦ cc (rw (expect, other) at h)
]

module _ (setup : Setup) (json : Json) (key : Str) (single : Lacks slash key)
    (named : key ≢ []) where
  module _ (net : Network) (now : ℕ) (schedule : Schedule) (quorum : ℤ) where
    -- A put that ends with a failure in a fragment has not committed.
    stops :
        (p : World × Option Failure) (f : Failure)
        → (finish_put (services setup net now) json schedule quorum key p).1 ≡ some (in_fragment f)
        → (finish_put (services setup net now) json schedule quorum key p).0 ≡ p.0
    unfolding commit
    stops (w, some e) f h = refl
    stops (w, none) f h = absurd (
        failure_not_in_fragment 204
          (to_metad setup net now (action_request key (codes "commit") []) w.catalog).1 f h)

    -- For a key that is not empty and has no slash, a file of at least one byte that is read without an
    -- error, and a chunk size above zero that an int64 holds together with the length of the file: where
    -- a put of the file fails in a fragment, whichever and however, the key has an entry behind it that
    -- is pending, not committed.
    pub put_failed_pending :
        (reads_entry : (e : KeyEntry) → json.key_plan (entry e) ≡ some (view e)) (w : World)
        (r : Reader) (f : Failure)
        → r.fault ≡ none
        → 0 < setup.config.chunk_size
        → 0 < length r.unread
        → length r.unread + setup.config.chunk_size ≤ max_int64
        → ((size : ℤ) → setup.bodies.total_size (json.total_size size) ≡ some size)
        → (put_bytes setup json key single named reads_entry net now schedule quorum w r).1
          ≡ some (in_fragment f)
        → (e : KeyEntry) × (get_key key
              (put_bytes setup json key single named reads_entry net now schedule quorum w
                r).0.catalog
            ≡ some e)
          × (e.committed ≡ false)
    put_failed_pending reads_entry w r f sound chunked some_bytes fits reads_size failed =
        let p =
          put_begun setup json key single named reads_entry net now schedule quorum w r sound
            chunked some_bytes fits reads_size f failed in
        let chunks = input_chunks r p.plan.chunk_size in
        let w1 : World = record w {
          catalog =
              after_prepare setup json key single named reads_entry net now schedule quorum w r
                sound chunked some_bytes fits reads_size;
        } in
        let aligned = cut-Aligned key 0 p.plan.fragments chunks p.promised.cut in
        let runs =
          put_runs setup json key single named reads_entry net now schedule quorum w r sound chunked
            some_bytes fits reads_size p
          ∙ put_chunks_runs setup net now json schedule quorum key single (view p.plan) chunks
              aligned w1 in
        let sent =
          uploaded setup net now json schedule quorum key single (view p.plan) chunks aligned w1 in
        let stopped = stops sent f (ap (λ q. q.1) (sym runs) ∙ failed) in
        let unchanged =
          upload_all_catalog setup net now quorum
            (schedule.arrange _
              (jobs setup net now json schedule quorum key single (view p.plan) chunks aligned))
            w1 in
        (
          p.plan,
          ap (λ q. get_key key q.0.catalog) runs
              ∙ ap (λ (x : World). get_key key x.catalog) stopped
              ∙ ap (get_key key) unchanged
              ∙ p.promised.stored,
          p.promised.pending,
        )

  -- For a key that is not empty and has no slash: behind a delete that succeeds, a get of the key fails
  -- with "key not found" and writes nothing, whatever Raft did in between.
  pub get-delete_key :
      (net net' : Network) (now now' : ℕ) (schedule : Schedule) (quorum : ℤ) (w : World)
      {O : Type 0} (write : Str → O → O × Option Fault) (create : Option Fault) (out : O)
      → (delete (services setup net now) json key w).1 ≡ none
      → get
          (services setup net' now')
          json
          schedule
          quorum
          write
          key
          create
          (delete (services setup net now) json key w).0
          out
        ≡ ((delete (services setup net now) json key w).0, out, some key_not_found)
  unfolding delete get get_key_entry to_metad
  get-delete_key net net' now now' schedule quorum w write create out done =
      let r = key_request delete_method key in
      let w' = (delete (services setup net now) json key w).0 in
      let gone =
        deleted_entry setup.floats setup.commands setup.order setup.place setup.config (net.raft r)
          now setup.bodies key w.catalog single named
          (expect_done 204 (to_metad setup net now r w.catalog).1 done) in
      let answers =
        get_answer setup.floats setup.commands setup.order setup.place setup.config
          (net'.raft (key_request get_method key)) now' setup.bodies key w'.catalog single named
        ∙ ap (λ o. (w'.catalog, answer o)) gone in
      let entered : get_key_entry (services setup net' now') json key w' ≡ (w', err key_not_found) =
        rw (get_key_entry, to_metad, answers) refl in
      ap (λ p. get_entered (services setup net' now') json schedule quorum write create p out)
        entered

-- ===== src/Harness/Gets.antt =====
-- GetValue of experiments/harness/harness.go behind a put of cmd/kvctl/main.go: two clients of the same
-- system.
use frag_kv.Base.{
  Str, ℕ, ◌+◌, ◌≤◌, ◌<◌, ◌≡◌, ◌≢◌, ap, ◌∙◌, List, [], none, some, arith, slash, Lacks, All, length,
  get_elem?,
}
use frag_kv.Base.Int.{ℤ, pos, max_int64}
use frag_kv.Fragment.{Reader, bytes_of, effective_size}
use frag_kv.Fragment.Splits.{input_chunks, effective_size_pos}
use frag_kv.Metadata.Types.{KeyEntry}
use frag_kv.Metadata.Fsm.{get_key, commit_entry}
use frag_kv.Metadata.Server.{entry}
use frag_kv.Kvctl.{Json, ok}
use frag_kv.Kvctl.Keys.{IsPlainKey, IsPlainKey-Lacks}
use frag_kv.Kvctl.Downloads.{IsStored, Aligned}
use frag_kv.Kvctl.Planned.{view}
use frag_kv.Kvctl.Puts.{put-IsReadable}
use frag_kv.Kvctl.RoundTrip.{entered}
use frag_kv.Kvctl.Others.{stored_calm}
use frag_kv.Kvctl.Others.Between.{PutRun, IsOther, run_put, run_puts, run_puts_keep}
use frag_kv.Cluster.{Setup, Network, World, services}
use frag_kv.Harness.{get_value, get_entry}
use frag_kv.Harness.Reads.{fill_runs}

module _ (setup : Setup) (json : Json)
    (reads_entry : (e : KeyEntry) → json.key_plan (entry e) ≡ some (view e)) where
  -- GetValue of a key whose fragments are stored returns the bytes of the file.
  pub get_value_stored :
      (key : Str) (single : Lacks slash key) (named : key ≢ []) (net : Network) (now : ℕ)
      (w : World) (e : KeyEntry) (r : Reader)
      → get_key key w.catalog ≡ some e
      → e.total_size ≡ pos (length r.unread)
      → length r.unread ≤ max_int64
      → Aligned key 0 e.fragments (input_chunks r e.chunk_size)
      → All (IsStored setup key (input_chunks r e.chunk_size) w.stores) e.fragments
      → (get_value (services setup net now) json key w).1 ≡ ok r.unread
  unfolding get_value frag_kv.Harness.zeros
  get_value_stored key single named net now w e r present whole small al stored =
      let (n, positive) = effective_size_pos e.chunk_size in
      let chunks = input_chunks r e.chunk_size in
      ap (λ p. (get_entry (services setup net now) json p).1)
        (entered setup json key single named reads_entry net now w e present)
      ∙ rw whole (
          fill_runs setup net now key chunks single json (length r.unread + 1)
            (bytes_of (effective_size e.chunk_size)) [] r.unread 0 e.fragments w
            (rw positive (omega arith)) (omega arith) (λ more. omega arith) (omega (arith, small))
            (λ k. ap (get_elem? chunks) (omega arith)) al stored)

  module _ (chunked : 0 < setup.config.chunk_size)
      (reads_size : (size : ℤ) → setup.bodies.total_size (json.total_size size) ≡ some size) where
    -- Let kvctl put a file under a key with success, and any number of puts of other keys follow,
    -- successful or not. Then GetValue of the experiments returns exactly the bytes of the file
    -- for the key, whatever Raft did and however the network treated the copies, in the puts and
    -- behind them; for plain keys (not empty, of letters, digits, '-', '_', '.' and '~', other
    -- than "." and ".."), storage nodes whose file systems and indexes do not fail, and
    -- connections of the client that are all served; for files of at least one byte that are read
    -- without an error, and a chunk size above zero that an int64 holds together with the length
    -- of each file.
    pub get_value-put_between :
        (p : PutRun) (ps : List PutRun) (w : World) (net' : Network) (now' : ℕ)
        → IsPlainKey p.key
        → p.file.fault ≡ none
        → 0 < length p.file.unread
        → length p.file.unread + setup.config.chunk_size ≤ max_int64
        → All (IsOther setup p.key) ps
        → (run_put setup json p w).1 ≡ none
        → (get_value
            (services setup net' now')
            json
            p.key
            (run_puts setup json ps (run_put setup json p w).0)).1
          ≡ ok p.file.unread
    unfolding run_put
    get_value-put_between p ps w net' now' plain sound some_bytes fits others done =
        let is_put =
          put-IsReadable setup json p.key (IsPlainKey-Lacks plain) plain.named reads_entry p.net
            p.now p.schedule p.quorum w p.file sound chunked some_bytes fits reads_size done in
        let w1 = (run_put setup json p w).0 in
        let w2 = run_puts setup json ps w1 in
        let calm =
          run_puts_keep setup json reads_entry chunked reads_size p.key (IsPlainKey-Lacks plain) ps
            w1 others in
        let chunks = input_chunks p.file is_put.plan.chunk_size in
        get_value_stored p.key (IsPlainKey-Lacks plain) plain.named net' now' w2
          (commit_entry is_put.plan) p.file (calm.same ∙ is_put.present) is_put.whole
          (omega (arith, fits)) is_put.aligned
          (stored_calm setup p.key chunks w1 w2 is_put.plan.fragments calm is_put.stored)

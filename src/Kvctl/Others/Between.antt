-- ===== src/Kvctl/Others/Between.antt =====
-- A get of cmd/kvctl/main.go behind a put of its key and puts of other keys, end to end.
use frag_kv.Base.{
  Str, ℕ, ◌+◌, ◌≤◌, ◌<◌, ◌≡◌, ◌≢◌, refl, ◌∙◌, List, [], ◌∷◌, Option, none, some, slash, Lacks, All,
  length,
}
use frag_kv.Base.Int.{ℤ, pos, max_int64}
use frag_kv.Fragment.{Reader}
use frag_kv.Fragment.Collects.{flatten-input_chunks}
use frag_kv.Fragment.Splits.{input_chunks}
use frag_kv.Metadata.Types.{KeyEntry}
use frag_kv.Metadata.Fsm.{commit_entry}
use frag_kv.Metadata.Server.{entry}
use frag_kv.Kvctl.{Json, Schedule, Failure, opened}
use frag_kv.Kvctl.Keys.{IsPlainKey, IsPlainKey-Lacks}
use frag_kv.Kvctl.Commands.{put, get, prepare_plan}
use frag_kv.Kvctl.Downloads.{append}
use frag_kv.Kvctl.Planned.{view}
use frag_kv.Kvctl.Puts.{put-IsReadable}
use frag_kv.Kvctl.RoundTrip.{get_stored}
use frag_kv.Kvctl.Others.{
  IsUndisturbed, calm_refl, then-IsUndisturbed, stored_calm, put-IsUndisturbed,
}
use frag_kv.Cluster.{Setup, Network, World, services}

-- A put of a client, with what the network, Raft and the goroutines do in it.
pub record PutRun : Type 1 where
  pub net : Network
  pub now : ℕ
  pub schedule : Schedule
  pub quorum : ℤ
  pub key : Str
  pub file : Reader

-- A put of another key than `k`: a plain key, and a file of at least one byte that is read without
-- an error, whose length an int64 holds together with the chunk size.
pub record IsOther (setup : Setup) (k : Str) (p : PutRun) : Type 0 where
  pub apart : p.key ≢ k
  pub plain : IsPlainKey p.key
  pub sound : p.file.fault ≡ none
  pub some_bytes : 0 < length p.file.unread
  pub fits : length p.file.unread + setup.config.chunk_size ≤ max_int64

module _ (setup : Setup) (json : Json) where
  unfoldable pub run_put : PutRun → World → World × Option Failure
  run_put p w =
      put (services setup p.net p.now) json p.schedule p.quorum p.key
        (opened (pos (length p.file.unread)) p.file) w

  -- Puts one after the other, whatever becomes of each.
  unfoldable pub run_puts : List PutRun → World → World
  unfolding run_put
  run_puts [] w = w
  run_puts (p ∷ ps) w = run_puts ps (run_put p w).0

  module _ (reads_entry : (e : KeyEntry) → json.key_plan (entry e) ≡ some (view e))
      (chunked : 0 < setup.config.chunk_size)
      (reads_size : (size : ℤ) → setup.bodies.total_size (json.total_size size) ≡ some size) where
    pub run_puts_keep :
        (k : Str) (single_k : Lacks slash k) (ps : List PutRun) (w : World)
        → All (IsOther setup k) ps
        → IsUndisturbed setup k w (run_puts ps w)
    unfolding run_puts
    run_puts_keep k single_k [] w _ = calm_refl setup k w
    run_puts_keep k single_k (p ∷ ps) w (other, others) =
        then-IsUndisturbed setup k
          (put-IsUndisturbed setup p.net p.now k p.key other.apart (IsPlainKey-Lacks other.plain)
            json single_k p.schedule p.quorum other.plain.named reads_entry w p.file other.sound
            chunked other.some_bytes other.fits reads_size
            (prepare_plan (services setup p.net p.now) json p.key (pos (length p.file.unread)) w).1
            refl)
          (run_puts_keep k single_k ps (run_put p w).0 others)

    -- Let a put of a key succeed, and any number of puts of other keys follow, successful or not.
    -- Then a get of the key succeeds and writes exactly the bytes of its file, whatever the orders
    -- of uploads and downloads, the write quorums, what Raft did and how the network treated the
    -- copies, in every put and in the get; for plain keys (not empty, of letters, digits, '-',
    -- '_', '.' and '~', other than "." and ".."), storage nodes whose file systems and indexes do
    -- not fail, and connections of the client that are all served; for files of at least one byte
    -- that are read without an error, and a chunk size above zero that an int64 holds together
    -- with the length of each file.
    pub get-put_between :
        (p : PutRun) (ps : List PutRun) (w : World) (net' : Network) (now' : ℕ)
        (schedule' : Schedule) (quorum' : ℤ)
        → IsPlainKey p.key
        → p.file.fault ≡ none
        → 0 < length p.file.unread
        → length p.file.unread + setup.config.chunk_size ≤ max_int64
        → All (IsOther setup p.key) ps
        → (run_put p w).1 ≡ none
        → ((get
              (services setup net' now')
              json
              schedule'
              quorum'
              append
              p.key
              none
              (run_puts ps (run_put p w).0)
              []).1
            ≡ p.file.unread)
          × ((get
                (services setup net' now')
                json
                schedule'
                quorum'
                append
                p.key
                none
                (run_puts ps (run_put p w).0)
                []).2
              ≡ none)
    unfolding run_put
    get-put_between p ps w net' now' schedule' quorum' plain sound some_bytes fits others done =
        let is_put =
          put-IsReadable setup json p.key (IsPlainKey-Lacks plain) plain.named reads_entry p.net
            p.now p.schedule p.quorum w p.file sound chunked some_bytes fits reads_size done in
        let w1 = (run_put p w).0 in
        let w2 = run_puts ps w1 in
        let calm = run_puts_keep p.key (IsPlainKey-Lacks plain) ps w1 others in
        let chunks = input_chunks p.file is_put.plan.chunk_size in
        let (writes, succeeds) =
          get_stored setup json p.key (IsPlainKey-Lacks plain) plain.named reads_entry net' now'
            schedule' quorum' w2 (commit_entry is_put.plan) chunks (calm.same ∙ is_put.present)
            is_put.aligned
            (stored_calm setup p.key chunks w1 w2 is_put.plan.fragments calm is_put.stored) in
        (writes ∙ flatten-input_chunks p.file is_put.plan.chunk_size, succeeds)

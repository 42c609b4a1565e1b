-- ===== src/Kvctl/Others.antt =====
-- What a put of cmd/kvctl/main.go does to the other keys, through metad and the storage nodes.
pub mod Between
pub mod Tests
use mathlib.Core.List.{flatten}
use frag_kv.Base.{
  Str, ℕ, ◌+◌, ◌≤◌, ◌<◌, ◌≡◌, ◌≢◌, refl, sym, ap, ◌∙◌, subst, List, [], ◌∷◌, Option, none, some,
  slash, Lacks, All, length, codes, Bool-cases, inl, inr, str_eq_ne,
}
use frag_kv.Base.Codec.{Codec}
use frag_kv.Base.GoMap.{GoMap}
use frag_kv.Base.Int.{ℤ, pos, max_int64}
use frag_kv.Fragment.{Info, Reader}
use frag_kv.Fragment.Collects.{flatten-input_chunks}
use frag_kv.Fragment.Splits.{input_chunks}
use frag_kv.Storage.{Store}
use frag_kv.Metadata.Types.{KeyEntry, Catalog, Command, bare, put_key, commit_key, delete_key}
use frag_kv.Metadata.Fsm.{get_key, commit_entry}
use frag_kv.Metadata.Fsm.Lookups.{apply_pointwise}
use frag_kv.Metadata.Server.{entry, parts_of}
use frag_kv.Metadata.Server.Keys.{action_request, parts_of-action}
use frag_kv.Metadata.System.Handlers.{AllowsKeys, handle_keys-keeps}
use frag_kv.Metadata.System.Heard.{decoded}
use frag_kv.Metadata.System.Kept.{Relation, Allows}
use frag_kv.Kvctl.{Json, Schedule, KeyPlan, Failure, Result, ok, err}
use frag_kv.Kvctl.Commands.{get, put, put_prepared, put_chunks, finish_put, prepare_plan, commit}
use frag_kv.Kvctl.Downloads.{IsStored, Aligned, append}
use frag_kv.Kvctl.Planned.{cut-Aligned, view, put_chunks_runs, uploaded, jobs, arranged-IsJob}
use frag_kv.Kvctl.Puts.{
  put_bytes, put_file, put_runs, prepare_done, Prepared, after_prepare, prepare_request,
  put-IsReadable,
}
use frag_kv.Kvctl.RoundTrip.{get_stored}
use frag_kv.Kvctl.Uploads.{piece_of, upload_all_keeps, upload_all_catalog}
use frag_kv.Cluster.Nodes.{IsPiece, KeptAt}
use frag_kv.Cluster.{Setup, Network, World, services, to_metad}

-- The entry of a key is as it was.
abbrev same_entry : Str → Relation
same_entry k = record {
  Rel = λ s t. get_key k t ≡ get_key k s;
  same = λ s. refl;
  after = λ s t u first later. later ∙ first;
}

-- The commands of another key leave it.
other_allowed : (json : Codec Command) (k key : Str) → key ≢ k → AllowsKeys json (same_entry k) key
other_allowed json k key apart = (
  λ e named s.
      runs (record (bare put_key) { entry = some e }) s
      ∙ ap (λ b. frag_kv.Base.if◌then◌else◌ b (some e) (get_key k s))
          (str_eq_ne e.key k (λ same. apart (sym named ∙ same))),
  λ s. runs (record (bare commit_key) { key = key }) s ∙ rw (str_eq_ne key k apart) refl,
  λ s. runs (record (bare delete_key) { key = key }) s ∙ rw (str_eq_ne key k apart) refl,
)
  where
    runs :
        (cmd : Command) (s : Catalog)
        → get_key k (frag_kv.Metadata.Fsm.apply_log json (json.marshal cmd) s).0
          ≡ frag_kv.Metadata.Fsm.Lookups.key_after cmd.type cmd k (get_key k s)
    runs cmd s = ap (get_key k) (decoded json cmd s) ∙ (apply_pointwise cmd s).0 k

module _ (setup : Setup) (k : Str) where
  -- What the system keeps of the key `k` from one world to a later one: its entry, and every chunk of it
  -- that a node holds.
  pub record IsUndisturbed (u v : World) : Type 0 where
    pub same : get_key k v.catalog ≡ get_key k u.catalog
    pub pieces :
        (chunks : List Str) (id content addr : Str)
        → IsPiece k chunks id content
        → KeptAt setup.metas id content addr u.stores
        → KeptAt setup.metas id content addr v.stores

  pub calm_refl : (u : World) → IsUndisturbed u u
  calm_refl u = record { same = refl; pieces = λ chunks id content addr piece kept. kept }

  pub then-IsUndisturbed :
      {u v x : World} → IsUndisturbed u v → IsUndisturbed v x → IsUndisturbed u x
  then-IsUndisturbed first later = record {
    same = later.same ∙ first.same;
    pieces = λ chunks id content addr piece kept.
        later.pieces chunks id content addr piece (first.pieces chunks id content addr piece kept);
  }

  pub stored_calm :
      (chunks : List Str) (u v : World) (fs : List Info)
      → IsUndisturbed u v
      → All (IsStored setup k chunks u.stores) fs
      → All (IsStored setup k chunks v.stores) fs
  stored_calm chunks u v [] calm _ = tt
  stored_calm chunks u v (f ∷ fs) calm (here, later) = (
    record {
      content = here.content;
      job = here.job;
      held = record {
        primary = here.held.primary;
        replicas = here.held.replicas;
        addressed = here.held.addressed;
        host = here.held.host;
        kept =
            calm.pieces chunks f.id here.content here.held.primary (piece_of here.job)
              here.held.kept;
      };
    },
    stored_calm chunks u v fs calm later,
  )

module _ (setup : Setup) (net : Network) (now : ℕ) (k key : Str) (apart : key ≢ k)
    (single : Lacks slash key) where
  -- A request about one key leaves the entries of the others.
  action_keeps_entry :
      (action body : Str) (s : Catalog)
      → get_key k (to_metad setup net now (action_request key action body) s).0 ≡ get_key k s
  unfolding to_metad
  action_keeps_entry action body s =
      let r = action_request key action body in
      handle_keys-keeps setup.commands (same_entry k) setup.floats setup.order setup.place
        setup.config (net.raft r) now setup.bodies r
        (subst (λ (p : Str × Str). AllowsKeys setup.commands (same_entry k) p.0) {x = (key, action)}
          (sym (parts_of-action key action single)) (other_allowed setup.commands k key apart))
        s

  module _ (json : Json) (single_k : Lacks slash k) (schedule : Schedule) (quorum : ℤ) where
    finish-IsUndisturbed :
        (p : World × Option Failure)
        → IsUndisturbed setup k p.0
            (finish_put (services setup net now) json schedule quorum key p).0
    unfolding commit
    finish-IsUndisturbed (u, some e) = record {
      same = refl;
      pieces = λ chunks id content addr piece kept. kept;
    }
    finish-IsUndisturbed (u, none) = record {
      same = action_keeps_entry (codes "commit") [] u.catalog;
      pieces = λ chunks id content addr piece kept. kept;
    }

    uploads-IsUndisturbed :
        (plan : KeyPlan) (chunks : List Str) (al : Aligned key 0 plan.fragments chunks) (u : World)
        → IsUndisturbed setup k u
            (uploaded setup net now json schedule quorum key single plan chunks al u).0
    uploads-IsUndisturbed plan chunks al u =
        let js =
          schedule.arrange (Info × Str)
            (jobs setup net now json schedule quorum key single plan chunks al) in
        record {
          same = ap (get_key k) (upload_all_catalog setup net now quorum js u);
          pieces = λ chunks' id content addr piece kept.
              upload_all_keeps setup net now quorum k chunks' single_k key chunks single
                (λ e. absurd (apart (sym e))) js u id content addr piece
                (arranged-IsJob setup net now json schedule quorum key single plan chunks al) kept;
        }

    prepared_failed :
        (r : Reader) (p : World × Result KeyPlan) (e : Failure)
        → p.1 ≡ err e
        → (put_prepared (services setup net now) json schedule quorum key r p).0 ≡ p.0
    prepared_failed r (u, err e') e h = refl
    prepared_failed r (u, ok plan) e h = absurd (cc h)

    module _ (named : key ≢ [])
        (reads_entry : (e : KeyEntry) → json.key_plan (entry e) ≡ some (view e)) (w : World)
        (r : Reader) (sound : r.fault ≡ none) (chunked : 0 < setup.config.chunk_size)
        (some_bytes : 0 < length r.unread)
        (fits : length r.unread + setup.config.chunk_size ≤ max_int64)
        (reads_size : (size : ℤ) → setup.bodies.total_size (json.total_size size) ≡ some size) where
      abbrev put_result : World × Option Failure
      put_result = put_bytes setup json key single named reads_entry net now schedule quorum w r

      abbrev prepare_result : World × Result KeyPlan
      prepare_result = prepare_plan (services setup net now) json key (pos (length r.unread)) w

      planned : World
      planned = record w {
        catalog =
            after_prepare setup json key single named reads_entry net now schedule quorum w r sound
              chunked some_bytes fits reads_size;
      }

      planned-IsUndisturbed : IsUndisturbed setup k w planned
      unfolding planned
      planned-IsUndisturbed = record {
        same =
            action_keeps_entry (codes "prepare") (json.total_size (pos (length r.unread)))
              w.catalog;
        pieces = λ chunks id content addr piece kept. kept;
      }

      failed-IsUndisturbed :
          (e : Failure) → prepare_result.1 ≡ err e → IsUndisturbed setup k w put_result.0
      unfolding put prepare_plan planned
      failed-IsUndisturbed e failed =
          subst (IsUndisturbed setup k w) (sym (prepared_failed r prepare_result e failed))
            planned-IsUndisturbed

      sent-IsUndisturbed :
          (plan : KeyPlan) → prepare_result.1 ≡ ok plan → IsUndisturbed setup k w put_result.0
      unfolding planned
      sent-IsUndisturbed plan done =
          let p =
            prepare_done setup json key single named reads_entry net now schedule quorum w r sound
              chunked some_bytes fits reads_size plan done in
          let chunks = input_chunks r p.plan.chunk_size in
          let al = cut-Aligned key 0 p.plan.fragments chunks p.promised.cut in
          let runs =
            put_runs setup json key single named reads_entry net now schedule quorum w r sound
              chunked some_bytes fits reads_size p
            ∙ put_chunks_runs setup net now json schedule quorum key single (view p.plan) chunks al
                planned in
          let sent =
            uploaded setup net now json schedule quorum key single (view p.plan) chunks al
              planned in
          subst (λ q. IsUndisturbed setup k w q.0) (sym runs)
            (then-IsUndisturbed setup k planned-IsUndisturbed (
              then-IsUndisturbed setup k (uploads-IsUndisturbed (view p.plan) chunks al planned)
                (finish-IsUndisturbed sent)))

      pub put-IsUndisturbed :
          (o : Result KeyPlan) → prepare_result.1 ≡ o → IsUndisturbed setup k w put_result.0
      put-IsUndisturbed (ok plan) e = sent-IsUndisturbed plan e
      put-IsUndisturbed (err e) failed = failed-IsUndisturbed e failed

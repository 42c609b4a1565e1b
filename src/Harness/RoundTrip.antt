-- ===== src/Harness/RoundTrip.antt =====
-- GetValue of experiments/harness/harness.go behind PutValue, end to end.
use mathlib.Core.Option
use mathlib.Core.Option.{some-injective}
use mathlib.Core.List
use frag_kv.Base.{
  Str, ℕ, ◌+◌, ◌≤◌, ◌<◌, ◌≡◌, ◌≢◌, refl, sym, ap, ◌∙◌, subst, List, [], ◌∷◌, Option, none, some,
  true, arith, slash, Lacks, All, length, codes, if◌then◌else◌, Bool,
}
use frag_kv.Base.GoMap.{GoMap}
use frag_kv.Base.Int.{ℤ, pos, max_int64}
use frag_kv.Fragment.{Info, Reader}
use frag_kv.Fragment.Splits.{input_chunks}
use frag_kv.Storage.{Store}
use frag_kv.Metadata.Types.{KeyEntry}
use frag_kv.Metadata.Fsm.{get_key, commit_entry}
use frag_kv.Kvctl.{Failure, pair_up}
use frag_kv.Kvctl.Uploads.{IsJob, upload_all-Held}
use frag_kv.Cluster.{Setup, Network, World, services, to_metad}
use frag_kv.Metadata.Server.{entry}
use frag_kv.Kvctl.{Json, Schedule, KeyPlan, Result, ok, err, index_out_of_range}
use frag_kv.Kvctl.Commands.{prepare_plan}
use frag_kv.Kvctl.Planned.{view, cut-Aligned, pair_up-IsJob, jobs-IsStored}
use frag_kv.Kvctl.Puts.{Prepared, prepare_done, after_prepare}
use frag_kv.Kvctl.Downloads.{Aligned, IsStored}
use frag_kv.Harness.{send_all, put_value, put_entry, commit_blindly, get_value}
use frag_kv.Harness.Gets.{get_value_stored}
use frag_kv.Harness.Puts.{
  IsAddressed, marked_entry, commit_marks, send_all_catalog, send_all_uploads,
}
use frag_kv.Metadata.Server.Keys.{action_request, commit_runs, changed_state}
use frag_kv.Harness.Slices.{slices-pair_up}

all-IsAddressed :
    (fs : List Info) (cs : List Str)
    → All IsAddressed fs
    → All (λ job. IsAddressed job.0) (pair_up fs cs).0
unfolding pair_up
all-IsAddressed [] cs h = tt
all-IsAddressed (f ∷ fs) [] h = tt
all-IsAddressed (f ∷ fs) (c ∷ cs) (here, later) = (here, all-IsAddressed fs cs later)

abbrev as_listed : Schedule
as_listed = record { arrange = λ A xs. xs; arrange_perm = λ A xs. List.Permᴰ.refl xs }

abbrev value_of : Str → Reader
value_of content = record { unread = content; fault = none }

module _ (setup : Setup) (json : Json) (key : Str) (single : Lacks slash key) (named : key ≢ [])
    (reads_entry : (e : KeyEntry) → json.key_plan (entry e) ≡ some (view e)) (net : Network)
    (now : ℕ) (quorum : ℤ) (w : World) (content : Str) (chunked : 0 < setup.config.chunk_size)
    (some_bytes : 0 < length content) (fits : length content + setup.config.chunk_size ≤ max_int64)
    (reads_size : (size : ℤ) → setup.bodies.total_size (json.total_size size) ≡ some size) where
  abbrev putting : World × Option Failure
  putting = put_value (services setup net now) json quorum key content w

  abbrev planned_put : World × Result KeyPlan
  planned_put = prepare_plan (services setup net now) json key (pos (length content)) w

  abbrev Plan : Type 0
  Plan =
      Prepared setup json key single named reads_entry net now as_listed quorum w (value_of content)
        refl chunked some_bytes fits reads_size

  begun : putting.1 ≡ none → Plan
  unfolding put_value
  begun done =
      let (plan, prepared) = planned_by planned_put done in
      prepare_done setup json key single named reads_entry net now as_listed quorum w
        (value_of content) refl chunked some_bytes fits reads_size plan prepared
    where
      planned_by :
          (p : World × Result KeyPlan)
          → (put_entry (services setup net now) json quorum key content p).1 ≡ none
          → (plan : KeyPlan) × (p.1 ≡ ok plan)
      planned_by (w', ok plan) h = (plan, refl)
      planned_by (w', err e) h = absurd (cc h)

  abbrev behind : Plan → World
  behind p = record w {
    catalog =
        after_prepare setup json key single named reads_entry net now as_listed quorum w
          (value_of content) refl chunked some_bytes fits reads_size;
  }

  abbrev cut_of : Plan → List Str
  cut_of p = input_chunks (value_of content) p.plan.chunk_size

  abbrev jobs_of : Plan → List (Info × Str)
  jobs_of p = (pair_up p.plan.fragments (cut_of p)).0

  abbrev sent_of : Plan → World × Option Failure
  sent_of p = send_all (services setup net now) json quorum (jobs_of p) (behind p)

  plan-Aligned : (p : Plan) → Aligned key 0 p.plan.fragments (cut_of p)
  plan-Aligned p = cut-Aligned key 0 p.plan.fragments (cut_of p) p.promised.cut

  jobs_sound :
      (p : Plan)
      → ((pair_up p.plan.fragments (cut_of p)).1 ≡ true) × All (IsJob key (cut_of p)) (jobs_of p)
  jobs_sound p =
      pair_up-IsJob key (cut_of p) [] 0 p.plan.fragments (cut_of p) refl refl (plan-Aligned p)

  abbrev closed : World → List (Info × Str) × Bool → World × Option Failure
  closed u (js, sound) =
      let sent = send_all (services setup net now) json quorum js u in
      if sound
      then commit_blindly (services setup net now) json quorum key sent
      else (sent.0, some index_out_of_range)

  -- PutValue behind its prepare sends the chunks that Split would cut, and commits.
  put_value_runs :
      (p : Plan) → putting ≡ commit_blindly (services setup net now) json quorum key (sent_of p)
  unfolding put_value
  put_value_runs p =
      ap (put_entry (services setup net now) json quorum key content) p.runs
      ∙ ap (closed (behind p)) (
          slices-pair_up key (value_of content) p.plan.chunk_size p.plan.fragments
            (omega (arith, fits)) p.promised.cut)
      ∙ rw (jobs_sound p).0 refl

  -- A commit whose answer arrives leaves the stores, and the entry but for its mark.
  committed_blindly :
      (q : World × Option Failure)
      → (commit_blindly (services setup net now) json quorum key q).1 ≡ none
      → (q.1 ≡ none)
        × ((commit_blindly (services setup net now) json quorum key q).0.stores ≡ q.0.stores)
        × (marked_entry key (commit_blindly (services setup net now) json quorum key q).0.catalog
            ≡ marked_entry key q.0.catalog)
  unfolding to_metad
  committed_blindly (u, some e) h = absurd (cc h)
  committed_blindly (u, none) h =
      let r = action_request key (codes "commit") [] in
      (
        refl,
        refl,
        ap (λ p. marked_entry key p.0)
              (commit_runs setup.floats setup.commands setup.order setup.place setup.config
                (net.raft r) now setup.bodies key u.catalog [] single named)
            ∙ ap (marked_entry key) (changed_state 204 _)
            ∙ commit_marks setup.commands (net.raft r) key key u.catalog,
      )

  -- A value of at least one byte that PutValue has put with success is what GetValue returns, whatever
  -- became of the commit, whatever Raft did and however the network treated the copies, in the put and
  -- in the get; where each fragment of the entry has an address, for a key that is not empty and has no
  -- slash, and a chunk size above zero that an int64 holds together with the length of the value.
  pub get_value-put_value :
      (net' : Network) (now' : ℕ) (e : KeyEntry)
      → putting.1 ≡ none
      → get_key key putting.0.catalog ≡ some e
      → All IsAddressed e.fragments
      → (get_value (services setup net' now') json key putting.0).1 ≡ ok content
  get_value-put_value net' now' e done present addressed =
      let p = begun done in
      let runs = put_value_runs p in
      let (sent, stores, marked) =
        committed_blindly (sent_of p) (ap (λ q. q.1) (sym runs) ∙ done) in
      let same : commit_entry p.plan ≡ commit_entry e = some-injective _ _ (
        sym (
          ap (λ q. marked_entry key q.0.catalog) runs
          ∙ marked
          ∙ ap (marked_entry key)
              (send_all_catalog setup net now json quorum (jobs_of p) (behind p))
          ∙ ap (Option.map commit_entry) p.promised.stored)
        ∙ ap (Option.map commit_entry) present) in
      let jobs_addressed =
        all-IsAddressed p.plan.fragments (cut_of p)
          (subst (λ (x : KeyEntry). All IsAddressed x.fragments) (sym same) addressed) in
      let (after, uploads) =
        send_all_uploads setup net now json quorum (jobs_of p) (behind p) jobs_addressed in
      let held =
        upload_all-Held setup net now quorum key (cut_of p) single (jobs_of p) (behind p)
          (jobs_sound p).1 (uploads sent) in
      let kept = ap (λ q. q.0.stores) runs ∙ stores ∙ ap (λ u. u.stores) after in
      let stored : All (IsStored setup key (cut_of p) putting.0.stores) p.plan.fragments =
        subst (λ (m : GoMap Store). All (IsStored setup key (cut_of p) m) p.plan.fragments)
          (sym kept)
          (jobs-IsStored key (cut_of p) setup _ 0 p.plan.fragments (cut_of p) (plan-Aligned p)
            (jobs_sound p).1 held) in
      get_value_stored setup json reads_entry key single named net' now' putting.0 e
        (value_of content) present
        (ap (λ (x : KeyEntry). x.total_size) (sym same) ∙ p.promised.totals) (omega (arith, fits))
        (subst
          (λ (x : KeyEntry).
            Aligned key 0 x.fragments (input_chunks (value_of content) x.chunk_size))
          same (plan-Aligned p))
        (subst
          (λ (x : KeyEntry).
            All (IsStored setup key (input_chunks (value_of content) x.chunk_size) putting.0.stores)
              x.fragments)
          same stored)

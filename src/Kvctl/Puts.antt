-- ===== src/Kvctl/Puts.antt =====
-- The prepare, the put and the commit of cmd/kvctl/main.go against the whole system.
use mathlib.Core.Option
use mathlib.Core.Option.{some-injective}
use frag_kv.Base.{
  Str, ℕ, ◌+◌, ◌≤◌, ◌<◌, ◌≡◌, ◌≢◌, refl, sym, ap, ◌∙◌, subst, [], Option, none, some, arith, slash,
  Lacks, All, length, codes, ◌==◌, Bool-cases, inl, inr,
}
use frag_kv.Base.GoMap.{GoMap}
use frag_kv.Storage.{Store}
use frag_kv.Base.Int.{ℤ, pos, max_int64}
use frag_kv.Fragment.{Reader}
use frag_kv.Fragment.Collects.{split-collected}
use frag_kv.Fragment.Splits.{input_chunks}
use frag_kv.Metadata.Types.{KeyEntry, Catalog}
use frag_kv.Metadata.Fsm.{get_key, commit_entry}
use frag_kv.Metadata.Store.Prepares.{IsPrepared}
use frag_kv.Metadata.Server
use frag_kv.Metadata.Server.{Payload, entry, json_resp}
use frag_kv.Metadata.Server.Keys.{action_request, committed_entry}
use frag_kv.Metadata.Server.Prepared.{handle_keys-IsPrepared}
use frag_kv.Kvctl.{
  KeyPlan, Json, Schedule, Failure, Result, ok, err, in_fragment, opened, expect, plan_of,
  failure_of,
}
use frag_kv.Kvctl.Commands.{put, put_prepared, put_split, put_chunks, prepare_plan, commit}
use frag_kv.Kvctl.Uploads.{upload_all_catalog}
use frag_kv.Kvctl.Downloads.{IsStored, Aligned}
use frag_kv.Kvctl.Planned.{cut-Aligned, view, put_chunks_done, uploaded, jobs}
use frag_kv.Cluster.{Setup, Network, World, services, to_metad}

pub expect_ok :
    {A : Type 0} (status : ℕ) (read : Payload → Result A) (resp : Server.Response) (a : A)
    → expect status read (some resp) ≡ ok a
    → resp.status ≡ status
expect_ok status read resp a h = ground (arith, h)

plan_not_in_fragment : (o : Option KeyPlan) (f : Failure) → plan_of o ≢ err (in_fragment f)
plan_not_in_fragment none f h = cc h
plan_not_in_fragment (some plan) f h = cc h

expect_not_in_fragment :
    (status : ℕ) (json : Json) (resp : Server.Response) {f : Failure}
    → expect status (λ p. plan_of (json.key_plan p)) (some resp) ≢ err (in_fragment f)
expect_not_in_fragment status json resp {f} h = elim (Bool-cases (resp.status == status)) [
  | inl same ↦ plan_not_in_fragment (json.key_plan resp.payload) f (rw (expect, same) at h)
  | inr other ↦ cc (rw (expect, other) at h)
]

pub expect_done :
    (status : ℕ) (resp : Server.Response)
    → failure_of (expect status (λ p. ok tt) (some resp)) ≡ none
    → resp.status ≡ status
expect_done status resp h = ground (arith, h)

module _ (setup : Setup) (json : Json) (key : Str) (single : Lacks slash key) (named : key ≢ [])
    (reads_entry : (e : KeyEntry) → json.key_plan (entry e) ≡ some (view e)) where
  abbrev pub put_bytes : Network → ℕ → Schedule → ℤ → World → Reader → World × Option Failure
  put_bytes net now schedule quorum w r =
      put (services setup net now) json schedule quorum key (opened (pos (length r.unread)) r) w

  module _ (net : Network) (now : ℕ) where
    -- A commit that succeeds marks the entry and leaves the stores.
    pub commit_done :
        (w : World)
        → (commit (services setup net now) json key w).1 ≡ none
        → ((commit (services setup net now) json key w).0.stores ≡ w.stores)
          × (get_key key (commit (services setup net now) json key w).0.catalog
              ≡ Option.map commit_entry (get_key key w.catalog))
    unfolding commit to_metad
    commit_done w done =
        let r = action_request key (codes "commit") [] in
        (
          refl,
          committed_entry setup.floats setup.commands setup.order setup.place setup.config
              (net.raft r) now setup.bodies key w.catalog [] single named
              (expect_done 204 (to_metad setup net now r w.catalog).1 done),
        )

    module _ (schedule : Schedule) (quorum : ℤ) (w : World) (r : Reader) (sound : r.fault ≡ none)
        (chunked : 0 < setup.config.chunk_size) (some_bytes : 0 < length r.unread)
        (fits : length r.unread + setup.config.chunk_size ≤ max_int64)
        (reads_size : (size : ℤ) → setup.bodies.total_size (json.total_size size) ≡ some size) where
      abbrev pub prepare_request : Server.Request
      prepare_request =
          action_request key (codes "prepare") (json.total_size (pos (length r.unread)))

      abbrev pub after_prepare : Catalog
      after_prepare = (to_metad setup net now prepare_request w.catalog).0

      pub record Prepared : Type 0 where
        pub plan : KeyEntry
        pub runs :
            prepare_plan (services setup net now) json key (pos (length r.unread)) w
            ≡ (record w { catalog = after_prepare }, ok (view plan))
        pub promised :
            IsPrepared setup.floats setup.commands setup.order setup.place setup.config key now r
              w.catalog after_prepare plan

      -- A prepare that succeeds returns the entry that metad has stored.
      pub prepare_done :
          (plan : KeyPlan)
          → (prepare_plan (services setup net now) json key (pos (length r.unread)) w).1 ≡ ok plan
          → Prepared
      unfolding prepare_plan to_metad
      prepare_done plan done =
          let resp = (to_metad setup net now prepare_request w.catalog).1 in
          let (e, responds, promised, _) =
            handle_keys-IsPrepared setup.floats setup.commands setup.order setup.place setup.config
              setup.bodies key single named (net.raft prepare_request) now w.catalog r
              (json.total_size (pos (length r.unread))) (reads_size (pos (length r.unread))) chunked
              some_bytes fits (expect_ok 200 (λ p. plan_of (json.key_plan p)) resp plan done) in
          record {
            plan = e;
            runs =
                ap (λ a. (record w { catalog = after_prepare }, a))
                  (ap
                      (λ (a : Server.Response).
                        expect 200 (λ p. plan_of (json.key_plan p)) (some a))
                      responds
                    ∙ ap plan_of (reads_entry e));
            promised = promised;
          }

      abbrev pub put_file : World × Option Failure
      put_file = put_bytes net now schedule quorum w r

      -- A put behind its prepare sends the chunks of the file.
      pub put_runs :
          (p : Prepared)
          → put_file
            ≡ put_chunks
                (services setup net now)
                json
                schedule
                quorum
                key
                (view p.plan)
                (input_chunks r p.plan.chunk_size)
                (record w { catalog = after_prepare })
      unfolding put
      put_runs p =
          ap (put_prepared (services setup net now) json schedule quorum key r) p.runs
          ∙ ap
              (λ o.
                put_split (services setup net now) json schedule quorum key (view p.plan) o
                  (record w { catalog = after_prepare }))
              (split-collected key r p.plan.chunk_size sound)

      pub put_begins : put_file.1 ≡ none → Prepared
      unfolding put
      put_begins done = let (plan, prepared) = prepared_plan _ done in prepare_done plan prepared
        where
          prepared_plan :
              (p : World × Result KeyPlan)
              → (put_prepared (services setup net now) json schedule quorum key r p).1 ≡ none
              → (plan : KeyPlan) × (p.1 ≡ ok plan)
          prepared_plan (w', ok plan) h = (plan, refl)
          prepared_plan (w', err e) h = absurd (cc h)

      -- A put that fails in a fragment has prepared.
      pub put_begun : (f : Failure) → put_file.1 ≡ some (in_fragment f) → Prepared
      unfolding put prepare_plan
      put_begun f done =
          let (plan, prepared) =
            prepared_plan (prepare_plan (services setup net now) json key (pos (length r.unread)) w)
              (expect_not_in_fragment 200 json _) done in
          prepare_done plan prepared
        where
          prepared_plan :
              (p : World × Result KeyPlan)
              → p.1 ≢ err (in_fragment f)
              → (put_prepared (services setup net now) json schedule quorum key r p).1
                ≡ some (in_fragment f)
              → (plan : KeyPlan) × (p.1 ≡ ok plan)
          prepared_plan (w', ok plan) sure h = (plan, refl)
          prepared_plan (w', err e) sure h = absurd (sure (ap err (some-injective _ _ h)))

      -- What a put that succeeds leaves: the committed entry of its key, and the chunks of the file.
      pub record IsReadable (after : World) : Type 0 where
        pub plan : KeyEntry
        pub present : get_key key after.catalog ≡ some (commit_entry plan)
        pub whole : plan.total_size ≡ pos (length r.unread)
        pub aligned : Aligned key 0 plan.fragments (input_chunks r plan.chunk_size)
        pub stored :
            All (IsStored setup key (input_chunks r plan.chunk_size) after.stores) plan.fragments

      pub put-IsReadable : put_file.1 ≡ none → IsReadable put_file.0
      put-IsReadable done =
          let p = put_begins done in
          let chunks = input_chunks r p.plan.chunk_size in
          let w1 : World = record w { catalog = after_prepare } in
          let runs = put_runs p in
          let aligned = cut-Aligned key 0 p.plan.fragments chunks p.promised.cut in
          let (commits, stored) =
            put_chunks_done setup net now json schedule quorum key single (view p.plan) chunks
              aligned w1 (ap (λ q. q.1) (sym runs) ∙ done) in
          let w2 =
            (uploaded setup net now json schedule quorum key single (view p.plan) chunks aligned
              w1).0 in
          let all = runs ∙ commits in
          let (stores, marked) = commit_done w2 (ap (λ q. q.1) (sym all) ∙ done) in
          let unchanged =
            upload_all_catalog setup net now quorum
              (schedule.arrange _
                (jobs setup net now json schedule quorum key single (view p.plan) chunks aligned))
              w1 in
          record {
            plan = p.plan;
            present =
                ap (λ q. get_key key q.0.catalog) all
                ∙ marked
                ∙ ap (λ c. Option.map commit_entry (get_key key c)) unchanged
                ∙ ap (Option.map commit_entry) p.promised.stored;
            whole = p.promised.totals;
            aligned = aligned;
            stored =
                subst (λ (m : GoMap Store). All (IsStored setup key chunks m) p.plan.fragments)
                  (sym (ap (λ q. q.0.stores) all ∙ stores)) stored;
          }

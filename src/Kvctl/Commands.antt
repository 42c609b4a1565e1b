-- ===== src/Kvctl/Commands.antt =====
-- The commands of cmd/kvctl/main.go: put, get, delete and list, over the requests that they make.
use frag_kv.Base.{Str, List, [], Option, none, some, ◌==◌, codes, length, if◌then◌else◌}
use frag_kv.Base.Int.{ℤ}
use frag_kv.Fragment.{Fault, Info, Reader, Outcome, split}
use frag_kv.Fragment.Collects.{collect}
use frag_kv.Transport.{get_method, delete_method}
use frag_kv.Metadata.Server
use frag_kv.Metadata.Server.{Payload}
use frag_kv.Metadata.Server.Keys.{key_request, action_request}
use frag_kv.Kvctl.{
  Services, Schedule, KeyPlan, Json, Failure, opening, no_answer, key_not_found, split_failed,
  out_of_fuel, index_out_of_range, Result, ok, err, Source, unreadable, opened, plan_of, expect,
  failure_of, pair_up, upload_all, download_all, write_from,
}

module _ {W : Type 0} (services : Services W) (json : Json) where
  -- preparePlan
  unfoldable pub prepare_plan : Str → ℤ → W → W × Result KeyPlan
  prepare_plan key size w =
      let (w', answer) =
        services.metad (action_request key (codes "prepare") (json.total_size size)) w in
      (w', expect 200 (λ p. plan_of (json.key_plan p)) answer)

  -- commitKey
  unfoldable pub commit : Str → W → W × Option Failure
  commit key w =
      let (w', answer) = services.metad (action_request key (codes "commit") []) w in
      (w', failure_of (expect 204 (λ p. ok tt) answer))

  abbrev pub entry_answer : Option Server.Response → Result KeyPlan
  entry_answer none = err no_answer
  entry_answer (some resp) =
      if resp.status == 404
      then err key_not_found
      else expect 200 (λ p. plan_of (json.key_plan p)) (some resp)

  -- getKeyEntry
  unfoldable pub get_key_entry : Str → W → W × Result KeyPlan
  get_key_entry key w =
      let (w', answer) = services.metad (key_request get_method key) w in (w', entry_answer answer)

  -- cmdDelete
  unfoldable pub delete : Str → W → W × Option Failure
  delete key w =
      let (w', answer) = services.metad (key_request delete_method key) w in
      (w', failure_of (expect 204 (λ p. ok tt) answer))

  abbrev names_of : Option Server.Response → Result (List Str)
  names_of none = err no_answer
  names_of (some resp) = ok (json.names resp.payload)

  -- cmdList, for sort.Strings: the lines that are printed. The status is not looked at.
  unfoldable pub list : (List Str → List Str) → W → W × Result (List Str)
  list sort w =
      let (w', answer) = services.metad (key_request get_method []) w in
      elim (names_of answer) [ err e ↦ (w', err e) | ok keys ↦ (w', ok (sort keys)) ]

  module _ (schedule : Schedule) (quorum : ℤ) where
    -- A put, from the failure of the uploads on.
    abbrev pub finish_put : Str → W × Option Failure → W × Option Failure
    finish_put key (w, some e) = (w, some e)
    finish_put key (w, none) = commit key w

    -- A put with the chunks of the file. A fragment without a chunk makes the client panic, behind the
    -- uploads that it has started.
    unfoldable pub put_chunks : Str → KeyPlan → List Str → W → W × Option Failure
    unfolding pair_up upload_all
    put_chunks key plan chunks w =
        let (jobs, enough) = pair_up plan.fragments chunks in
        let uploaded = upload_all services quorum (schedule.arrange (Info × Str) jobs) w in
        if enough then finish_put key uploaded else (uploaded.0, some index_out_of_range)

    -- A put with the plan that metad returned and what Split made of the file.
    abbrev pub put_split :
        Str → KeyPlan → Option (Outcome (List Str) Fault) → W → W × Option Failure
    put_split key plan none w = (w, some out_of_fuel)
    put_split key plan (some outcome) w = elim outcome.error [
      | some e ↦ (w, some (split_failed e))
      | none ↦ put_chunks key plan outcome.state w
    ]

    -- A put behind its prepare.
    abbrev pub put_prepared : Str → Reader → W × Result KeyPlan → W × Option Failure
    put_prepared key r (w, err e) = (w, some e)
    put_prepared key r (w, ok plan) = put_split key plan (split key r plan.chunk_size collect []) w

    -- cmdPut
    unfoldable pub put : Str → Source → W → W × Option Failure
    put key (unreadable e) w = (w, some (opening e))
    put key (opened size r) w = put_prepared key r (prepare_plan key size w)

    module _ {O : Type 0} (write : Str → O → O × Option Fault) where
      -- A get with the entry that metad returned.
      unfoldable pub get_planned : KeyPlan → W → O → W × O × Option Failure
      unfolding download_all write_from
      get_planned plan w out =
          let (w', fetched) = download_all services (schedule.arrange Info plan.fragments) [] w in
          elim fetched [
            | err e ↦ (w', out, some e)
            | ok fetches ↦
                (let (out', failure) = write_from write fetches (length plan.fragments) 0 out in
                  (w', out', failure))
          ]

      -- A get behind the request for its entry; `create` is the error of os.Create.
      abbrev pub get_entered : Option Fault → W × Result KeyPlan → O → W × O × Option Failure
      get_entered create (w, err e) out = (w, out, some e)
      get_entered (some e) (w, ok plan) out = (w, out, some (opening e))
      get_entered none (w, ok plan) out = get_planned plan w out

      -- cmdGet
      unfoldable pub get : Str → Option Fault → W → O → W × O × Option Failure
      get key create w out = get_entered create (get_key_entry key w) out

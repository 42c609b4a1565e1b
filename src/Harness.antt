-- ===== src/Harness.antt =====
-- experiments/harness/harness.go: PutValue and GetValue, the client of the experiments. Where kvctl cuts
-- the file with Split, PutValue slices the value by the offsets of the plan. The uploads and downloads
-- run in the order of the fragments here. `none` stands for a panic of the slicing.
pub mod Gets
pub mod Puts
pub mod Reads
pub mod RoundTrip
pub mod Slices
pub mod Tests
use frag_kv.Base.{
  Str, ℕ, zero, suc, ◌+◌, ◌-◌, ◌*◌, List, [], ◌∷◌, ◌++◌, Option, none, some, Bool, true, false,
  ◌==◌, ◌&&◌, codes, leb, length, take, drop, if◌then◌else◌,
}
use frag_kv.Base.Int.{ℤ, pos, negsuc, ◌+ℤ◌, wrap64, ltb_ℤ}
use frag_kv.Fragment.{Info, Reader, effective_size, bytes_of}
use frag_kv.Transport.{get_method, read_all}
use frag_kv.Metadata.Server.Keys.{action_request}
use frag_kv.Kvctl.{
  Services, Json, KeyPlan, Failure, no_answer, all_replicas_failed, index_out_of_range, Result, ok,
  err, upload_request, download_request, created, first_failure, copy_of,
}
use frag_kv.Kvctl.Commands.{prepare_plan, get_key_entry}

-- start and end: the offset of a fragment, and that of its end but at most the length of the value
unfoldable pub slice_bounds : ℕ → Str → Info → ℤ × ℤ
slice_bounds chunk_size content frag =
    let start = wrap64 (pos (frag.index * chunk_size)) in
    let end = start +ℤ frag.size in
    (start, if ltb_ℤ (pos (length content)) end then pos (length content) else end)

-- data[start:end]
unfoldable pub slice : Str → ℤ → ℤ → Option Str
slice content (pos start) (pos end) =
    if leb start end && leb end (length content)
    then some (take (end - start) (drop start content))
    else none
slice content start end = none

abbrev pub slice_in : Str → ℤ × ℤ → Option Str
slice_in content (start, end) = slice content start end

-- The bytes of a fragment.
unfoldable pub chunk_of : ℕ → Str → Info → Option Str
unfolding slice_bounds slice
chunk_of chunk_size content frag = slice_in content (slice_bounds chunk_size content frag)

abbrev pub add_job : Info → Str → List (Info × Str) × Bool → List (Info × Str) × Bool
add_job frag chunk (jobs, sound) = ((frag, chunk) ∷ jobs, sound)

-- The fragments with their slices, up to the first that panics, and whether none does.
unfoldable pub slices : ℕ → Str → List Info → List (Info × Str) × Bool
unfolding chunk_of
slices chunk_size content [] = ([], true)
slices chunk_size content (f ∷ fs) =
    let rest = slices chunk_size content fs in
    elim (chunk_of chunk_size content f) [ none ↦ ([], false) | some chunk ↦ add_job f chunk rest ]

module _ {W : Type 0} (services : Services W) (json : Json) (quorum : ℤ) where
  -- The upload of one fragment; a fragment without an address is passed over.
  unfoldable pub send : Info → Str → W → W × Option Failure
  send frag chunk w = elim frag.node_addrs [
    | [] ↦ (w, none)
    | primary ∷ replicas ↦
        (let (w', answer) =
            services.storaged primary (upload_request frag.id chunk replicas quorum) w in
          (w', created answer))
  ]

  unfoldable pub send_all : List (Info × Str) → W → W × Option Failure
  unfolding send
  send_all [] w = (w, none)
  send_all ((frag, chunk) ∷ jobs) w =
      let (w', failure) = send frag chunk w in
      let (w'', later) = send_all jobs w' in (w'', first_failure failure later)

  -- The commit, whose answer is not looked at.
  abbrev pub commit_blindly : Str → W × Option Failure → W × Option Failure
  commit_blindly key (w, some e) = (w, some e)
  commit_blindly key (w, none) =
      let (w', answer) = services.metad (action_request key (codes "commit") []) w in
      elim answer [ none ↦ (w', some no_answer) | some resp ↦ (w', none) ]

  abbrev pub put_entry : Str → Str → W × Result KeyPlan → W × Option Failure
  put_entry key content (w, err e) = (w, some e)
  put_entry key content (w, ok plan) =
      let (jobs, sound) =
        slices (bytes_of (effective_size plan.chunk_size)) content plan.fragments in
      let sent = send_all jobs w in
      if sound then commit_blindly key sent else (sent.0, some index_out_of_range)

  -- PutValue
  unfoldable pub put_value : Str → Str → W → W × Option Failure
  unfolding slices send_all
  put_value key content w =
      put_entry key content (prepare_plan services json key (pos (length content)) w)

-- make([]byte, n)
unfoldable pub zeros : ℕ → Str
zeros zero = []
zeros (suc n) = 0 ∷ zeros n

-- copy(result[offset:], data)
unfoldable pub copy_at : Str → ℤ → Str → Option Str
copy_at result (negsuc n) content = none
copy_at result (pos offset) content =
    if leb offset (length result)
    then some (
        take offset result
        ++ take (length result - offset) content
        ++ drop (offset + length content) result)
    else none

module _ {W : Type 0} (services : Services W) (json : Json) where
  -- The loop over the addresses of a fragment: its bytes, or the last error; neither where there is no
  -- address.
  unfoldable pub fetch : Str → List Str → Option Failure → W → W × Result (Option Str)
  fetch id [] none w = (w, ok none)
  fetch id [] (some e) w = (w, err e)
  fetch id (addr ∷ addrs) last w =
      let (w', answer) = services.storaged addr (download_request id) w in
      elim (copy_of answer) [
        | some content ↦ (w', ok (some content))
        | none ↦ fetch id addrs (some all_replicas_failed) w'
      ]

  -- The goroutines of GetValue, on the result so far and the first error.
  unfoldable pub fill : ℕ → List Info → Str → Option Failure → W → W × Result Str
  unfolding fetch copy_at
  fill chunk_size [] result none w = (w, ok result)
  fill chunk_size [] result (some e) w = (w, err e)
  fill chunk_size (f ∷ fs) result failed w =
      let (w', fetched) = fetch f.id f.node_addrs none w in
      elim fetched [
        | err e ↦ fill chunk_size fs result (first_failure failed (some e)) w'
        | ok copy ↦ elim copy [
          | none ↦ fill chunk_size fs result failed w'
          | some content ↦ elim (copy_at result (wrap64 (pos (f.index * chunk_size))) content) [
            | none ↦ (w', err index_out_of_range)
            | some filled ↦ fill chunk_size fs filled failed w'
          ]
        ]
      ]

  -- make panics for a negative size.
  abbrev pub get_entry : W × Result KeyPlan → W × Result Str
  get_entry (w, err e) = (w, err e)
  get_entry (w, ok plan) = elim plan.total_size [
    | negsuc n ↦ (w, err index_out_of_range)
    | pos n ↦ fill (bytes_of (effective_size plan.chunk_size)) plan.fragments (zeros n) none w
  ]

  -- GetValue
  unfoldable pub get_value : Str → W → W × Result Str
  unfolding fill zeros
  get_value key w = get_entry (get_key_entry services json key w)

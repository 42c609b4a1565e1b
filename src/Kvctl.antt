-- ===== src/Kvctl.antt =====
-- cmd/kvctl/main.go: the commands of the client. `Services` is what the client reaches over HTTP: each
-- request changes a world and is answered, or not where the connection fails. The printing, the
-- metrics and the texts of errors are left out. The fragments of a value are sent and fetched by
-- goroutines of their own; `Schedule` is the order in which these run. The path of a request is the text
-- that the client writes into the URL: what net/url and net/http make of it is up to the services.
pub mod Commands
pub mod Keys
pub mod Uploads
pub mod Downloads
pub mod Planned
pub mod Puts
pub mod RoundTrip
pub mod Failures
pub mod Others
pub mod Tests
use mathlib.Core.List.{Permᴰ}
use frag_kv.Base.{
  Str, ℕ, zero, suc, ◌+◌, List, [], ◌∷◌, ◌++◌, Option, none, some, Bool, true, false, ◌==◌, codes,
  str_eq, length, if◌then◌else◌,
}
use frag_kv.Base.Decimal.{itoa}
use frag_kv.Base.Int.{ℤ, pos, negsuc}
use frag_kv.Fragment.{Fault, Info, Reader, SplitError, Outcome, split}
use frag_kv.Fragment.Collects.{collect}
use frag_kv.Transport
use frag_kv.Transport.{get_method, put_method, delete_method, read_all, plain, fragment_url}
use frag_kv.Metadata.Server
use frag_kv.Metadata.Server.{Payload}
use frag_kv.Metadata.Server.Keys.{key_request, action_request}

pub record Services (W : Type 0) : Type 0 where
  pub metad : Server.Request → W → W × Option Server.Response
  pub storaged : Str → Transport.Request → W → W × Option (ℕ × Reader)

pub record Schedule : Type 1 where
  pub arrange : (A : Type 0) → List A → List A
  pub arrange_perm : (A : Type 0) (xs : List A) → Permᴰ (arrange A xs) xs

-- keyEntry
pub record KeyPlan : Type 0 where
  pub key : Str
  pub total_size : ℤ
  pub chunk_size : ℤ
  pub fragments : List Info

-- The bodies of requests and responses, as encoding/json writes and reads them.
pub record Json : Type 0 where
  pub total_size : ℤ → Str
  pub key_plan : Payload → Option KeyPlan
  pub names : Payload → List Str

pub data Failure : Type 0 where
  opening : Fault → Failure
  no_answer : Failure
  unexpected_status : ℕ → Failure
  bad_json key_not_found no_addresses all_replicas_failed : Failure
  split_failed : SplitError Fault → Failure
  out_of_fuel index_out_of_range : Failure
  in_fragment : Failure → Failure
  writing : Fault → Failure

pub data Result (A : Type 0) : Type 0 where
  ok : A → Result A
  err : Failure → Result A

-- The file that a put reads: its size, as Stat has it, and its content.
pub data Source : Type 0 where
  unreadable : Fault → Source
  opened : ℤ → Reader → Source

abbrev pub plan_of : Option KeyPlan → Result KeyPlan
plan_of none = err bad_json
plan_of (some plan) = ok plan

-- The answer of metad, where `status` means success.
abbrev pub expect : {A : Type 0} → ℕ → (Payload → Result A) → Option Server.Response → Result A
expect status read none = err no_answer
expect status read (some resp) =
    if resp.status == status then read resp.payload else err (unexpected_status resp.status)

abbrev pub failure_of : Result (Unit {0}) → Option Failure
failure_of (ok u) = none
failure_of (err e) = some e

abbrev pub created : Option (ℕ × Reader) → Option Failure
created none = some no_answer
created (some (status, body)) = if status == 201 then none else some (unexpected_status status)

-- The bytes of a download that succeeds.
abbrev pub copy_of : Option (ℕ × Reader) → Option Str
copy_of none = none
copy_of (some (status, body)) =
    let content = read_all body in if status == 200 then content else none

-- strings.Join, for a separator of one byte
unfoldable pub join : ℕ → List Str → Str
join sep [] = []
join sep (s ∷ []) = s
join sep (s ∷ t ∷ rest) = s ++ sep ∷ join sep (t ∷ rest)

-- fmt.Sprintf("%d", n)
abbrev pub decimal : ℤ → Str
decimal (pos n) = itoa n
decimal (negsuc n) = b'-' ∷ itoa (suc n)

-- The first failure of two.
abbrev pub first_failure : Option Failure → Option Failure → Option Failure
first_failure none later = later
first_failure (some e) later = some e

-- Each fragment with its chunk, as the loop that starts the uploads pairs them, and whether there is
-- a chunk for each.
unfoldable pub pair_up : List Info → List Str → List (Info × Str) × Bool
pair_up [] chunks = ([], true)
pair_up (f ∷ fs) [] = ([], false)
pair_up (f ∷ fs) (c ∷ cs) = let (jobs, enough) = pair_up fs cs in ((f, c) ∷ jobs, enough)

abbrev pub of_fragment : Option Failure → Option Failure
of_fragment none = none
of_fragment (some e) = some (in_fragment e)

-- fetches[i], the last that was set; nil where none was
unfoldable pub fetched_at : ℕ → List (ℕ × Str) → Str
fetched_at i [] = []
fetched_at i ((j, content) ∷ fetches) = if j == i then content else fetched_at i fetches

abbrev pub upload_request : Str → Str → List Str → ℤ → Transport.Request
upload_request id content replicas quorum = record {
  method = put_method;
  path = fragment_url [] id;
  body = plain content;
  replica_addrs = join b',' replicas;
  write_quorum = decimal quorum;
}

abbrev pub download_request : Str → Transport.Request
download_request id = record {
  method = get_method;
  path = fragment_url [] id;
  body = plain [];
  replica_addrs = [];
  write_quorum = [];
}

module _ {W : Type 0} (services : Services W) where
  -- uploadFragment
  unfoldable pub upload_fragment : Info → Str → ℤ → W → W × Option Failure
  upload_fragment frag content quorum w = elim frag.node_addrs [
    | [] ↦ (w, some no_addresses)
    | primary ∷ replicas ↦
        (let (w', answer) =
            services.storaged primary (upload_request frag.id content replicas quorum) w in
          (w', created answer))
  ]

  -- The uploads of a put, one after the other. All of them run; the failure is the first that arrives.
  unfoldable pub upload_all : ℤ → List (Info × Str) → W → W × Option Failure
  upload_all quorum [] w = (w, none)
  upload_all quorum ((frag, content) ∷ jobs) w =
      let (w', failure) = upload_fragment frag content quorum w in
      let (w'', later) = upload_all quorum jobs w' in
      (w'', first_failure (of_fragment failure) later)

  -- The loop of downloadFragment: the first address that returns the fragment.
  unfoldable pub first_copy : Str → List Str → W → W × Option Str
  first_copy id [] w = (w, none)
  first_copy id (addr ∷ addrs) w = elim (str_eq addr []) [
    | true ↦ first_copy id addrs w
    | false ↦
        (let (w', answer) = services.storaged addr (download_request id) w in
          elim (copy_of answer) [
            | some content ↦ (w', some content)
            | none ↦ first_copy id addrs w'
          ])
  ]

  -- downloadFragment
  unfoldable pub download_fragment : Info → W → W × Result Str
  unfolding first_copy
  download_fragment frag w =
      let (w', copy) = first_copy frag.id frag.node_addrs w in
      elim copy [ none ↦ (w', err all_replicas_failed) | some content ↦ (w', ok content) ]

  -- The downloads of a get, one after the other, up to the first failure.
  unfoldable pub download_all : List Info → List (ℕ × Str) → W → W × Result (List (ℕ × Str))
  unfolding download_fragment
  download_all [] fetches w = (w, ok fetches)
  download_all (frag ∷ frags) fetches w =
      let (w', result) = download_fragment frag w in
      elim result [
        | err e ↦ (w', err (in_fragment e))
        | ok content ↦ download_all frags ((frag.index, content) ∷ fetches) w'
      ]

-- The loop of a get that writes the fragments, with `left` of them to come.
unfoldable pub write_from :
    {O : Type 0} → (Str → O → O × Option Fault) → List (ℕ × Str) → ℕ → ℕ → O → O × Option Failure
write_from write fetches zero i out = (out, none)
write_from write fetches (suc left) i out =
    let (out', e) = write (fetched_at i fetches) out in
    elim e [
      | some fault ↦ (out', some (writing fault))
      | none ↦ write_from write fetches left (i + 1) out'
    ]

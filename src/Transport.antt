-- ===== src/Transport.antt =====
-- internal/transport/storaged_server.go: the HTTP handlers of a storage node. A response is its status
-- and its body; the texts of errors, the headers and the metrics are left out. `HttpClient` is what the
-- other nodes answer to this node's requests. A download states the size that the index has for it; the
-- body here is the content of the file, which has that size in a consistent store.
pub mod Headers
pub mod Replication
pub mod Targets
pub mod Tests
use frag_kv.Base.{
  Str, ℕ, ◌+◌, List, [], ◌∷◌, ◌++◌, Option, none, some, Bool, true, false, ◌==◌, ltb, codes, slash,
  trim_prefix, trim_suffix, has_suffix, str_eq, if◌then◌else◌,
}
use frag_kv.Base.Codec.{Codec}
use frag_kv.Base.GoMap.{RangeOrder}
use frag_kv.Base.Int.{ℤ}
use frag_kv.Fragment.{Fault, Reader}
use frag_kv.Storage
use frag_kv.Storage.{
  FragmentMeta, Store, Error, not_found, Result, ok, err, Faults, put, get_stream, delete,
  disk_usage,
}
use Headers.{split_on, trim_space, parse_int_header}

pub data Method : Type 0 where
  get_method put_method post_method delete_method : Method
  other_method : Str → Method

-- An absent header is the empty text.
pub record Request : Type 0 where
  pub method : Method
  pub path : Str
  pub body : Reader
  pub replica_addrs : Str
  pub write_quorum : Str

pub record Response : Type 0 where
  pub status : ℕ
  pub body : Str

abbrev pub status_only : ℕ → Response
status_only code = record { status = code; body = [] }

-- The status that a node answers to the upload of bytes to a URL, and what it answers to a download; or
-- an error. A body is a reader, which may fail.
pub record HttpClient : Type 0 where
  pub upload : Str → Str → Option ℕ
  pub download : Str → Option (ℕ × Reader)

-- io.ReadAll
abbrev pub read_all : Reader → Option Str
read_all r = elim r.fault [ none ↦ some r.unread | some e ↦ none ]

abbrev pub fragment_url : Str → Str → Str
fragment_url addr id = addr ++ codes "/fragments/" ++ id

-- sendFragment, true where it returns no error
unfoldable pub send_fragment : HttpClient → Str → Str → Str → Bool
send_fragment client addr id content = elim (client.upload (fragment_url addr id) content) [
  | none ↦ false
  | some status ↦ status == 201
]

-- The addresses of the replicas in the header, without the empty ones.
unfoldable pub non_empty : List Str → List Str
unfolding trim_space
non_empty [] = []
non_empty (a ∷ addrs) =
    let rest = non_empty addrs in
    let addr = trim_space a in if str_eq addr [] then rest else addr ∷ rest

-- The number of replicas that took the fragment, in whatever order they answer.
unfoldable pub successes : HttpClient → Str → Str → List Str → ℕ
unfolding send_fragment
successes client id content [] = 0
successes client id content (addr ∷ addrs) =
    let rest = successes client id content addrs in
    if send_fragment client addr id content then rest + 1 else rest

-- The end of putFragment, behind the local write.
unfoldable pub fan_out : HttpClient → Request → Str → Str → Response
unfolding non_empty successes split_on parse_int_header
fan_out client r id content =
    if str_eq r.replica_addrs []
    then status_only 201
    else if ltb (1 + successes client id content (non_empty (split_on b',' r.replica_addrs)))
        (parse_int_header r.write_quorum 2)
    then status_only 500
    else status_only 201

-- The fragment ID of a path, and whether the action is to replicate.
unfoldable pub target_of : Str → Str × Bool
unfolding trim_prefix trim_suffix has_suffix
target_of url_path =
    let path = trim_prefix url_path (codes "/fragments/") in
    let replicate = has_suffix path (codes "/replicate") in
    let id = if replicate then trim_suffix path (codes "/replicate") else path in
    (trim_suffix id (slash ∷ []), replicate)

abbrev pub plain : Str → Reader
plain content = record { unread = content; fault = none }

module _ (json : Codec FragmentMeta) (faults : Faults) (client : HttpClient) (now : ℕ) where
  abbrev pub stored_locally : Store × Option Error → Response → Store × Response
  stored_locally (s, some e) next = (s, status_only 500)
  stored_locally (s, none) next = (s, next)

  -- putFragment
  unfoldable pub put_fragment : Request → Str → Store → Store × Response
  unfolding fan_out
  put_fragment r id s = elim (read_all r.body) [
    | none ↦ (s, status_only 400)
    | some content ↦
        stored_locally (put json faults id (plain content) now s) (fan_out client r id content)
  ]

  -- The statuses of getFragment.
  abbrev pub stream_response : Result (Str × ℤ) → Response
  stream_response (ok (content, size)) = record { status = 200; body = content }
  stream_response (err not_found) = status_only 404
  stream_response (err e) = status_only 500

  -- getFragment
  unfoldable pub get_fragment : Str → Store → Store × Response
  get_fragment id s = (s, stream_response (get_stream json faults id s))

  -- deleteFragment
  unfoldable pub delete_fragment : Str → Store → Store × Response
  delete_fragment id s =
      let (s', e) = delete json faults id s in
      elim e [ some x ↦ (s', status_only 500) | none ↦ (s', status_only 204) ]

  -- The end of replicateFrom, for what the source answers.
  abbrev store_answer : Option (ℕ × Reader) → Str → Store → Store × Response
  store_answer none id s = (s, status_only 502)
  store_answer (some (status, body)) id s =
      if status == 200
      then elim (read_all body) [
        | none ↦ (s, status_only 502)
        | some content ↦ stored_locally (put json faults id (plain content) now s) (status_only 201)
      ]
      else (s, status_only 502)

  -- replicateFrom; `decode` gives the source URL of a request body.
  unfoldable pub replicate_from : (Str → Option Str) → Request → Str → Store → Store × Response
  replicate_from decode r id s = elim (decode r.body.unread) [
    | none ↦ (s, status_only 400)
    | some source ↦
        if str_eq source []
        then (s, status_only 400)
        else store_answer (client.download (fragment_url source id)) id s
  ]

  -- The switch of handleFragment.
  abbrev pub route : (Str → Option Str) → Bool → Method → Request → Str → Store → Store × Response
  route decode true post_method r id s = replicate_from decode r id s
  route decode replicate put_method r id s = put_fragment r id s
  route decode replicate get_method r id s = get_fragment id s
  route decode replicate delete_method r id s = delete_fragment id s
  route decode replicate method r id s = (s, status_only 405)

  -- handleFragment
  unfoldable pub handle_fragment : (Str → Option Str) → Request → Store → Store × Response
  unfolding target_of
  handle_fragment decode r s =
      let (id, replicate) = target_of r.path in route decode replicate r.method r id s

  -- handleHealth: the status, and the bytes used
  unfoldable pub handle_health : RangeOrder → Method → Store → ℕ × Option ℤ
  handle_health order get_method s = elim (disk_usage json order faults s) [
    | err e ↦ (500, none)
    | ok used ↦ (200, some used)
  ]
  handle_health order method s = (405, none)

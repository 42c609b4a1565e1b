-- ===== src/Transport/Replication.antt =====
-- What the handlers of internal/transport/storaged_server.go promise of a fragment on several nodes.
use mathlib.Core.List.{Sublistᴰ}
use frag_kv.Base.{
  Str, ℕ, ◌+◌, ◌≤◌, ◌≡◌, ◌≢◌, refl, ap, ◌∙◌, List, [], ◌∷◌, Option, none, some, Bool, true, false,
  arith, All, length, str_eq, str_eq_ne, ◌==◌, Bool-cases, Option-cases, inl, inr,
}
use frag_kv.Base.Codec.{Codec}
use frag_kv.Storage.{FragmentMeta, Store, Error, Faults, healthy, put}
use frag_kv.Storage.Writes.{put-healthy, stored}
use frag_kv.Storage.Reads.{get-stored}
use frag_kv.Transport.{
  Request, Response, get_method, put_method, HttpClient, read_all, fragment_url, send_fragment,
  non_empty, successes, fan_out, put_fragment, get_fragment, replicate_from, handle_fragment,
  status_only, plain, stored_locally, stream_response, route, target_of,
}
use frag_kv.Transport.Headers.{split_on, parse_int_header}

module _ (client : HttpClient) (id content : Str) where
  -- Replicas that took the fragment: some of the addresses, in their order, each of which answered
  -- 201 Created.
  pub record Accepted (addrs : List Str) (count : ℕ) : Type 0 where
    pub nodes : List Str
    pub among : Sublistᴰ nodes addrs
    pub created : All (λ a. client.upload (fragment_url a id) content ≡ some 201) nodes
    pub counts : length nodes ≡ count

  send_fragment_created :
      (addr : Str)
      → send_fragment client addr id content ≡ true
      → client.upload (fragment_url addr id) content ≡ some 201
  unfolding send_fragment
  send_fragment_created addr h =
      elim (Option-cases (client.upload (fragment_url addr id) content)) [
        | inl broken ↦ absurd (cc (rw (send_fragment, broken) at h))
        | inr (status, answered) ↦
            let is_created : (status == 201) ≡ true = rw (send_fragment, answered) at h in
            answered ∙ ap some (ground arith)
      ]

  successes-Accepted : (addrs : List Str) → Accepted addrs (successes client id content addrs)
  unfolding successes
  successes-Accepted [] = record { nodes = []; among = Sublistᴰ.slnil; created = tt; counts = refl }
  successes-Accepted (addr ∷ addrs) =
      let rest = successes-Accepted addrs in
      elim (Bool-cases (send_fragment client addr id content)) [
        | inl sent ↦ rw sent (record {
          nodes = addr ∷ rest.nodes;
          among = Sublistᴰ.cons-cons refl rest.among;
          created = (send_fragment_created addr sent, rest.created);
          counts = omega (arith, rest.counts);
        })
        | inr not_sent ↦ rw not_sent (record {
          nodes = rest.nodes;
          among = Sublistᴰ.cons rest.among;
          created = rest.created;
          counts = rest.counts;
        })
      ]

module _ (json : Codec FragmentMeta) (faults : Faults) (client : HttpClient) (now : ℕ) where
  stored_locally-201 :
      (p : Store × Option Error) (next : Response)
      → (stored_locally json faults client now p next).1.status ≡ 201
      → (p.1 ≡ none) × (next.status ≡ 201)
  stored_locally-201 (s, none) next h = (refl, h)
  stored_locally-201 (s, some e) next h = absurd (omega (arith, h))

abbrev listed_addrs : Request → List Str
listed_addrs r = non_empty (split_on b',' r.replica_addrs)

module _ (json : Codec FragmentMeta) (client : HttpClient) (now : ℕ) (r : Request) (id : Str)
    (s : Store) where
  -- What 201 Created means for the upload of a fragment with a list of replicas.
  pub record IsAcknowledged (faults : Faults) : Type 0 where
    pub content : Str
    pub whole : read_all r.body ≡ some content
    pub stored_here : (put json faults id (plain content) now s).1 ≡ none
    pub count : ℕ
    pub accepted : Accepted client id content (listed_addrs r) count
    pub quorum : parse_int_header r.write_quorum 2 ≤ 1 + count

  fan_out-201 :
      (content : Str)
      → (fan_out client r id content).status ≡ 201
      → r.replica_addrs ≢ []
      → parse_int_header r.write_quorum 2 ≤ 1 + successes client id content (listed_addrs r)
  unfolding fan_out
  fan_out-201 content h some_replicas =
      ground (arith, h, str_eq_ne r.replica_addrs [] some_replicas)

  -- A fragment whose upload lists replicas and is answered with 201 Created was read whole and is stored
  -- on this node without an error, and with this node as many listed addresses as the write quorum asks
  -- for at least have answered 201 Created to its copies. An address that is listed twice counts twice,
  -- so that these are as many nodes only where the list has no address twice and not that of this node.
  pub put_fragment-IsAcknowledged :
      (faults : Faults)
      → r.replica_addrs ≢ []
      → (put_fragment json faults client now r id s).1.status ≡ 201
      → IsAcknowledged faults
  unfolding put_fragment
  put_fragment-IsAcknowledged faults some_replicas h = elim (Option-cases (read_all r.body)) [
    | inl broken ↦ absurd (omega (arith, rw (put_fragment, broken) at h))
    | inr (content, whole) ↦
        let (done, created) =
          stored_locally-201 json faults client now (put json faults id (plain content) now s)
            (fan_out client r id content) (rw (put_fragment, whole) at h) in
        record {
          content = content;
          whole = whole;
          stored_here = done;
          count = successes client id content (listed_addrs r);
          accepted = successes-Accepted client id content (listed_addrs r);
          quorum = fan_out-201 content created some_replicas;
        }
  ]

  -- Without a list of replicas an upload that is read whole and that nothing disturbs is stored and
  -- answered with 201 when this node alone has it, whatever write quorum the request asks for.
  put_fragment_alone :
      r.replica_addrs ≡ []
      → r.body.fault ≡ none
      → id ≢ []
      → put_fragment json healthy client now r id s ≡ (stored json id r.body now s, status_only 201)
  unfolding put_fragment fan_out str_eq
  put_fragment_alone alone sound named =
      rw (sound, put-healthy json id (plain r.body.unread) now s refl named, alone)

module _ (json : Codec FragmentMeta) (client : HttpClient) (now : ℕ)
    (decode : Str → Option Str) where
  abbrev serve : Request → Store → Store × Response
  serve = handle_fragment json healthy client now decode

  abbrev found : Str → Response
  found content = record { status = 200; body = content }

  get_after_put :
      (id content : Str) (s : Store)
      → (get_fragment json healthy client now id (stored json id (plain content) now s)).1
        ≡ found content
  unfolding get_fragment
  get_after_put id content s =
      ap (stream_response json healthy client now) (get-stored json id (plain content) now s).2

  pub route_get :
      (replicate : Bool) (r : Request) (id : Str) (s : Store)
      → route json healthy client now decode replicate get_method r id s
        ≡ get_fragment json healthy client now id s
  route_get false r id s = refl
  route_get true r id s = refl

  pub route_put :
      (replicate : Bool) (r : Request) (id : Str) (s : Store)
      → route json healthy client now decode replicate put_method r id s
        ≡ put_fragment json healthy client now r id s
  route_put false r id s = refl
  route_put true r id s = refl

  pub put_fragment-stored :
      (r : Request) (id : Str) (s : Store)
      → r.body.fault ≡ none
      → id ≢ []
      → (put_fragment json healthy client now r id s).0 ≡ stored json id (plain r.body.unread) now s
  unfolding put_fragment
  put_fragment-stored r id s sound named =
      rw (sound, put-healthy json id (plain r.body.unread) now s refl named)

  -- What a node was sent by PUT it returns by GET, where nothing fails in its file system and in bbolt:
  -- after the upload of a body that is read whole, to a path that names an ID that is not empty, the same
  -- URL is answered with 200 and those bytes, whether or not the write quorum was reached.
  pub get-put_fragment :
      (r : Request) (s : Store)
      → r.body.fault ≡ none
      → (target_of r.path).0 ≢ []
      → (serve (record r { method = get_method }) (serve (record r { method = put_method }) s).0).1
        ≡ found r.body.unread
  unfolding handle_fragment
  get-put_fragment r s sound named =
      let (id, replicate) = target_of r.path in
      let sent : Request = record r { method = put_method } in
      rw
        (
          route_put replicate sent id s,
          put_fragment-stored sent id s sound named,
          route_get replicate (record r { method = get_method }) id
              (stored json id (plain r.body.unread) now s),
        )
        (get_after_put id r.body.unread s)

  replicate_from-stored :
      (r : Request) (id source content : Str) (s : Store)
      → decode r.body.unread ≡ some source
      → source ≢ []
      → id ≢ []
      → client.download (fragment_url source id) ≡ some (200, plain content)
      → replicate_from json healthy client now decode r id s
        ≡ (stored json id (plain content) now s, status_only 201)
  unfolding replicate_from
  replicate_from-stored r id source content s asks named is_id answers = rw (
    replicate_from,
    asks,
    str_eq_ne source [] named,
    answers,
    put-healthy json id (plain content) now s refl is_id,
  )

  -- A fragment that one node pulls from another is the same on both: where the request names a source
  -- that answers the download with 200 and its bytes, the ID is not empty, and nothing disturbs this
  -- node, the pull is answered with 201, and this node then returns those bytes.
  pub replicate_from-get :
      (r : Request) (id source content : Str) (s : Store)
      → decode r.body.unread ≡ some source
      → source ≢ []
      → id ≢ []
      → client.download (fragment_url source id) ≡ some (200, plain content)
      → ((replicate_from json healthy client now decode r id s).1 ≡ status_only 201)
        × ((get_fragment json healthy client now id
              (replicate_from json healthy client now decode r id s).0).1
            ≡ found content)
  replicate_from-get r id source content s asks named is_id answers =
      rw (replicate_from-stored r id source content s asks named is_id answers)
        (refl, get_after_put id content s)

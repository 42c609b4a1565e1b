-- ===== src/Kvctl/Uploads.antt =====
-- The uploads of a put of cmd/kvctl/main.go, in any order, against the storage nodes of the system.
use frag_kv.Base.{
  Str, ℕ, ◌≡◌, ◌≢◌, refl, ◌∙◌, List, [], ◌∷◌, Option, none, some, slash, Lacks, All, get_elem?, inl,
  inr, List-cases,
}
use frag_kv.Base.Int.{ℤ}
use frag_kv.Base.GoMap.{GoMap}
use frag_kv.Storage.{Store}
use frag_kv.Fragment
use frag_kv.Fragment.{Info, Reader}
use frag_kv.Kvctl.{
  Failure, upload_request, upload_fragment, upload_all, created, first_failure, of_fragment,
}
use frag_kv.Cluster.{Setup, Network, World, services}
use frag_kv.Cluster.Nodes.{IsPiece, KeptAt}
use frag_kv.Cluster.Requests.{upload_keeps, upload_holds}

-- A fragment of the plan with its chunk.
pub record IsJob (key : Str) (chunks : List Str) (job : Info × Str) : Type 0 where
  pub position : ℕ
  pub named : job.0.id ≡ Fragment.id key position
  pub numbered : job.0.index ≡ position
  pub cut : get_elem? chunks position ≡ some job.1

abbrev pub piece_of :
    {key : Str} {chunks : List Str} {job : Info × Str}
    → IsJob key chunks job
    → IsPiece key chunks job.0.id job.1
piece_of j = record { index = j.position; named = j.named; cut = j.cut }

created_answered : (answer : Option (ℕ × Reader)) → created answer ≡ none → answer ≢ none
created_answered none h e = cc h
created_answered (some r) h e = cc e

pub of_fragment-none : (e : Option Failure) → of_fragment e ≡ none → e ≡ none
of_fragment-none none h = refl
of_fragment-none (some e) h = absurd (cc h)

pub first_failure-none :
    (e later : Option Failure) → first_failure e later ≡ none → (e ≡ none) × (later ≡ none)
first_failure-none none later h = (refl, h)
first_failure-none (some e) later h = absurd (cc h)

-- The first address of the fragment is that of a node that holds the chunk.
pub record Held (setup : Setup) (stores : GoMap Store) (job : Info × Str) : Type 0 where
  pub primary : Str
  pub replicas : List Str
  pub addressed : job.0.node_addrs ≡ primary ∷ replicas
  pub host : primary ≢ []
  pub kept : KeptAt setup.metas job.0.id job.1 primary stores

module _ (setup : Setup) (net : Network) (now : ℕ) (quorum : ℤ) where
  abbrev upload : Info → Str → World → World × Option Failure
  upload f c w = upload_fragment (services setup net now) f c quorum w

  abbrev upload_jobs : List (Info × Str) → World → World × Option Failure
  upload_jobs = upload_all (services setup net now) quorum

  upload_catalog : (f : Info) (c : Str) (w : World) → (upload f c w).0.catalog ≡ w.catalog
  unfolding upload_fragment
  upload_catalog f c w = elim (List-cases f.node_addrs) [
    | inl nowhere ↦ rw (upload_fragment, nowhere) refl
    | inr (primary, replicas, addrs) ↦ rw (upload_fragment, addrs) refl
  ]

  -- The uploads leave the catalog alone.
  pub upload_all_catalog :
      (jobs : List (Info × Str)) (w : World) → (upload_jobs jobs w).0.catalog ≡ w.catalog
  unfolding upload_all
  upload_all_catalog [] w = refl
  upload_all_catalog ((f, c) ∷ jobs) w =
      upload_all_catalog jobs (upload f c w).0 ∙ upload_catalog f c w

  module _ (key : Str) (chunks : List Str) (single : Lacks slash key) (key' : Str)
      (chunks' : List Str) (single' : Lacks slash key')
      (agree : key ≡ key' → chunks ≡ chunks') where
    upload_keeps_piece :
        (job : Info × Str) (w : World) (id content addr : Str)
        → IsPiece key chunks id content
        → IsJob key' chunks' job
        → KeptAt setup.metas id content addr w.stores
        → KeptAt setup.metas id content addr (upload job.0 job.1 w).0.stores
    unfolding upload_fragment
    upload_keeps_piece (f, c) w id content addr piece j kept = elim (List-cases f.node_addrs) [
      | inl nowhere ↦ rw (upload_fragment, nowhere) kept
      | inr (primary, replicas, addrs) ↦
          rw (upload_fragment, addrs)
            (upload_keeps setup net now key chunks single key' chunks' single' agree primary
              (upload_request f.id c replicas quorum) w.stores id content f.id c addr piece
              (piece_of j) (record { puts = refl; targets = refl; carries = refl }) kept)
    ]

    -- Uploads of the chunks of one key leave what the nodes hold of another.
    pub upload_all_keeps :
        (jobs : List (Info × Str)) (w : World) (id content addr : Str)
        → IsPiece key chunks id content
        → All (IsJob key' chunks') jobs
        → KeptAt setup.metas id content addr w.stores
        → KeptAt setup.metas id content addr (upload_jobs jobs w).0.stores
    unfolding upload_all
    upload_all_keeps [] w id content addr piece js kept = kept
    upload_all_keeps ((f, c) ∷ jobs) w id content addr piece (j, js) kept =
        upload_all_keeps jobs (upload f c w).0 id content addr piece js
          (upload_keeps_piece (f, c) w id content addr piece j kept)

  module _ (key : Str) (chunks : List Str) (single : Lacks slash key) where
    -- An upload without a failure leaves its chunk at the first address.
    upload-Held :
        (job : Info × Str) (w : World)
        → IsJob key chunks job
        → (upload job.0 job.1 w).1 ≡ none
        → Held setup (upload job.0 job.1 w).0.stores job
    unfolding upload_fragment
    upload-Held (f, c) w j done = elim (List-cases f.node_addrs) [
      | inl nowhere ↦ absurd (cc (rw (upload_fragment, nowhere) at done))
      | inr (primary, replicas, addrs) ↦
          let heard = created_answered _ (rw (upload_fragment, addrs) at done) in
          let (host, kept) =
            upload_holds setup net now key chunks single primary
              (upload_request f.id c replicas quorum) w.stores f.id c (piece_of j)
              (record { puts = refl; targets = refl; carries = refl }) heard in
          record {
            primary = primary;
            replicas = replicas;
            addressed = addrs;
            host = host;
            kept = rw (upload_fragment, addrs) kept;
          }
    ]

    -- Uploads without a failure leave each chunk at the first address of its fragment.
    pub upload_all-Held :
        (jobs : List (Info × Str)) (w : World)
        → All (IsJob key chunks) jobs
        → (upload_jobs jobs w).1 ≡ none
        → All (Held setup (upload_jobs jobs w).0.stores) jobs
    unfolding upload_all
    upload_all-Held [] w js done = tt
    upload_all-Held ((f, c) ∷ jobs) w (j, js) done =
        let (first, later) = first_failure-none _ _ done in
        let held = upload-Held (f, c) w j (of_fragment-none _ first) in
        (
          record {
            primary = held.primary;
            replicas = held.replicas;
            addressed = held.addressed;
            host = held.host;
            kept =
                upload_all_keeps key chunks single key chunks single (λ e. refl) jobs
                  (upload f c w).0 f.id c held.primary (piece_of j) js held.kept;
          },
          upload_all-Held jobs (upload f c w).0 js later,
        )

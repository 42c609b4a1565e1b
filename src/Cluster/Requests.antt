-- ===== src/Cluster/Requests.antt =====
-- One request of a client at a storage node of the system: uploads and downloads of the chunks of a key.
use frag_kv.Base.{
  Str, ℕ, ◌≡◌, ◌≢◌, refl, sym, ap, ap₂, ◌∙◌, subst, List, [], none, some, slash, Lacks, str_eq,
  str_eq_iff, str_eq_ne, Bool-cases, Option-cases, inl, inr,
}
use frag_kv.Base.GoMap.{GoMap, lookup, insert}
use frag_kv.Base.GoMap.Laws.{lookup-insert, lookup-insert_self}
use frag_kv.Fragment
use frag_kv.Storage.{Store, healthy}
use frag_kv.Transport
use frag_kv.Transport.{Method, get_method, put_method, plain, fragment_url, get_fragment}
use frag_kv.Transport.Targets.{handle-get}
use frag_kv.Cluster.{Setup, Network, handle, copies, to_node, passed_on}
use frag_kv.Cluster.Nodes.{
  IsPiece, IsUpload, Kept, KeptAt, kept_stored, handle_upload, insert_keeps, run_at_all_keeps,
}

module _ (setup : Setup) (net : Network) (now : ℕ) (key : Str) (chunks : List Str)
    (single : Lacks slash key) (key' : Str) (chunks' : List Str) (single' : Lacks slash key')
    (agree : key ≡ key' → chunks ≡ chunks') (at : Str) (r : Transport.Request)
    (stores : GoMap Store) where
  copies_keep :
      (id content id' content' addr : Str) (m : GoMap Store)
      → IsPiece key chunks id content
      → IsPiece key' chunks' id' content'
      → IsUpload id' content' r
      → KeptAt setup.metas id content addr m
      → KeptAt setup.metas id content addr (copies setup net now at r.method r m)
  unfolding copies
  copies_keep id content id' content' addr m piece piece' up kept =
      subst (λ method. KeptAt setup.metas id content addr (copies setup net now at method r m))
        (sym up.puts)
        (run_at_all_keeps setup net now key chunks single key' chunks' single' agree id content id'
          content' (passed_on r) piece piece'
          (record { puts = up.puts; targets = up.targets; carries = up.carries }) addr
          (net.reached at r) m kept)

  -- An upload of a chunk leaves the chunks that the nodes hold.
  pub upload_keeps :
      (id content id' content' addr : Str)
      → IsPiece key chunks id content
      → IsPiece key' chunks' id' content'
      → IsUpload id' content' r
      → KeptAt setup.metas id content addr stores
      → KeptAt setup.metas id content addr (to_node setup net now at r stores).0
  unfolding to_node
  upload_keeps id content id' content' addr piece piece' up kept =
      elim (Bool-cases (str_eq at [])) [
        | inl empty ↦ rw (to_node, empty) kept
        | inr host ↦ elim (Option-cases (lookup at stores)) [
          | inl missing ↦ rw (to_node, host, missing) kept
          | inr (s, found) ↦
              rw (to_node, host, found)
                (copies_keep id content id' content' addr
                  (insert at (handle setup net now at r s).0 stores) piece piece' up
                  (insert_keeps setup net now key chunks single key' chunks' single' agree id
                    content id' content' r piece piece' up addr at stores s found kept))
        ]
      ]

module _ (setup : Setup) (net : Network) (now : ℕ) (key : Str) (chunks : List Str)
    (single : Lacks slash key) (at : Str) (r : Transport.Request) (stores : GoMap Store) where
  -- A node that answers the upload of a chunk holds it, whatever the answer says.
  pub upload_holds :
      (id content : Str)
      → IsPiece key chunks id content
      → IsUpload id content r
      → (to_node setup net now at r stores).1 ≢ none
      → (at ≢ []) × KeptAt setup.metas id content at (to_node setup net now at r stores).0
  unfolding to_node
  upload_holds id content piece up heard = elim (Bool-cases (str_eq at [])) [
    | inl empty ↦ absurd (heard (rw (to_node, empty) refl))
    | inr host ↦ elim (Option-cases (lookup at stores)) [
      | inl missing ↦ absurd (heard (rw (to_node, host, missing) refl))
      | inr (s, found) ↦ (
        λ e. absurd (cc (host, (str_eq_iff at []).1 e)),
        rw (to_node, host, found)
            (copies_keep setup net now key chunks single key chunks single (λ e. refl) at r stores
              id content id content at (insert at (handle setup net now at r s).0 stores) piece
              piece up
              (record {
                store = (handle setup net now at r s).0;
                present = lookup-insert_self at (handle setup net now at r s).0 stores;
                kept =
                    subst (Kept setup.metas id content)
                      (sym
                        (handle_upload setup net now key chunks single at id content r s piece up))
                      (kept_stored setup.metas id content now s);
              })),
      )
    ]
  ]

  module _ (i : ℕ) (gets : r.method ≡ get_method)
      (located : r.path ≡ fragment_url [] (Fragment.id key i)) where
    handle_get :
        (s : Store)
        → handle setup net now at r s
          ≡ get_fragment setup.metas healthy (net.peers at) now (Fragment.id key i) s
    handle_get s = handle-get setup.metas (net.peers at) now setup.source_of key i r s located gets

    reinserted :
        (id content addr : Str) (s : Store)
        → lookup at stores ≡ some s
        → KeptAt setup.metas id content addr stores
        → KeptAt setup.metas id content addr (insert at s stores)
    reinserted id content addr s found kept = elim (Bool-cases (str_eq at addr)) [
      | inr other ↦ record {
        store = kept.store;
        present = lookup-insert at addr s stores ∙ rw other kept.present;
        kept = kept.kept;
      }
      | inl here ↦ record {
        store = kept.store;
        present =
            lookup-insert at addr s stores
            ∙ rw here (
                sym found ∙ ap (λ a. lookup a stores) ((str_eq_iff at addr).0 here) ∙ kept.present);
        kept = kept.kept;
      }
    ]

    -- A download changes nothing that a node holds.
    pub download_keeps :
        (id content addr : Str)
        → KeptAt setup.metas id content addr stores
        → KeptAt setup.metas id content addr (to_node setup net now at r stores).0
    unfolding to_node copies get_fragment
    download_keeps id content addr kept = elim (Bool-cases (str_eq at [])) [
      | inl empty ↦ rw (to_node, empty) kept
      | inr host ↦ elim (Option-cases (lookup at stores)) [
        | inl missing ↦ rw (to_node, host, missing) kept
        | inr (s, found) ↦
            rw (to_node, host, found)
              (subst
                (λ (t : Method × Store).
                  KeptAt setup.metas id content addr
                    (copies setup net now at t.0 r (insert at t.1 stores)))
                {x = (get_method, s)} {y = (r.method, (handle setup net now at r s).0)}
                (ap₂ (λ m s'. (m, s')) (sym gets) (sym (ap (λ p. p.0) (handle_get s))))
                (reinserted id content addr s found kept))
      ]
    ]

    -- A node that holds a chunk answers a download with it.
    pub download_answer :
        (content : Str)
        → at ≢ []
        → KeptAt setup.metas (Fragment.id key i) content at stores
        → (to_node setup net now at r stores).1 ≡ some (200, plain content)
    unfolding to_node get_fragment
    download_answer content host kept =
        rw (to_node, str_eq_ne at [] host, kept.present, handle_get kept.store, (kept.kept).1) refl

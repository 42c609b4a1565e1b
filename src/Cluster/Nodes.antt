-- ===== src/Cluster/Nodes.antt =====
-- What the storage nodes of the system hold of the value that is being stored: the chunks of one key.
use frag_kv.Base.{
  Str, ℕ, ◌≡◌, ◌≢◌, refl, sym, ap, ap₂, ◌∙◌, subst, List, [], ◌∷◌, some, slash, Lacks, get_elem?,
  str_eq, str_eq_iff, Bool-cases, Option-cases, inl, inr,
}
use mathlib.Core.Option.{some-injective}
use frag_kv.Base.Codec.{Codec}
use frag_kv.Base.GoMap.{GoMap, lookup, insert}
use frag_kv.Base.GoMap.Laws.{lookup-insert}
use frag_kv.Base.Int.{ℤ}
use frag_kv.Fragment
use frag_kv.Storage.{FragmentMeta, Store, ok, healthy, chunk_path, get_stream}
use frag_kv.Storage.Writes.{stored}
use frag_kv.Storage.Reads.{get-stored, get_stream-stored_ne}
use frag_kv.Storage.Paths.{chunk_path_injective}
use frag_kv.Transport
use frag_kv.Transport.{put_method, get_method, plain, fragment_url, handle_fragment, get_fragment}
use frag_kv.Transport.Targets.{handle-put}
use frag_kv.Cluster.{Setup, Network, handle, run_at, run_at_all}

-- The chunk at some index, and the ID that it is stored under.
pub record IsPiece (key : Str) (chunks : List Str) (id content : Str) : Type 0 where
  pub index : ℕ
  pub named : id ≡ Fragment.id key index
  pub cut : get_elem? chunks index ≡ some content

-- A request that uploads these bytes, whatever it says of replicas.
pub record IsUpload (id content : Str) (r : Transport.Request) : Type 0 where
  pub puts : r.method ≡ put_method
  pub targets : r.path ≡ fragment_url [] id
  pub carries : r.body ≡ plain content

module _ (metas : Codec FragmentMeta) (id content : Str) where
  -- The store returns these bytes for the ID.
  abbrev pub Kept : Store → Type 0
  Kept s = (size : ℤ) × (get_stream metas healthy id s ≡ ok (content, size))

  -- The node at the address returns these bytes for the ID.
  pub record KeptAt (addr : Str) (stores : GoMap Store) : Type 0 where
    pub store : Store
    pub present : lookup addr stores ≡ some store
    pub kept : Kept store

  pub kept_stored : (now : ℕ) (s : Store) → Kept (stored metas id (plain content) now s)
  kept_stored now s = (_, (get-stored metas id (plain content) now s).2)

  kept_apart :
      (id' content' : Str) (now : ℕ) (s : Store)
      → chunk_path s.chunks_dir id' ≢ chunk_path s.chunks_dir id
      → Kept s
      → Kept (stored metas id' (plain content') now s)
  kept_apart id' content' now s apart (size, kept) =
      (size, get_stream-stored_ne metas id' (plain content') now s id apart ∙ kept)

module _ (setup : Setup) (net : Network) (now : ℕ) (key : Str) (chunks : List Str)
    (single : Lacks slash key) where
  -- An upload at a node stores the bytes.
  pub handle_upload :
      (addr id content : Str) (r : Transport.Request) (s : Store)
      → IsPiece key chunks id content
      → IsUpload id content r
      → (handle setup net now addr r s).0 ≡ stored setup.metas id (plain content) now s
  handle_upload addr id content r s piece up =
      handle-put setup.metas (net.peers addr) now setup.source_of key piece.index r s
        (up.targets ∙ ap (fragment_url []) piece.named) content up.puts up.carries
      ∙ ap (λ i. stored setup.metas i (plain content) now s) (sym piece.named)

-- Two keys, of which the second is being stored; where they are one, so are their chunks.
module _ (setup : Setup) (net : Network) (now : ℕ) (key : Str) (chunks : List Str)
    (single : Lacks slash key) (key' : Str) (chunks' : List Str) (single' : Lacks slash key')
    (agree : key ≡ key' → chunks ≡ chunks') where
  kept_step :
      (id content id' content' : Str) (s : Store)
      → IsPiece key chunks id content
      → IsPiece key' chunks' id' content'
      → Kept setup.metas id content s
      → Kept setup.metas id content (stored setup.metas id' (plain content') now s)
  kept_step id content id' content' s p p' kept =
      let same_file = str_eq_iff (chunk_path s.chunks_dir id') (chunk_path s.chunks_dir id) in
      elim (Bool-cases (str_eq (chunk_path s.chunks_dir id') (chunk_path s.chunks_dir id))) [
        | inr apart ↦
            kept_apart setup.metas id content id' content' now s
              (λ e. absurd (cc (apart, same_file.1 e))) kept
        | inl same ↦
            let names =
              ap₂ (λ i j. chunk_path s.chunks_dir i ≡ chunk_path s.chunks_dir j) p'.named p.named in
            let (same_key, index) =
              chunk_path_injective s.chunks_dir key' key p'.index p.index single' single
                (subst (λ T. T) names (same_file.0 same)) in
            let same_id : id ≡ id' =
              p.named ∙ ap₂ Fragment.id (sym same_key) (sym index) ∙ sym p'.named in
            let same_content : content ≡ content' =
              some-injective _ _
                (sym p.cut ∙ ap₂ get_elem? (agree (sym same_key)) (sym index) ∙ p'.cut) in
            subst
              (λ (t : Str × Str).
                Kept setup.metas t.0 t.1 (stored setup.metas id' (plain content') now s))
              {x = (id', content')} {y = (id, content)}
              (ap₂ (λ i c. (i, c)) (sym same_id) (sym same_content))
              (kept_stored setup.metas id' content' now s)
      ]

  module _ (id content id' content' : Str) (r : Transport.Request)
      (piece : IsPiece key chunks id content) (piece' : IsPiece key' chunks' id' content')
      (up : IsUpload id' content' r) where
    pub insert_keeps :
        (addr at : Str) (stores : GoMap Store) (s : Store)
        → lookup at stores ≡ some s
        → KeptAt setup.metas id content addr stores
        → KeptAt setup.metas id content addr (insert at (handle setup net now at r s).0 stores)
    insert_keeps addr at stores s found kept =
        let s' = (handle setup net now at r s).0 in
        elim (Bool-cases (str_eq at addr)) [
          | inr other ↦ record {
            store = kept.store;
            present = lookup-insert at addr s' stores ∙ rw other kept.present;
            kept = kept.kept;
          }
          | inl here ↦
              let same : s ≡ kept.store = some-injective _ _ (
                sym found
                ∙ ap (λ a. lookup a stores) ((str_eq_iff at addr).0 here)
                ∙ kept.present) in
              record {
                store = s';
                present = lookup-insert at addr s' stores ∙ rw here refl;
                kept =
                    subst (Kept setup.metas id content)
                      (sym (
                        handle_upload setup net now key' chunks' single' at id' content' r s piece'
                          up))
                      (kept_step id content id' content' s piece piece'
                        (subst (Kept setup.metas id content) (sym same) kept.kept));
              }
        ]

    -- An upload of a chunk leaves the chunks that the nodes hold.
    run_at_keeps :
        (addr at : Str) (stores : GoMap Store)
        → KeptAt setup.metas id content addr stores
        → KeptAt setup.metas id content addr (run_at setup net now at r stores)
    unfolding run_at
    run_at_keeps addr at stores kept = elim (Option-cases (lookup at stores)) [
      | inl missing ↦ rw (run_at, missing) kept
      | inr (s, found) ↦ rw (run_at, found) (insert_keeps addr at stores s found kept)
    ]

    pub run_at_all_keeps :
        (addr : Str) (addrs : List Str) (stores : GoMap Store)
        → KeptAt setup.metas id content addr stores
        → KeptAt setup.metas id content addr (run_at_all setup net now addrs r stores)
    unfolding run_at_all
    run_at_all_keeps addr [] stores kept = kept
    run_at_all_keeps addr (at ∷ addrs) stores kept =
        run_at_all_keeps addr addrs _ (run_at_keeps addr at stores kept)
